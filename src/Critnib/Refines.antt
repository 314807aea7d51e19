-- ===== src/Critnib/Refines.antt =====
-- The operations of critnib.c against those of a partial function from keys to values.
pub mod Insert
pub mod Memory
pub mod Remove
pub mod Find

-- ===== src/Critbit/Refines.antt =====
-- The operations of critbit.c against those of a partial function from keys to values.
pub mod Get
mod Join
pub mod Insert
pub mod Again
pub mod Remove

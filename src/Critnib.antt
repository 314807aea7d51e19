-- ===== src/Critnib.antt =====
-- critnib.c: the tree (`Tree`), the pools of freed memory (`Pools`), the writers (`Insert`,
-- `Remove`), the readers (`Find`), and the proofs about them.
pub mod Tree
pub mod Pools
pub mod Insert
pub mod Remove
pub mod Find
pub mod Valid
pub mod Replace
pub mod Mapping
pub mod Refines
pub mod Owned
pub mod Counts
pub mod Client
pub mod Shared

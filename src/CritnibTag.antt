-- ===== src/CritnibTag.antt =====
-- critnib-tag.c, the version of the critnib before its slices had names. Its structures are those
-- of critnib.c (`ptok.Critnib.Tree`), with a 32-bit `shift`; its operations are here, in the words
-- of that file, and are compared with those of critnib.c.
pub mod Pools
pub mod Insert
pub mod Remove
pub mod Find
pub mod Same
pub mod Crash

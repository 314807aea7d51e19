-- ===== src/Util.antt =====
-- util.c: the checksums.
pub mod Checksum

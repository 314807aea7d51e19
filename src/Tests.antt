-- ===== src/Tests.antt =====
-- Runs of the models at concrete inputs, and the theorems at inputs that meet their hypotheses.
mod Critnib
mod CritnibShared
mod CritnibTag
mod Critbit
mod Tcradix
mod Corr
mod Tlog
mod Checksum

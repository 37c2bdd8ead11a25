-- ===== src/Amberpack.antt =====
-- The amberpack package: the record codec (amberpack/record.go) and the wire pack stream over it
-- (amberpack/pack.go).
pub mod Crc
pub mod Record
pub mod Pack
pub mod Examples

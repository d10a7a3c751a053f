-- ===== src/Base.antt =====
-- woody/base: byte order, random bytes; and the map type that requests and responses use.
pub mod Endian
pub mod StringMap
pub mod Random

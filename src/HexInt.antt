-- ===== src/HexInt.antt =====
-- common/hexint.go: the byte forms of integers, big-endian and as short as they can be, and the text
-- form of HexInt. A byte is a number below 256.
pub mod Uint64
pub mod Int64
pub mod Big
pub mod Digits
pub mod Text
mod Tests

-- ===== src/Util.antt =====
-- src/util: the parts of the server that do not know of the database or the network.
pub mod Endian
pub mod Decoder
pub mod Number
pub mod Text
pub mod Slice
pub mod Bytes
pub mod Buffer
pub mod Escape
pub mod Pool
pub mod Config
pub mod Log

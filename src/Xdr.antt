-- ===== src/Xdr.antt =====
-- The marshalling core of xdrpp: byte order, archives, type traits and message buffers.
pub mod Word
pub mod Error
pub mod Archive
pub mod Codec
pub mod Format
pub mod Message
mod Examples

-- ===== src/Base/Text.antt =====
-- Rust's byte strings and the standard library's functions on them. A `String` is the list of
-- its UTF-8 bytes, so `as_bytes` is the identity.
pub mod Utf8
pub mod Ascii
pub mod Bytes
pub mod Decimal
pub mod Numerals
pub mod Search

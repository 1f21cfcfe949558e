-- ===== src/Codec.antt =====
-- The order-preserving encoders of rockredis/number.go, bytes.go and memcmp_codec.go. What an
-- encoder appends to `b` stands behind `b ++`; a decoder returns the bytes that are left.
pub mod Number
pub mod Group
pub mod Memcmp
mod Examples

-- ===== src/Encoding.antt =====
-- encoding.ts: keys and values as bytes.
pub mod Text
pub mod Values
pub mod Keys

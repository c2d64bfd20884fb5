-- ===== src/Wire.antt =====
-- The messages on the wire: include/flashptp/common/defines.h.
pub mod Words
pub mod Timestamp
pub mod Interval
pub mod Bytes
pub mod Tlv
pub mod Message

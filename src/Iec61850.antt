-- ===== src/Iec61850.antt =====
-- internal/iec61850: the decoder of sampled-value frames.
mod Tests
pub mod Result
pub mod Ber
pub mod Asdu
pub mod Apdu
pub mod Frame

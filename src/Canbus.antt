-- ===== src/Canbus.antt =====
-- internal/canbus/fuse.go: the frames that stop the bonding machine.
mod Tests
pub mod CanId
pub mod Crc
pub mod Fuse

-- ===== src/Ringbuf.antt =====
-- internal/ringbuf: the lock-free rings between the gateway's goroutines.
mod Tests
pub mod Fifo
pub mod Tagged
pub mod Batch
pub mod Versioned
pub mod Hazard
pub mod SafeQueue

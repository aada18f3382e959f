-- ===== src/Gateway.antt =====
-- internal/gateway/gateway.go: three loops around two rings, and the statistics.
mod Tests
pub mod State
pub mod Loops
pub mod Steps
pub mod Tally
pub mod Conserve
pub mod Balance
pub mod Dispatch
pub mod Emergency
pub mod Progress

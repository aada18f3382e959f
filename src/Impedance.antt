-- ===== src/Impedance.antt =====
-- internal/impedance: the matrix of the recent rows of a channel.
mod Tests
pub mod Matrix
pub mod Pipeline

-- ===== src/Lab2.antt =====
-- Lab/Lab2/complete: the open world that many players share, and what is proved of it.
mod Tests
pub mod World
pub mod Rules
pub mod Reach
pub mod Targets
pub mod Strikes

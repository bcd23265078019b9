-- ===== src/Lab1.antt =====
-- Lab/Lab1/complete: the duel of two players who take turns, and what is proved of it.
mod Tests
pub mod Game
pub mod Actions
pub mod Rules
pub mod Duration

-- ===== src/World.antt =====
-- Lab/Lab3/complete/world/world.go: one map's world, its handlers, and what is proved of them.
pub mod State
pub mod Grid
pub mod Maps
pub mod Place
pub mod Life
pub mod Spawn
pub mod Move
pub mod Heal
pub mod Attack
pub mod Shop
pub mod Sessions
pub mod Background
pub mod Snapshot
pub mod Walkable
pub mod SpawnCells
pub mod Frames
pub mod Outcomes
pub mod Fights
pub mod BackgroundFrames
pub mod Targets
pub mod HitPoints
pub mod BackgroundHitPoints
pub mod Effects
pub mod Collisions
pub mod Stuck
pub mod Occupancy
pub mod Loot
pub mod Examples
mod Tests

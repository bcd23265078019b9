-- ===== src/Warzone.antt =====
-- warzone_go: the five-player arena server, its file database and its wire format.
mod Tests
pub mod Bytes
pub mod Decimal
pub mod Hash
pub mod Files
pub mod Database
pub mod State
pub mod Round
pub mod Arena
pub mod Broadcast
pub mod Packets
pub mod Conn
pub mod Loops
pub mod System
pub mod Wire
pub mod Changes
pub mod Steps
pub mod Frames
pub mod Seats
pub mod Leaving
pub mod Threads
pub mod Seating
pub mod Ranges
pub mod Bounds
pub mod Running

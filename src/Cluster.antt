-- ===== src/Cluster.antt =====
-- Lab/Lab3/complete/cluster/cluster.go: nodes, sessions, the world boss and failover.
pub mod State
pub mod Nodes
pub mod Events
pub mod Persist
pub mod Views
pub mod Accounts
pub mod Play
pub mod Boss
pub mod Switch
pub mod Failover
pub mod Ticks
pub mod EventLists
pub mod BossFight
pub mod Routing
pub mod Succession
pub mod Administration
pub mod Requests
pub mod BossRequests
pub mod Entry
mod Tests

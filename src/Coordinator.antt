-- ===== src/Coordinator.antt =====
-- srv/coordinator: the database of container locations, the set of nymphs and the control loop.
pub mod LocationDb
pub mod NymphSet
pub mod Migrate
pub mod Control
pub mod Server
pub mod Client
pub mod Scheduler
pub mod Cluster
pub mod Channel
pub mod Process

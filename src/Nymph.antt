-- ===== src/Nymph.antt =====
-- srv/nymph and pkg/nymph: the node daemon, its clients and both ends of a migration.
pub mod Client
pub mod Os
pub mod MigrationClient
pub mod Recipient
pub mod MigrationDonor
pub mod Transfer
pub mod Send
pub mod Relaunch
pub mod Run
pub mod Daemon
pub mod Devices
pub mod Migration
pub mod Process

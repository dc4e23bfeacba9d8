-- ===== src/Container.antt =====
-- pkg/container: the containers of a node, their checkpoints, labels and addresses.
pub mod Types
pub mod Runtime
pub mod Checkpoint
pub mod Life
pub mod Registry
pub mod Labels
pub mod Address
pub mod Device
pub mod Times
pub mod Image

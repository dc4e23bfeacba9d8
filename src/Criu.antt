-- ===== src/Criu.antt =====
-- pkg/criu: the processes of a container, and the service that dumps and restores them.
pub mod ProcessTree
pub mod Service
pub mod Messages

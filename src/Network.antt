-- ===== src/Network.antt =====
-- pkg/network: the network drivers, and the hooks that they run when a container starts and stops.
pub mod Netlink
pub mod HookState
pub mod Peers
pub mod Veth
pub mod Ovs
pub mod Rxe
pub mod Driver
pub mod Hooks

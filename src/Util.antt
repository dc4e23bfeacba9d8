-- ===== src/Util.antt =====
-- pkg/util: connecting to a server, and the end of a process upon a signal.
pub mod Rpc
pub mod Dial
pub mod Server
pub mod Serving
pub mod Context

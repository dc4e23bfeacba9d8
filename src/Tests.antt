-- ===== src/Tests.antt =====
-- The theorems of the library at concrete inputs.
mod Container
mod Coordinator
mod Nodes
mod Nymph
mod Run
mod Runtime
mod Links
mod Network
mod Daemon
mod Exit
mod Channel
mod Criu
mod Image
mod Transfer
mod Mpirun
mod Migration
mod Cluster
mod Numbers
mod Process

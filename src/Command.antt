-- ===== src/Command.antt =====
-- cmd and pkg/mpirun: the commands that start containers, ask for migrations and launch mpirun.
pub mod Run
pub mod Console
pub mod Mpirun
pub mod Daemons

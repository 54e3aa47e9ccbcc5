-- ===== src/Daemon.antt =====
-- The daemon: src/daemon.cc.
pub mod Loop
pub mod LoopLaws

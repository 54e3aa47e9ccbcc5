-- ===== src/ClientExt.antt =====
-- `AkliteClientExt` (src/aklite_client_ext.cc): the selection of the target to install, its download
-- and installation with a rollback, and the rollback that a user asks for.
pub mod TargetToInstall
pub mod Selection
pub mod PullAndInstall
pub mod Outcome

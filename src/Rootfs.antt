-- ===== src/Rootfs.antt =====
-- `RootfsTreeManager`: src/rootfstreemanager.cc and src/rootfstreemanager.h.
pub mod Host
pub mod Deltas
pub mod Download
pub mod Install
pub mod DeltaLaws
pub mod DownloadLaws
pub mod InstallLaws
pub mod RollbackLaws

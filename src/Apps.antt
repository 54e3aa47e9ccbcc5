-- ===== src/Apps.antt =====
-- The package manager of an OSTree commit with compose apps, src/composeappmanager.cc.
pub mod Engine
pub mod Choice
pub mod ChoiceLaws
pub mod Manager
pub mod Install
pub mod InstallLaws
pub mod CleanUp
pub mod Finalize
pub mod ManagerLaws

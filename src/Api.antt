-- ===== src/Api.antt =====
-- The client's API (src/api.cc, include/aktualizr-lite/api.h).
pub mod Select
pub mod SelectLaws
pub mod Lite
pub mod Context
pub mod Installer
pub mod Bundle
pub mod Available
pub mod CheckIn
pub mod BundleLaws
pub mod LocalLaws
pub mod CheckInLaws

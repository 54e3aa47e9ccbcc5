-- ===== src/Bootloader.antt =====
-- The bootloader: src/bootloader/bootloaderlite.cc and src/bootloader/bootloaderlite.h.
pub mod Env
pub mod Version
pub mod Notify
pub mod Status
pub mod Implements
pub mod VersionLaws
pub mod NotifyLaws

-- ===== src/Bootloader/Status.antt =====
-- The interface of the boot firmware (src/bootloader/bootloaderlite.h).
use aktualizr_lite.Bootloader.Env.{VersionStrRes}
use aktualizr_lite.Bootloader.Version.{TargetVersion}
use aktualizr_lite.Prelude.{Bool, String}

-- `BootFwUpdateStatus` over a state.
pub record BootFwUpdateStatus (S : Type 0) : Type 0 where
  pub is_update_supported : Bool
  pub is_update_in_progress : S → Bool
  pub is_rollback_protection_enabled : S → Bool
  pub get_target_version : String → S → TargetVersion
  pub get_current_version : S → VersionStrRes

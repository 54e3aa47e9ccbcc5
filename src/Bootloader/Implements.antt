-- ===== src/Bootloader/Implements.antt =====
-- `BootloaderLite` has the interface of the boot firmware.
use aktualizr_lite.Bootloader.Status.{BootFwUpdateStatus}
use aktualizr_lite.Bootloader.Env.{
  Boot, Firmware, get_current_version, is_rollback_protection_enabled, is_update_in_progress,
  is_update_supported,
}
use aktualizr_lite.Bootloader.Version.{get_target_version}

-- `BootloaderLite` as a `BootFwUpdateStatus`.
unfoldable pub bootloader_status : (F : Firmware) → BootFwUpdateStatus (Boot F.State)
bootloader_status F = record {
  is_update_supported = is_update_supported F;
  is_update_in_progress = is_update_in_progress F;
  is_rollback_protection_enabled = is_rollback_protection_enabled F;
  get_target_version = λ hash b. get_target_version F hash b.world;
  get_current_version = get_current_version F;
}

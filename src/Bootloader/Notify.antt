-- ===== src/Bootloader/Notify.antt =====
-- `installNotify` of src/bootloader/bootloaderlite.cc, which asks the bootloader for an update.
use aktualizr_lite.Bootloader.Env.{
  Boot, Firmware, RollbackMode, VersionStrRes, get_current_version, set_env_var,
}
use aktualizr_lite.Bootloader.Version.{get_deployment_version, get_target_dir}
use aktualizr_lite.Target.{UptaneTarget}
use aktualizr_lite.Prelude.{
  Bool, Option, String, if◌then◌else◌, int_eq, nat_eq, none, not, some, string_eq, ◌<>◌, ◌==◌, ◌||◌,
}

-- Whether the version of the target differs from that of the bootloader, or this one is unknown.
unfoldable pub is_update_due : String → VersionStrRes → Bool
is_update_due target_version (cur_version, is_current_ver_valid) =
    not is_current_ver_valid || not (target_version == cur_version)

module _ (F : Firmware) where
  open F use {State}

  -- The case of the modes that set variables.
  unfoldable pub set_upgrade : String → Boot State → Boot State
  unfolding get_deployment_version get_current_version is_update_due set_env_var
  set_upgrade hash b =
      let (target_version, is_known) = get_deployment_version F hash b.world in
      if not is_known
      then b
      else if is_update_due target_version (get_current_version F b)
      then (set_env_var F "bootupgrade_available" "1" b).1
      else b

  -- The switch of `installNotify`: none is an exception. The case of `fio_efi` falls through to the
  -- next one.
  unfoldable pub notify_by : RollbackMode → UptaneTarget → Boot State → Option (Boot State)
  unfolding set_upgrade get_target_dir
  notify_by RollbackMode.bootloader_none t b = some b
  notify_by RollbackMode.uboot_generic t b = some b
  notify_by RollbackMode.fio_efi t b = elim (get_target_dir F t.sha256 b.world) [
    | none ↦ none
    | some dir ↦
        some
          (set_upgrade t.sha256 (record b { env_cmd_vars = "FIO_OSTREE_TARGET_SYSROOT=" <> dir }))
  ]
  notify_by RollbackMode.uboot_masked t b = some (set_upgrade t.sha256 b)
  notify_by RollbackMode.fio_vb t b = some (set_upgrade t.sha256 b)
  notify_by RollbackMode.other t b = none

  -- `installNotify`
  unfoldable pub install_notify : UptaneTarget → Boot State → Option (Boot State)
  unfolding notify_by
  install_notify = notify_by F.mode

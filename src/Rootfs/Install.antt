-- ===== src/Rootfs/Install.antt =====
-- `install`, `verifyBootloaderUpdate` and `installNotify` of src/rootfstreemanager.cc.
use aktualizr_lite.Bootloader.Env.{VersionStrRes}
use aktualizr_lite.Bootloader.Version.{TargetVersion}
use aktualizr_lite.Results.{InstallationResult, ResultCode}
use aktualizr_lite.Rootfs.Host.{Host}
use aktualizr_lite.Target.{UptaneTarget}
use aktualizr_lite.Prelude.{
  Bool, Option, String, false, if◌then◌else◌, int_eq, is_empty, ltb, nat_eq, none, not, some,
  string_eq, true, ℕ, ◌&&◌, ◌<>◌, ◌==◌, ◌||◌,
}

abbrev pub gives : ResultCode → String → InstallationResult
gives code description = record { code = code; description = description }

abbrev pub same_as_current : InstallationResult
same_as_current = gives ResultCode.ok "OSTree hash already installed, same as current"

abbrev pub is_failure : ResultCode → Bool
is_failure ResultCode.install_failed = true
is_failure _ = false

abbrev pub or_zero : Option ℕ → ℕ
or_zero none = 0
or_zero (some n) = n

module _ {State : Type 0} (H : Host State) where
  -- The text of the current version, "0" where it cannot be read.
  abbrev pub current_text : VersionStrRes → String
  current_text (cur_ver, is_valid) = if not is_valid then "0" else cur_ver

  -- The comparison of the version of the target with the current one.
  unfoldable pub compare_versions : String → VersionStrRes → InstallationResult
  compare_versions target_ver_str cur = elim (H.lexical_cast target_ver_str) [
    | none ↦ gives ResultCode.install_failed H.cast_error
    | some target_ver ↦
        let cur_ver_str = current_text cur in
        if ltb target_ver (or_zero (H.lexical_cast cur_ver_str))
        then gives ResultCode.install_failed (
            "bootloader rollback from version " <> cur_ver_str <> " to " <> target_ver_str
            <> " has been detected")
        else gives ResultCode.ok ""
  ]

  -- The verdict by what is read of the target's version.
  unfoldable pub verify_version : TargetVersion → VersionStrRes → InstallationResult
  unfolding compare_versions
  verify_version (TargetVersion.malformed e) cur = gives ResultCode.install_failed e
  verify_version (TargetVersion.unreadable e) cur = gives ResultCode.ok ""
  verify_version (TargetVersion.found v) cur = compare_versions v cur

  -- `verifyBootloaderUpdate`
  unfoldable pub verify_bootloader_update : UptaneTarget → State → InstallationResult
  unfolding verify_version
  verify_bootloader_update t s =
      if H.update_block && H.boot_fw.is_update_in_progress s
      then gives ResultCode.need_completion "bootloader update is in progress"
      else if not (H.boot_fw.is_rollback_protection_enabled s)
      then gives ResultCode.ok ""
      else verify_version (H.boot_fw.get_target_version t.sha256 s)
          (H.boot_fw.get_current_version s)

  -- `installNotify`
  unfoldable pub notify_installed : UptaneTarget → State → State
  notify_installed t s = H.ostree_install_notify t (H.reload s)

  -- Whether another target than the one that waits for a reboot is to be deployed.
  unfoldable pub is_deployed_anew : UptaneTarget → State → Bool
  is_deployed_anew t s =
      not ((H.current s).sha256 == t.sha256)
      || not (is_empty (H.pending_hash s)) && not (H.pending_hash s == t.sha256)

  abbrev is_completion : ResultCode → Bool
  is_completion ResultCode.need_completion = true
  is_completion _ = false

  abbrev pub is_ok_code : ResultCode → Bool
  is_ok_code ResultCode.ok = true
  is_ok_code _ = false

  -- The deployment of a target.
  unfoldable pub deploy : UptaneTarget → State → InstallationResult × State
  unfolding notify_installed
  deploy t s =
      let (res, s1) = H.ostree_install t (H.update_notify s) in
      let s2 = notify_installed t s1 in
      if is_failure res.code
      then (res, s1)
      else if (H.current s).sha256 == t.sha256 && is_completion res.code
      then (same_as_current, H.update_notify s2)
      else (res, s2)

  -- `install`, after the check of the bootloader's version.
  unfoldable pub install_checked : UptaneTarget → State → InstallationResult × State
  unfolding is_deployed_anew deploy
  install_checked t s = if is_deployed_anew t s then deploy t s else (same_as_current, s)

  -- `install`
  unfoldable pub install_commit_tree : UptaneTarget → State → InstallationResult × State
  unfolding verify_bootloader_update install_checked
  install_commit_tree t s =
      let res = verify_bootloader_update t s in
      if not ((H.current s).sha256 == t.sha256)
        && H.boot_fw.is_update_supported
        && not (is_ok_code res.code)
      then (res, s)
      else install_checked t s

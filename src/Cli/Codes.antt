-- ===== src/Cli/Codes.antt =====
-- `StatusCode`, its tables and `IsSuccessCode` of src/cli/cli.cc.
use aktualizr_lite.Prelude.{Bool, Option, false, none, some, true, ℕ}
use mathlib.Core.Option
use aktualizr_lite.Results.{CheckInStatus, DownloadStatus, InstallStatus, SelectStatus}

pub data StatusCode : Type 0 where
  unknown_error ok checkin_ok_cached checkin_failure ok_needs_reboot_for_boot_fw
        checkin_no_matching_targets checkin_no_target_content install_apps_need_finalization
        checkin_security_error checkin_expired_metadata checkin_metadata_fetch_failure
        checkin_metadata_not_found checkin_invalid_bundle_metadata checkin_update_new_version
        checkin_update_sync_apps checkin_update_rollback tuf_target_not_found
        rollback_target_not_found installation_in_progress no_pending_installation download_failure
        download_failure_no_space download_failure_verification_failed install_already_installed
        install_target_pull_failure install_needs_reboot_for_boot_fw install_offline_rollback_ok
        install_needs_reboot install_downgrade_attempt install_rollback_ok
        install_rollback_needs_reboot install_rollback_failed :
      StatusCode

-- The values of the enumerators, which are the exit codes of the process.
unfoldable pub exit_code : StatusCode → ℕ
exit_code StatusCode.unknown_error = 1
exit_code StatusCode.ok = 0
exit_code StatusCode.checkin_ok_cached = 3
exit_code StatusCode.checkin_failure = 4
exit_code StatusCode.ok_needs_reboot_for_boot_fw = 5
exit_code StatusCode.checkin_no_matching_targets = 6
exit_code StatusCode.checkin_no_target_content = 8
exit_code StatusCode.install_apps_need_finalization = 10
exit_code StatusCode.checkin_security_error = 11
exit_code StatusCode.checkin_expired_metadata = 12
exit_code StatusCode.checkin_metadata_fetch_failure = 13
exit_code StatusCode.checkin_metadata_not_found = 14
exit_code StatusCode.checkin_invalid_bundle_metadata = 15
exit_code StatusCode.checkin_update_new_version = 16
exit_code StatusCode.checkin_update_sync_apps = 17
exit_code StatusCode.checkin_update_rollback = 18
exit_code StatusCode.tuf_target_not_found = 20
exit_code StatusCode.rollback_target_not_found = 21
exit_code StatusCode.installation_in_progress = 30
exit_code StatusCode.no_pending_installation = 40
exit_code StatusCode.download_failure = 50
exit_code StatusCode.download_failure_no_space = 60
exit_code StatusCode.download_failure_verification_failed = 70
exit_code StatusCode.install_already_installed = 75
exit_code StatusCode.install_target_pull_failure = 80
exit_code StatusCode.install_needs_reboot_for_boot_fw = 90
exit_code StatusCode.install_offline_rollback_ok = 99
exit_code StatusCode.install_needs_reboot = 100
exit_code StatusCode.install_downgrade_attempt = 102
exit_code StatusCode.install_rollback_ok = 110
exit_code StatusCode.install_rollback_needs_reboot = 120
exit_code StatusCode.install_rollback_failed = 130

-- `c2s`, `t2s`, `d2s` and `i2s`: `none` where the table has no entry for the key.
unfoldable pub c2s : CheckInStatus → Option StatusCode
c2s CheckInStatus.ok = some StatusCode.ok
c2s CheckInStatus.ok_cached = some StatusCode.checkin_ok_cached
c2s CheckInStatus.failed = some StatusCode.checkin_failure
c2s CheckInStatus.no_matching_targets = some StatusCode.checkin_no_matching_targets
c2s CheckInStatus.no_target_content = some StatusCode.checkin_no_target_content
c2s CheckInStatus.security_error = some StatusCode.checkin_security_error
c2s CheckInStatus.expired_metadata = some StatusCode.checkin_expired_metadata
c2s CheckInStatus.metadata_fetch_failure = some StatusCode.checkin_metadata_fetch_failure
c2s CheckInStatus.metadata_not_found = some StatusCode.checkin_metadata_not_found
c2s CheckInStatus.bundle_metadata_error = some StatusCode.checkin_invalid_bundle_metadata

-- `RollbackTargetNotFound` is listed twice: the first entry counts.
unfoldable pub t2s : SelectStatus → Option StatusCode
t2s SelectStatus.tuf_target_not_found = some StatusCode.tuf_target_not_found
t2s SelectStatus.target_already_installed = some StatusCode.install_already_installed
t2s SelectStatus.rollback_target_not_found = some StatusCode.rollback_target_not_found
t2s SelectStatus.bad_checkin_status = some StatusCode.unknown_error
t2s SelectStatus.no_update = some StatusCode.ok
t2s SelectStatus.update_new_version = some StatusCode.checkin_update_new_version
t2s SelectStatus.update_sync_apps = some StatusCode.checkin_update_sync_apps
t2s SelectStatus.update_rollback = some StatusCode.checkin_update_rollback
t2s SelectStatus.bad_rollback_target = none

unfoldable pub d2s : DownloadStatus → Option StatusCode
d2s DownloadStatus.ok = some StatusCode.ok
d2s DownloadStatus.download_failed = some StatusCode.download_failure
d2s DownloadStatus.verification_failed = some StatusCode.download_failure_verification_failed
d2s DownloadStatus.download_failed_no_space = some StatusCode.download_failure_no_space

unfoldable pub i2s : InstallStatus → Option StatusCode
i2s InstallStatus.ok = some StatusCode.ok
i2s InstallStatus.ok_boot_fw_needs_completion = some StatusCode.ok_needs_reboot_for_boot_fw
i2s InstallStatus.needs_completion = some StatusCode.install_needs_reboot
i2s InstallStatus.apps_need_completion = some StatusCode.install_apps_need_finalization
i2s InstallStatus.boot_fw_needs_completion = some StatusCode.install_needs_reboot_for_boot_fw
i2s InstallStatus.download_failed = some StatusCode.install_target_pull_failure
i2s InstallStatus.download_ostree_failed = some StatusCode.download_failure
i2s InstallStatus.verification_failed = some StatusCode.download_failure_verification_failed
i2s InstallStatus.download_failed_no_space = some StatusCode.download_failure_no_space
i2s InstallStatus.installation_in_progress = some StatusCode.installation_in_progress
i2s InstallStatus.install_rollback_failed = some StatusCode.install_rollback_failed
i2s InstallStatus.install_rollback_ok = some StatusCode.install_rollback_ok
i2s InstallStatus.unknown_error = some StatusCode.unknown_error
i2s InstallStatus.failed = none

-- `res2StatusCode`.
unfoldable pub res2status_code : {A : Type 0} → (A → Option StatusCode) → A → StatusCode
res2status_code code_map rc = Option.get_or (code_map rc) StatusCode.unknown_error

-- `IsSuccessCode`.
unfoldable pub is_success_code : StatusCode → Bool
is_success_code StatusCode.ok = true
is_success_code StatusCode.checkin_ok_cached = true
is_success_code StatusCode.checkin_update_new_version = true
is_success_code StatusCode.checkin_update_sync_apps = true
is_success_code StatusCode.checkin_update_rollback = true
is_success_code StatusCode.ok_needs_reboot_for_boot_fw = true
is_success_code StatusCode.install_needs_reboot = true
is_success_code StatusCode.install_apps_need_finalization = true
is_success_code _ = false

-- ===== src/Cli/ExitCodes.antt =====
-- What the exit codes of src/cli/cli.cc tell a caller.
use aktualizr_lite.Prelude.{
  Bool, List, Option, [], ap, arith, false, if◌then◌else◌, nat_beq, none, not, refl, some, true, ℕ,
  ◌&&◌, ◌∷◌, ◌≡◌,
}
use aktualizr_lite.Results.{
  CheckInStatus, InstallStatus, SelectStatus, check_in_good, install_good, select_good,
}
use aktualizr_lite.Cli.Codes.{
  StatusCode, c2s, exit_code, i2s, is_success_code, res2status_code, t2s,
}

-- The code that an exit status stands for, by search among the enumerators.
find_code : List StatusCode → ℕ → Option StatusCode
find_code [] n = none
find_code (c ∷ cs) n = if nat_beq (exit_code c) n then some c else find_code cs n

abbrev status_codes : List StatusCode
status_codes =
    StatusCode.unknown_error ∷ StatusCode.ok ∷ StatusCode.checkin_ok_cached
    ∷ StatusCode.checkin_failure ∷ StatusCode.ok_needs_reboot_for_boot_fw
    ∷ StatusCode.checkin_no_matching_targets ∷ StatusCode.checkin_no_target_content
    ∷ StatusCode.install_apps_need_finalization ∷ StatusCode.checkin_security_error
    ∷ StatusCode.checkin_expired_metadata ∷ StatusCode.checkin_metadata_fetch_failure
    ∷ StatusCode.checkin_metadata_not_found ∷ StatusCode.checkin_invalid_bundle_metadata
    ∷ StatusCode.checkin_update_new_version ∷ StatusCode.checkin_update_sync_apps
    ∷ StatusCode.checkin_update_rollback ∷ StatusCode.tuf_target_not_found
    ∷ StatusCode.rollback_target_not_found ∷ StatusCode.installation_in_progress
    ∷ StatusCode.no_pending_installation ∷ StatusCode.download_failure
    ∷ StatusCode.download_failure_no_space ∷ StatusCode.download_failure_verification_failed
    ∷ StatusCode.install_already_installed ∷ StatusCode.install_target_pull_failure
    ∷ StatusCode.install_needs_reboot_for_boot_fw ∷ StatusCode.install_offline_rollback_ok
    ∷ StatusCode.install_needs_reboot ∷ StatusCode.install_downgrade_attempt
    ∷ StatusCode.install_rollback_ok ∷ StatusCode.install_rollback_needs_reboot
    ∷ StatusCode.install_rollback_failed ∷ []

-- The search gives every code back.
find_code-exit_code : (c : StatusCode) → find_code status_codes (exit_code c) ≡ some c
unfolding find_code exit_code
find_code-exit_code StatusCode.unknown_error = refl
find_code-exit_code StatusCode.ok = refl
find_code-exit_code StatusCode.checkin_ok_cached = refl
find_code-exit_code StatusCode.checkin_failure = refl
find_code-exit_code StatusCode.ok_needs_reboot_for_boot_fw = refl
find_code-exit_code StatusCode.checkin_no_matching_targets = refl
find_code-exit_code StatusCode.checkin_no_target_content = refl
find_code-exit_code StatusCode.install_apps_need_finalization = refl
find_code-exit_code StatusCode.checkin_security_error = refl
find_code-exit_code StatusCode.checkin_expired_metadata = refl
find_code-exit_code StatusCode.checkin_metadata_fetch_failure = refl
find_code-exit_code StatusCode.checkin_metadata_not_found = refl
find_code-exit_code StatusCode.checkin_invalid_bundle_metadata = refl
find_code-exit_code StatusCode.checkin_update_new_version = refl
find_code-exit_code StatusCode.checkin_update_sync_apps = refl
find_code-exit_code StatusCode.checkin_update_rollback = refl
find_code-exit_code StatusCode.tuf_target_not_found = refl
find_code-exit_code StatusCode.rollback_target_not_found = refl
find_code-exit_code StatusCode.installation_in_progress = refl
find_code-exit_code StatusCode.no_pending_installation = refl
find_code-exit_code StatusCode.download_failure = refl
find_code-exit_code StatusCode.download_failure_no_space = refl
find_code-exit_code StatusCode.download_failure_verification_failed = refl
find_code-exit_code StatusCode.install_already_installed = refl
find_code-exit_code StatusCode.install_target_pull_failure = refl
find_code-exit_code StatusCode.install_needs_reboot_for_boot_fw = refl
find_code-exit_code StatusCode.install_offline_rollback_ok = refl
find_code-exit_code StatusCode.install_needs_reboot = refl
find_code-exit_code StatusCode.install_downgrade_attempt = refl
find_code-exit_code StatusCode.install_rollback_ok = refl
find_code-exit_code StatusCode.install_rollback_needs_reboot = refl
find_code-exit_code StatusCode.install_rollback_failed = refl

-- No two status codes share an exit code of the process.
pub exit_code-injective : (a b : StatusCode) → exit_code a ≡ exit_code b → a ≡ b
exit_code-injective a b e =
    cc (find_code-exit_code a, find_code-exit_code b, ap (find_code status_codes) e)

abbrev rolled_back : InstallStatus → Bool
rolled_back InstallStatus.install_rollback_ok = true
rolled_back _ = false

-- The command line calls a check-in or a selection of a target successful exactly where the client
-- does. It calls an installation so where the client does, but for one result: a rollback that was
-- carried out is good for the client and a failure for the command line.
pub is_success_code-res2status_code :
    (c : CheckInStatus) (t : SelectStatus) (i : InstallStatus)
    → (is_success_code (res2status_code c2s c) ≡ check_in_good c)
      × (is_success_code (res2status_code t2s t) ≡ select_good t)
      × (is_success_code (res2status_code i2s i) ≡ (install_good i && not (rolled_back i)))
unfolding is_success_code res2status_code c2s t2s i2s check_in_good select_good install_good
is_success_code-res2status_code c t i = (ground arith, ground arith, ground arith)

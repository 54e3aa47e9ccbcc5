-- ===== src/Cli/Gates.antt =====
-- What has to hold before the commands of src/cli/cli.cc install anything, and how a finalization
-- that failed ends.
use aktualizr_lite.Prelude.{
  Bool, Option, String, arith, false, int_ltb, none, some, true, ℤ, ◌↔◌, ◌≡◌, ◌≢◌, ◌⊎◌,
}
use aktualizr_lite.Results.{
  CheckInResult, InstallStatus, LocalUpdateSource, check_in_good, install_good,
}
use aktualizr_lite.Target.{is_unknown}
use aktualizr_lite.Cli.Codes.{StatusCode, i2s, is_success_code, res2status_code}
use aktualizr_lite.Cli.Client.{Client}
use aktualizr_lite.Cli.Commands.{
  CheckMode, Request, check_in_by, complete_install_command, is_some, pull_and_install_command,
}

-- A check-in and a selection leave what is installed on the device alone.
pub record LeavesAlone (K : Client) (A : Type 0) (installed : K.State → A) : Type 0 where
  pub check_in_same : (s : K.State) → installed (K.check_in s).1 ≡ installed s
  pub check_in_local_same :
      (src : LocalUpdateSource) (s : K.State) → installed (K.check_in_local src s).1 ≡ installed s
  pub check_in_current_same :
      (src : Option LocalUpdateSource) (s : K.State)
      → installed (K.check_in_current src s).1 ≡ installed s
  pub select_same :
      (ci : CheckInResult) (v : ℤ) (name : String) (a b c d : Bool) (s : K.State)
      → installed (K.get_target_to_install ci v name a b c d s).1 ≡ installed s

abbrev pub IsRollbackCode : StatusCode → Type 0
IsRollbackCode c =
    (c ≡ StatusCode.install_rollback_ok)
    ⊎ (c ≡ StatusCode.install_rollback_needs_reboot)
    ⊎ (c ≡ StatusCode.install_rollback_failed)
    ⊎ (c ≡ StatusCode.unknown_error)

module _ (K : Client) where
  open K use {
    State, is_installation_in_progress, get_current, get_target_to_install, complete_installation,
  }

  check_in_by_same :
      (A : Type 0) (installed : State → A)
      → LeavesAlone K A installed
      → (mode : CheckMode) (src : Option LocalUpdateSource) (s : State)
      → installed (check_in_by K mode src s).1 ≡ installed s
  unfolding check_in_by
  check_in_by_same A installed L CheckMode.update none s = L.check_in_same s
  check_in_by_same A installed L CheckMode.update (some src) s = L.check_in_local_same src s
  check_in_by_same A installed L CheckMode.current src s = L.check_in_current_same src s

  -- Where check-ins and selections leave alone what is installed, `update`, `pull` and `install`
  -- change it only if no installation is pending, the check-in was good, a target was selected,
  -- and its version is not lower than that of the current target unless a downgrade is forced.
  pub pull_and_install_command_gates :
      (A : Type 0) (installed : State → A)
      → LeavesAlone K A installed
      → (r : Request) (s : State) → installed (pull_and_install_command K r s).1 ≢ installed s
      → let (ci, s1) = check_in_by K r.check_mode r.source s in
        let (gti, s2) =
          get_target_to_install ci r.version r.target_name true true
            (is_some r.source)
            r.auto_downgrade
            s1 in
        (is_installation_in_progress s ≡ false)
        × (check_in_good ci.status ≡ true)
        × (is_unknown gti.selected_target ≡ false)
        × ((r.force_downgrade ≡ true)
            ⊎ (int_ltb gti.selected_target.version (get_current s2).version ≡ false))
  unfolding pull_and_install_command
  pull_and_install_command_gates A installed L r s changed = ground (
    arith,
    check_in_by_same A installed L r.check_mode r.source s,
    L.select_same (check_in_by K r.check_mode r.source s).0 r.version r.target_name true true
        (is_some r.source) r.auto_downgrade (check_in_by K r.check_mode r.source s).1,
  )

  -- `finalize` succeeds exactly if an installation was pending and the client finalized it with a
  -- result that the command line calls successful. If the client did not finalize a pending
  -- installation, the code is one of those of a rollback, or the unknown error.
  pub complete_install_command_outcome :
      (s : State)
      → ((is_success_code (complete_install_command K s).0 ≡ true) ↔ (
          (is_installation_in_progress s ≡ true)
          × (install_good (complete_installation s).0.status ≡ true)
          × ((complete_installation s).0.status ≢ InstallStatus.install_rollback_ok)))
        × ((is_installation_in_progress s ≡ false)
            ⊎ (install_good (complete_installation s).0.status ≡ true)
            ⊎ IsRollbackCode (complete_install_command K s).0)
  unfolding complete_install_command is_success_code res2status_code i2s install_good
  complete_install_command_outcome s = ground arith

-- ===== src/Daemon/Loop.antt =====
-- `run_daemon` of src/daemon.cc over the client extension. The fuel counts the cycles of its loop,
-- which may go on forever.
use aktualizr_lite.Api.Installer.{AkClient, complete_installation, is_in_progress}
use aktualizr_lite.Api.Lite.{Lite}
use aktualizr_lite.ClientExt.PullAndInstall.{
  Outcome, PullArgs, pull_and_install, reboot_if_required,
}
use aktualizr_lite.ClientExt.TargetToInstall.{SelectArgs, get_target_to_install}
use aktualizr_lite.Results.{
  CheckInResult, InstallMode, InstallStatus, SelectResult, SelectStatus, check_in_good,
}
use aktualizr_lite.Target.{is_unknown}
use aktualizr_lite.Api.CheckIn.{CheckInEnv, check_in}
use aktualizr_lite.Prelude.{
  Bool, String, false, if◌then◌else◌, is_empty, negsuc, none, not, suc, true, zero, ℕ,
}

-- How the daemon ends: the exit codes, an exception, or not within the fuel.
pub data DaemonEnd : Type 0 where
  exit_success exit_failure exited_by_exception still_running : DaemonEnd

-- What the daemon reads of the configuration and of its arguments.
pub record DaemonConfig : Type 0 where
  pub repo_server : String
  pub is_reboot_executable : Bool
  pub return_on_sleep : Bool
  pub auto_downgrade : Bool

-- The arguments of `GetTargetToInstall` and `PullAndInstall` in a cycle.
abbrev pub cycle_args : Bool → SelectArgs
cycle_args auto_downgrade = record {
  version = negsuc 0;
  target_name = "";
  allow_bad_target = false;
  force_apps_sync = false;
  is_offline_mode = false;
  auto_downgrade = auto_downgrade;
}

abbrev is_new : SelectStatus → Bool
is_new SelectStatus.update_new_version = true
is_new _ = false

abbrev pub cycle_pull : SelectResult → PullArgs
cycle_pull gti = record {
  reason = gti.reason;
  correlation_id = "";
  install_mode = InstallMode.all;
  source = none;
  do_download = true;
  do_install = true;
  require_target_in_tuf = is_new gti.status;
}

abbrev needs_completion : InstallStatus → Bool
needs_completion InstallStatus.needs_completion = true
needs_completion _ = false

-- How a cycle ends: the loop goes on, a reboot is required, or an exception was thrown.
pub data CycleEnd : Type 0 where
  goes_on reboots throws : CycleEnd

abbrev pub end_of : Outcome → Bool → CycleEnd
end_of (Outcome.returned r) reboot = if reboot then CycleEnd.reboots else CycleEnd.goes_on
end_of (Outcome.threw e) reboot = CycleEnd.throws

module _ (L : Lite) (E : CheckInEnv L.State) (cfg : DaemonConfig) where
  -- The check-in of a cycle and the selection that follows a good one.
  unfoldable pub check_in_cycle : AkClient L.State → CheckInResult × AkClient L.State
  unfolding check_in
  check_in_cycle c = let (ci, s) = check_in E c.lite in (ci, record c { lite = s })

  unfoldable pub select_cycle : CheckInResult → AkClient L.State → SelectResult × AkClient L.State
  unfolding get_target_to_install
  select_cycle ci c = get_target_to_install L ci (cycle_args cfg.auto_downgrade) c

  -- The installation of what a cycle has selected.
  unfoldable pub install_cycle : SelectResult → AkClient L.State → CycleEnd × AkClient L.State
  unfolding pull_and_install reboot_if_required
  install_cycle gti c =
      let (outcome, c') = pull_and_install L gti.selected_target (cycle_pull gti) c in
      (end_of outcome (reboot_if_required L c').0, c')

  -- The body of the loop.
  unfoldable pub run_cycle : AkClient L.State → CycleEnd × AkClient L.State
  unfolding check_in_cycle select_cycle install_cycle
  run_cycle c =
      let (ci, c1) = check_in_cycle c in
      let (gti, c2) = select_cycle ci c1 in
      if not (check_in_good ci.status)
      then (CycleEnd.goes_on, c1)
      else if is_unknown gti.selected_target
      then (CycleEnd.goes_on, c2)
      else install_cycle gti c2

  -- What follows a cycle, given what the rest of the loop would give.
  unfoldable pub after_cycle :
      CycleEnd → AkClient L.State → DaemonEnd × AkClient L.State → DaemonEnd × AkClient L.State
  after_cycle CycleEnd.goes_on c rest =
      if cfg.return_on_sleep then (DaemonEnd.exit_success, c) else rest
  after_cycle CycleEnd.reboots c rest = (DaemonEnd.exit_success, c)
  after_cycle CycleEnd.throws c rest = (DaemonEnd.exited_by_exception, c)

  -- The loop.
  unfoldable pub run_cycles : ℕ → AkClient L.State → DaemonEnd × AkClient L.State
  unfolding run_cycle after_cycle
  run_cycles zero c = (DaemonEnd.still_running, c)
  run_cycles (suc n) c =
      let (cycle_end, c') = run_cycle c in after_cycle cycle_end c' (run_cycles n c')

  -- `run_daemon`
  unfoldable pub run_daemon : ℕ → AkClient L.State → DaemonEnd × AkClient L.State
  unfolding run_cycles is_in_progress complete_installation
  run_daemon fuel c =
      let (res, c') = complete_installation L c in
      if is_empty cfg.repo_server
      then (DaemonEnd.exit_failure, c)
      else if not cfg.is_reboot_executable
      then (DaemonEnd.exit_failure, c)
      else if is_in_progress L c
      then if needs_completion res.status then (DaemonEnd.exit_failure, c') else run_cycles fuel c'
      else run_cycles fuel c

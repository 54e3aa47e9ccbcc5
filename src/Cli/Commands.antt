-- ===== src/Cli/Commands.antt =====
-- `CheckIn`, `Pull`, `Install`, `CompleteInstall` and `Rollback` of src/cli/cli.cc. A command returns
-- its status code and the client's state.
use aktualizr_lite.Prelude.{
  Bool, Option, String, false, if◌then◌else◌, int_eq, int_ltb, nat_eq, no_version, none, not, some,
  string_eq, true, ℤ, ◌&&◌, ◌==◌,
}
use aktualizr_lite.Results.{
  CheckInResult, InstallMode, InstallStatus, LocalUpdateSource, SelectResult, SelectStatus,
  check_in_good, install_good, select_good,
}
use aktualizr_lite.Target.{TufTarget, is_unknown}
use aktualizr_lite.Cli.Codes.{StatusCode, c2s, i2s, res2status_code, t2s}
use aktualizr_lite.Cli.Client.{Client}

pub data PullMode : Type 0 where
  all no_pull : PullMode

pub data CheckMode : Type 0 where
  update current : CheckMode

-- The arguments of `pullAndInstall`.
pub record Request : Type 0 where
  pub version : ℤ
  pub target_name : String
  pub install_mode : InstallMode
  pub force_downgrade : Bool
  pub source : Option LocalUpdateSource
  pub pull_mode : PullMode
  pub do_install : Bool
  pub check_mode : CheckMode
  pub auto_downgrade : Bool

abbrev pub is_some : Option LocalUpdateSource → Bool
is_some none = false
is_some (some _) = true

abbrev is_pull_all : PullMode → Bool
is_pull_all PullMode.all = true
is_pull_all PullMode.no_pull = false

abbrev pub is_new_version : SelectStatus → Bool
is_new_version SelectStatus.update_new_version = true
is_new_version _ = false

module _ (K : Client) where
  open K use {
    State, Context, is_installation_in_progress, get_pending_target, get_current,
    get_rollback_target, installer, check_in, check_in_local, check_in_current,
    get_target_to_install, pull_and_install, complete_installation, check_apps_in_sync, install,
  }

  -- The static `checkIn`.
  unfoldable pub check_in_by : CheckMode → Option LocalUpdateSource → State → CheckInResult × State
  check_in_by CheckMode.update none s = check_in s
  check_in_by CheckMode.update (some src) s = check_in_local src s
  check_in_by CheckMode.current src s = check_in_current src s

  -- `CheckIn`; `auto_downgrade` is the build's AKLITE_AUTO_DOWNGRADE_DEFAULT.
  unfoldable pub check_in_command :
      Bool → Option LocalUpdateSource → CheckMode → State → StatusCode × State
  unfolding check_in_by
  check_in_command auto_downgrade src mode s =
      let (cr, s1) = check_in_by mode src s in
      let (gti, s2) = get_target_to_install cr no_version "" false false false auto_downgrade s1 in
      if not (check_in_good cr.status)
      then (res2status_code c2s cr.status, s1)
      else if select_good gti.status && is_unknown gti.selected_target
      then (res2status_code c2s cr.status, s2)
      else (res2status_code t2s gti.status, s2)

  -- The call of `PullAndInstall`, and its status code.
  unfoldable pub run_install : Request → SelectResult → State → StatusCode × State
  run_install r gti s =
      let (res, s') =
        pull_and_install gti.selected_target gti.reason "" r.install_mode r.source
          (is_pull_all r.pull_mode) r.do_install (is_new_version gti.status) s in
      (res2status_code i2s res.status, s')

  -- What follows `GetTargetToInstall`.
  unfoldable pub install_selected : Request → SelectResult → State → StatusCode × State
  unfolding run_install
  install_selected r gti s =
      if is_unknown gti.selected_target
      then (res2status_code t2s gti.status, s)
      else if int_ltb gti.selected_target.version (get_current s).version && not r.force_downgrade
      then (StatusCode.install_downgrade_attempt, s)
      else run_install r gti s

  -- `pullAndInstall`.
  unfoldable pub pull_and_install_command : Request → State → StatusCode × State
  unfolding check_in_by install_selected
  pull_and_install_command r s =
      let (ci, s1) = check_in_by r.check_mode r.source s in
      let (gti, s2) =
        get_target_to_install ci r.version r.target_name true true (is_some r.source)
          r.auto_downgrade s1 in
      if is_installation_in_progress s
      then (StatusCode.installation_in_progress, s)
      else if not (check_in_good ci.status)
      then (res2status_code c2s ci.status, s1)
      else install_selected r gti s2

  -- `Pull` and `Install`.
  unfoldable pub pull_command :
      ℤ → String → Bool → Option LocalUpdateSource → CheckMode → Bool → State → StatusCode × State
  unfolding pull_and_install_command
  pull_command version name force src mode auto_downgrade = pull_and_install_command (record {
    version = version;
    target_name = name;
    install_mode = InstallMode.all;
    force_downgrade = force;
    source = src;
    pull_mode = PullMode.all;
    do_install = false;
    check_mode = mode;
    auto_downgrade = auto_downgrade;
  })

  unfoldable pub install_command :
      ℤ
      → String
      → InstallMode
      → Bool
      → Option LocalUpdateSource
      → PullMode
      → CheckMode
      → Bool
      → State
      → StatusCode × State
  unfolding pull_and_install_command
  install_command version name install_mode force src pull_mode mode auto_downgrade =
      pull_and_install_command (record {
        version = version;
        target_name = name;
        install_mode = install_mode;
        force_downgrade = force;
        source = src;
        pull_mode = pull_mode;
        do_install = true;
        check_mode = mode;
        auto_downgrade = auto_downgrade;
      })

  abbrev is_ok_status : InstallStatus → Bool
  is_ok_status InstallStatus.ok = true
  is_ok_status _ = false

  -- The rollback that the bootloader made: the apps are synced, if they have to be.
  sync_after_rollback : Option Context × State → StatusCode × State
  sync_after_rollback (none, s) = (StatusCode.install_rollback_ok, s)
  sync_after_rollback (some ri, s) =
      let (rir, s') = install ri s in
      (
        if is_ok_status rir.status
            then StatusCode.install_rollback_ok
            else StatusCode.install_rollback_failed,
        s',
      )

  rollback_code : InstallStatus → StatusCode
  rollback_code InstallStatus.needs_completion = StatusCode.install_rollback_needs_reboot
  rollback_code InstallStatus.ok = StatusCode.install_rollback_ok
  rollback_code _ = StatusCode.install_rollback_failed

  -- The rollback that the apps drive: the rollback target is installed.
  install_rollback : Option Context × State → StatusCode × State
  unfolding rollback_code
  install_rollback (none, s) = (StatusCode.unknown_error, s)
  install_rollback (some ri, s) = let (rir, s') = install ri s in (rollback_code rir.status, s')

  -- What `CompleteInstall` does after a finalization that failed.
  recover : TufTarget → State → StatusCode × State
  unfolding sync_after_rollback install_rollback
  recover pending s =
      if not ((get_current s).sha256 == pending.sha256)
      then sync_after_rollback (check_apps_in_sync s)
      else if is_unknown (get_rollback_target s)
      then (StatusCode.install_rollback_failed, s)
      else install_rollback (installer (get_rollback_target s) s)

  -- `CompleteInstall`.
  unfoldable pub complete_install_command : State → StatusCode × State
  unfolding recover
  complete_install_command s =
      let (ir, s') = complete_installation s in
      if not (is_installation_in_progress s)
      then (StatusCode.no_pending_installation, s)
      else if install_good ir.status
      then (res2status_code i2s ir.status, s')
      else recover (get_pending_target s) s'

  -- `Rollback`.
  unfoldable pub rollback_command : Option LocalUpdateSource → State → StatusCode × State
  rollback_command src s = let (res, s') = K.rollback src s in (res2status_code i2s res.status, s')

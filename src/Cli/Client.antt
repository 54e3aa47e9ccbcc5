-- ===== src/Cli/Client.antt =====
-- The operations of `AkliteClientExt` and `AkliteClient` that the commands call, over a state that
-- stands for the client and the device. An exception that an operation throws ends the command.
use aktualizr_lite.Prelude.{Bool, Option, String, ℤ}
use aktualizr_lite.Results.{
  CheckInResult, InstallMode, InstallResult, LocalUpdateSource, SelectResult,
}
use aktualizr_lite.Target.{TufTarget}

pub record Client : Type 1 where
  pub State : Type 0
  -- `InstallContext`
  pub Context : Type 0
  pub is_installation_in_progress : State → Bool
  pub get_pending_target : State → TufTarget
  pub get_current : State → TufTarget
  -- `GetRollbackTarget()` and `Installer(target)`, with their default arguments.
  pub get_rollback_target : State → TufTarget
  pub installer : TufTarget → State → Option Context × State
  pub check_in : State → CheckInResult × State
  pub check_in_local : LocalUpdateSource → State → CheckInResult × State
  pub check_in_current : Option LocalUpdateSource → State → CheckInResult × State
  -- version, target name, allow_bad_target, force_apps_sync, offline_mode, auto_downgrade
  pub get_target_to_install :
      CheckInResult → ℤ → String → Bool → Bool → Bool → Bool → State → SelectResult × State
  -- target, reason, correlation id, mode, source, do_download, do_install, require_target_in_tuf
  pub pull_and_install :
      TufTarget
      → String
      → String
      → InstallMode
      → Option LocalUpdateSource
      → Bool
      → Bool
      → Bool
      → State
      → InstallResult × State
  pub complete_installation : State → InstallResult × State
  pub check_apps_in_sync : State → Option Context × State
  pub install : Context → State → InstallResult × State
  pub rollback : Option LocalUpdateSource → State → InstallResult × State

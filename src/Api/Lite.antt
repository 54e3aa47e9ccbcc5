-- ===== src/Api/Lite.antt =====
-- The operations of `LiteClient` (src/liteclient.cc) and of the TUF repository that the API calls,
-- over a state that stands for them and the device.
use aktualizr_lite.Prelude.{Bool, List, Option, String, ℕ}
use aktualizr_lite.Results.{
  DownloadResult, InstallMode, InstallationResult, LocalUpdateSource, ResultCode,
}
use aktualizr_lite.Results.Usage.{UsageInfo}
use aktualizr_lite.Target.{TufTarget, UptaneTarget}

-- libaktualizr's `InstalledVersionUpdateMode`, as far as the code names it.
pub data SaveMode : Type 0 where
  none_mode current_mode pending_mode bad_target_mode : SaveMode

pub record Lite : Type 1 where
  pub State : Type 0
  pub get_current : State → UptaneTarget
  -- `none` is `Uptane::Target::Unknown()`.
  pub get_pending_target : State → Option UptaneTarget
  pub get_rollback_target : Bool → State → Option UptaneTarget
  pub is_rollback : UptaneTarget → State → Bool
  pub was_target_installed : UptaneTarget → State → Bool
  pub is_boot_fw_update_in_progress : State → Bool
  -- `isRebootRequired`: the flag and the reboot command.
  pub is_reboot_required : State → Bool × String
  -- Whether `VerifyTarget` gives `TargetStatus::kGood`.
  pub verify_target : UptaneTarget → State → Bool
  -- `ComposeAppManager::getRequiredApps` for the configuration of the client.
  pub required_apps : UptaneTarget → List (String × String)
  pub set_apps_not_checked : State → State
  pub apps_to_update : UptaneTarget → Bool → State → List (String × String) × State
  pub download : UptaneTarget → String → State → DownloadResult × State
  pub install : UptaneTarget → InstallMode → State → InstallationResult × State
  pub finalize_install : State → InstallationResult × State
  -- `InstallationResult::needCompletion`
  pub need_completion : ResultCode → Bool
  pub notify_tuf_update_finished : String → Option UptaneTarget → State → State
  pub notify_download_started : UptaneTarget → String → State → State
  pub notify_download_finished : UptaneTarget → Bool → String → State → State
  pub notify_install_finished : UptaneTarget → InstallationResult → State → State
  -- `INvStorage::saveInstalledVersion`
  pub save_installed_version : UptaneTarget → SaveMode → State → State
  -- `Repo::CheckMeta`, with the text of its exception, and `Repo::GetTargets`.
  pub check_meta : State → Option String
  pub tuf_targets : State → List TufTarget
  -- `Volume::getUsageInfo` of a path, a percentage and who reserves it.
  pub usage_info : String → ℕ → String → State → UsageInfo
  -- `UsageInfo::str`
  pub usage_text : UsageInfo → String
  -- The download of an offline update: `createOfflineDownloader()->Download`.
  pub offline_download : LocalUpdateSource → UptaneTarget → State → DownloadResult × State
  -- Whether `LocalLiteInstall` can be made: its constructor throws otherwise.
  pub offline_allowed : Bool
  -- Whether `setuid(0)` succeeds.
  pub can_setuid : Bool
  -- A random UUID.
  pub fresh_uuid : State → String × State

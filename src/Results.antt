-- ===== src/Results.antt =====
-- The result types of include/aktualizr-lite/api.h and include/aktualizr-lite/aklite_client_ext.h,
-- the app engine's result (src/appengine.h), and the part of libaktualizr's `InstallationResult`
-- that the code reads. Enumerators keep their names.
pub mod Usage
pub mod UsageLaws
use aktualizr_lite.Prelude.{Bool, List, String, false, true}
use aktualizr_lite.Target.{TufTarget}
use Usage.{UsageInfo}

pub data CheckInStatus : Type 0 where
  ok ok_cached failed no_matching_targets no_target_content security_error expired_metadata
        metadata_fetch_failure metadata_not_found bundle_metadata_error :
      CheckInStatus

-- `CheckInResult::operator bool`.
unfoldable pub check_in_good : CheckInStatus → Bool
check_in_good CheckInStatus.ok = true
check_in_good CheckInStatus.ok_cached = true
check_in_good _ = false

pub data DownloadStatus : Type 0 where
  ok download_failed verification_failed download_failed_no_space : DownloadStatus

pub record DownloadResult : Type 0 where
  pub status : DownloadStatus
  pub description : String
  pub destination_path : String
  pub stat : UsageInfo

-- `DownloadResult::operator bool` and `noSpace`.
unfoldable pub download_good : DownloadStatus → Bool
download_good DownloadStatus.ok = true
download_good _ = false

unfoldable pub no_space : DownloadStatus → Bool
no_space DownloadStatus.download_failed_no_space = true
no_space _ = false

pub data InstallStatus : Type 0 where
  ok ok_boot_fw_needs_completion needs_completion apps_need_completion boot_fw_needs_completion
        failed download_failed download_ostree_failed verification_failed download_failed_no_space
        installation_in_progress install_rollback_failed install_rollback_ok unknown_error :
      InstallStatus

pub record InstallResult : Type 0 where
  pub status : InstallStatus
  pub description : String

-- `InstallResult::operator bool`.
unfoldable pub install_good : InstallStatus → Bool
install_good InstallStatus.ok = true
install_good InstallStatus.ok_boot_fw_needs_completion = true
install_good InstallStatus.needs_completion = true
install_good InstallStatus.apps_need_completion = true
install_good InstallStatus.install_rollback_ok = true
install_good _ = false

pub data InstallMode : Type 0 where
  all ostree_only : InstallMode

pub record LocalUpdateSource : Type 0 where
  pub tuf_repo : String
  pub ostree_repo : String
  pub app_store : String

-- The numeric codes of libaktualizr's `data::ResultCode` that the code names.
pub data ResultCode : Type 0 where
  ok need_completion install_failed download_failed verification_failed custom_error unknown :
      ResultCode

pub record InstallationResult : Type 0 where
  pub code : ResultCode
  pub description : String

pub data SelectStatus : Type 0 where
  tuf_target_not_found target_already_installed rollback_target_not_found bad_rollback_target
        bad_checkin_status no_update update_new_version update_sync_apps update_rollback :
      SelectStatus

-- `GetTargetToInstallResult::operator bool`.
unfoldable pub select_good : SelectStatus → Bool
select_good SelectStatus.no_update = true
select_good SelectStatus.update_new_version = true
select_good SelectStatus.update_sync_apps = true
select_good SelectStatus.update_rollback = true
select_good _ = false

-- `CheckInResult`.
pub record CheckInResult : Type 0 where
  pub status : CheckInStatus
  pub primary_hwid : String
  pub targets : List TufTarget

-- `GetTargetToInstallResult`.
pub record SelectResult : Type 0 where
  pub status : SelectStatus
  pub selected_target : TufTarget
  pub reason : String

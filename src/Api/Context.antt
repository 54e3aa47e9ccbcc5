-- ===== src/Api/Context.antt =====
-- `LiteInstall` and `LocalLiteInstall` of src/api.cc: what an `InstallContext` downloads and
-- installs. Logs are left out.
use aktualizr_lite.Api.Lite.{Lite}
use aktualizr_lite.Prelude.{
  Bool, List, String, if◌then◌else◌, int_eq, is_empty, is_nil, nat_eq, none, not, some, string_eq,
  ◌<>◌, ◌==◌,
}
use aktualizr_lite.Results.Usage.{failed_usage}
use aktualizr_lite.Target.{UptaneTarget}
use aktualizr_lite.Results.{
  DownloadResult, DownloadStatus, InstallMode, InstallResult, InstallStatus, InstallationResult,
  LocalUpdateSource, ResultCode, download_good,
}

pub data Context : Type 0 where
  lite_install : UptaneTarget → String → InstallMode → Context
  local_lite_install : UptaneTarget → String → InstallMode → LocalUpdateSource → Context

-- The target's custom data with the list of the apps that are considered for the update.
unfoldable pub with_install_context : List (String × String) → UptaneTarget → UptaneTarget
with_install_context apps t =
    if is_nil apps
    then t
    else record t { custom = record (t.custom) { install_context = some apps } }

module _ (L : Lite) where
  open L use {
    State, get_current, get_pending_target, verify_target, required_apps, download, install,
  }

  -- `LiteClient::isPendingTarget`, with the empty hash of the unknown target.
  unfoldable pub is_pending_target : UptaneTarget → State → Bool
  is_pending_target t s = elim (get_pending_target s) [
    | none ↦ t.sha256 == ""
    | some p ↦ t.sha256 == p.sha256
  ]

  -- The status for a result code, in the state after the installation.
  unfoldable pub install_status : UptaneTarget → State → ResultCode → InstallStatus
  unfolding is_pending_target
  install_status t s ResultCode.need_completion =
      if is_pending_target t s
      then (if (get_current s).sha256 == t.sha256
          then InstallStatus.apps_need_completion
          else InstallStatus.needs_completion)
      else InstallStatus.boot_fw_needs_completion
  install_status t s ResultCode.ok = InstallStatus.ok
  install_status t s ResultCode.download_failed = InstallStatus.download_failed
  install_status t s _ = InstallStatus.failed

  -- `LiteInstall::Install`.
  unfoldable pub install_target : UptaneTarget → InstallMode → State → InstallResult × State
  unfolding with_install_context install_status
  install_target t mode s =
      let t' = with_install_context (required_apps t) t in
      let (iresult, s') = install t' mode s in
      if not (verify_target t s)
      then (
        record {
          status = InstallStatus.download_failed;
          description = "Target verification failed, it may not have been pulled";
        },
        s,
      )
      else (
        record { status = install_status t' s' iresult.code; description = iresult.description },
        s',
      )

  abbrev download_reason : String → UptaneTarget → String
  download_reason reason t = if is_empty reason then "Update to " <> t.filename else reason

  -- `LiteInstall::Download`.
  unfoldable pub download_target : UptaneTarget → String → State → DownloadResult × State
  download_target t reason s =
      let (res, s1) = download t (download_reason reason t) s in
      let ires : InstallationResult = record {
        code = ResultCode.verification_failed;
        description = "Downloaded target is invalid";
      } in
      if not (download_good res.status)
      then (res, s1)
      else if not (verify_target t s1)
      then (
        record {
          status = DownloadStatus.verification_failed;
          description = ires.description;
          destination_path = "";
          stat = failed_usage "";
        },
        L.notify_install_finished t ires s1,
      )
      else (
        record {
          status = DownloadStatus.ok;
          description = "";
          destination_path = "";
          stat = failed_usage "";
        },
        s1,
      )

  -- `LocalLiteInstall::Download`.
  unfoldable pub download_local :
      LocalUpdateSource → UptaneTarget → String → State → DownloadResult × State
  download_local src t reason s =
      let s1 = L.notify_download_started t (download_reason reason t) s in
      let (dr, s2) = L.offline_download src t s1 in
      let s3 = L.notify_download_finished t (download_good dr.status) dr.description s2 in
      (record dr { stat = failed_usage "" }, s3)

  -- `InstallContext::Download` and `Install`, by the class of the context.
  unfoldable pub download_by : Context → State → DownloadResult × State
  unfolding download_target download_local
  download_by (lite_install t reason mode) s = download_target t reason s
  download_by (local_lite_install t reason mode src) s = download_local src t reason s

  unfoldable pub install_by : Context → State → InstallResult × State
  unfolding install_target
  install_by (lite_install t reason mode) s = install_target t mode s
  install_by (local_lite_install t reason mode src) s = install_target t mode s

-- ===== src/Updates/Steps.antt =====
-- `downloadImage`, `install`, `finalizePendingUpdate` and `finalizeInstall` of src/liteclient.cc.
use aktualizr_lite.Results.Usage.{failed_usage}
use aktualizr_lite.Target.{UptaneTarget}
use aktualizr_lite.Prelude.{
  Bool, false, if◌then◌else◌, int_eq, nat_eq, none, not, some, string_eq, suc, true, zero, ℕ, ◌&&◌,
  ◌==◌, ◌||◌,
}
use aktualizr_lite.Updates.Log.{Platform}
use aktualizr_lite.Api.Lite.{SaveMode}
use aktualizr_lite.Results.{
  DownloadResult, DownloadStatus, InstallMode, InstallationResult, ResultCode, download_good,
  no_space,
}

-- A client over the state of its platform, with `is_reboot_required_`.
pub record Updater (S : Type 0) : Type 0 where
  pub platform : S
  pub is_reboot_required : Bool

abbrev pub max_tries : ℕ
max_tries = 3

abbrev pub failed_download : DownloadResult
failed_download = record {
  status = DownloadStatus.download_failed;
  description = "";
  destination_path = "";
  stat = failed_usage "";
}

abbrev to_finalize : InstallationResult
to_finalize = record {
  code = ResultCode.need_completion;
  description = "finalization must be called to install and start Apps";
}

-- The codes with which the boot was rolled back, or the apps did not start.
unfoldable pub is_update_failure : ResultCode → Bool
is_update_failure ResultCode.install_failed = true
is_update_failure ResultCode.custom_error = true
is_update_failure _ = false

module _ (P : Platform) where
  open P use {State}

  -- Whether another attempt follows the result of a download.
  unfoldable pub is_retried : DownloadResult → State → Bool
  is_retried r s = not (download_good r.status || no_space r.status) && P.can_continue s

  -- The loop of `downloadImage`, with the attempts that are left. The pauses are left out.
  unfoldable pub download_tries : ℕ → UptaneTarget → DownloadResult → State → DownloadResult × State
  unfolding is_retried
  download_tries zero t res s = (res, s)
  download_tries (suc n) t res s =
      let (r, s') = P.download t s in
      let rest = download_tries n t r s' in if is_retried r s' then rest else (r, s')

  -- `downloadImage`
  unfoldable pub download_image : UptaneTarget → State → DownloadResult × State
  unfolding download_tries
  download_image t s = download_tries max_tries t failed_download (P.load_keys s)

  -- What `install` records, by the code of the installation.
  unfoldable pub record_install :
      UptaneTarget
      → InstallMode
      → InstallationResult
      → Updater State
      → InstallationResult × Updater State
  record_install t mode ir c = elim ir.code [
    | ResultCode.need_completion ↦ (
      ir,
      record {
        platform =
            if t.sha256 == P.pending_hash c.platform
            then P.save t SaveMode.pending_mode c.platform
            else c.platform;
        is_reboot_required = true;
      },
    )
    | ResultCode.ok ↦ elim mode [
      | InstallMode.ostree_only ↦
          (to_finalize, record c { platform = P.save t SaveMode.pending_mode c.platform })
      | InstallMode.all ↦ (
        ir,
        record c {
          platform =
              P.update_headers (P.write_current t (P.save t SaveMode.current_mode c.platform));
        },
      )
    ]
    | ResultCode.download_failed ↦ (ir, c)
    | _ ↦ (ir, record c { platform = P.save t SaveMode.none_mode c.platform })
  ]

  -- `install`
  unfoldable pub install_update :
      UptaneTarget → InstallMode → Updater State → InstallationResult × Updater State
  unfolding record_install
  install_update t mode c =
      let (ir, s) = P.install t mode (P.notify_install_started t c.platform) in
      let (ir', c') = record_install t mode ir (record c { platform = s }) in
      (ir', record c' { platform = P.notify_install_finished t ir' c'.platform })

  -- `finalizePendingUpdate`
  unfoldable pub finalize_pending : UptaneTarget → State → InstallationResult × State
  unfolding is_update_failure
  finalize_pending t s =
      let (ir, s') = P.finalize t s in
      (
        ir,
        if P.is_success ir.code
            then P.save t SaveMode.current_mode s'
            else if is_update_failure ir.code
            then P.save t SaveMode.none_mode s'
            else s',
      )

  -- `writeCurrentTarget(getCurrent())` and `updateRequestHeaders()`.
  unfoldable pub publish : State → State
  publish s = P.update_headers (P.write_current (P.current s) s)

  -- `finalizeInstall`
  unfoldable pub finalize_update : State → InstallationResult × State
  unfolding finalize_pending publish
  finalize_update s = elim (P.pending s) [
    | none ↦ (record { code = ResultCode.ok; description = "" }, publish s)
    | some t ↦
        let (ir, s1) = finalize_pending t (P.callback "install-final-pre" t s) in
        let s2 = publish s1 in
        (ir, if P.need_completion ir.code then s2 else P.notify_install_finished t ir s2)
  ]

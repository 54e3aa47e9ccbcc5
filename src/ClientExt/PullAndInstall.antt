-- ===== src/ClientExt/PullAndInstall.antt =====
-- `PullAndInstall`, `Rollback` and `RebootIfRequired` of src/aklite_client_ext.cc.
use aktualizr_lite.Api.Context.{Context, download_by, install_by}
use aktualizr_lite.Api.Installer.{
  AkClient, Made, get_current_target, installer, is_in_progress, made, no_failure, not_made,
  on_lite, thrown,
}
use aktualizr_lite.Api.Lite.{Lite, bad_target_mode, none_mode}
use aktualizr_lite.Results.Usage.{UsageInfo, is_ok, with_required}
use aktualizr_lite.Target.{
  TufTarget, UptaneTarget, from_tuf_target, is_unknown, to_tuf_or_unknown, to_tuf_target,
}
use aktualizr_lite.Prelude.{
  Bool, Option, String, false, if◌then◌else◌, int_eq, is_empty, ltb, nat_eq, none, not, some,
  string_eq, true, ◌&&◌, ◌<>◌, ◌==◌,
}
use aktualizr_lite.Results.{
  DownloadStatus, InstallMode, InstallResult, InstallStatus, InstallationResult, LocalUpdateSource,
  ResultCode, download_good, install_good, no_space,
}

-- What a call gives back that may throw.
pub data Outcome : Type 0 where
  returned : InstallResult → Outcome
  threw : String → Outcome

-- `dr2ir`
unfoldable pub dr2ir : DownloadStatus → InstallStatus
dr2ir DownloadStatus.ok = InstallStatus.ok
dr2ir DownloadStatus.download_failed = InstallStatus.download_ostree_failed
dr2ir DownloadStatus.verification_failed = InstallStatus.verification_failed
dr2ir DownloadStatus.download_failed_no_space = InstallStatus.download_failed_no_space

abbrev pub result : InstallStatus → String → Outcome
result status description = returned (record { status = status; description = description })

-- The arguments of `PullAndInstall` after the target.
pub record PullArgs : Type 0 where
  pub reason : String
  pub correlation_id : String
  pub install_mode : InstallMode
  pub source : Option LocalUpdateSource
  pub do_download : Bool
  pub do_install : Bool
  pub require_target_in_tuf : Bool

abbrev is_failed : InstallStatus → Bool
is_failed InstallStatus.failed = true
is_failed _ = false

-- The result of the rollback's installation.
abbrev rollback_result : InstallResult → Outcome
rollback_result ir = elim ir.status [
  | InstallStatus.ok ↦ result InstallStatus.install_rollback_ok ir.description
  | _ ↦ result InstallStatus.install_rollback_failed ir.description
]

module _ (L : Lite) where
  -- The installation of the target that was current, after one that failed.
  unfoldable pub roll_back :
      TufTarget → String → PullArgs → AkClient L.State → Outcome × AkClient L.State
  roll_back current description args c =
      let (maker, c1) =
        installer L current description args.correlation_id InstallMode.all args.source false false
          c in
      elim maker [
        | not_made ↦ (result InstallStatus.install_rollback_failed description, c1)
        | thrown what ↦ (threw what, c1)
        | made context ↦
            let (ir, s) = install_by L context c1.lite in
            (rollback_result ir, record c1 { lite = s })
      ]

  -- `installer->Install()` and what follows it.
  unfoldable pub install_phase :
      TufTarget → PullArgs → Context → AkClient L.State → Outcome × AkClient L.State
  install_phase current args context c =
      let (ir, s) = install_by L context c.lite in
      let rolled = roll_back current ir.description args (record c { lite = s }) in
      if not (install_good ir.status) && is_failed ir.status
      then rolled
      else (returned ir, record c { lite = s })

  -- `installer->Download()` and what follows it.
  unfoldable pub download_phase :
      TufTarget → TufTarget → PullArgs → Context → AkClient L.State → Outcome × AkClient L.State
  download_phase current t args context c =
      let (dr, s) = download_by L context c.lite in
      let c1 = record c { lite = s } in
      if not args.do_download
      then install_phase current args context c
      else if not (download_good dr.status)
      then (
        result (dr2ir dr.status) dr.description,
        if no_space dr.status
            then record c1 {
              download_failed = record {
                ostree_commit_hash = t.sha256;
                cor_id = args.correlation_id;
                stat = dr.stat;
              };
            }
            else c1,
      )
      else if not args.do_install
      then (result (dr2ir dr.status) dr.description, c1)
      else install_phase current args context c1

  -- What follows the call of `Installer`.
  unfoldable pub carry_out :
      TufTarget
      → TufTarget
      → PullArgs
      → Made Context
      → AkClient L.State
      → Outcome × AkClient L.State
  carry_out current t args not_made c = (result InstallStatus.unknown_error "", c)
  carry_out current t args (thrown what) c = (threw what, c)
  carry_out current t args (made context) c = download_phase current t args context c

  -- The usage of the volume on which an earlier download had no space.
  abbrev usage_now : AkClient L.State → UsageInfo
  usage_now c =
      let stat = c.download_failed.stat in
      L.usage_info stat.path stat.reserved_percentage stat.reserved_by c.lite

  -- Whether an earlier download of the same commit had no space and the space is still missing.
  unfoldable pub still_no_space : TufTarget → AkClient L.State → Bool
  still_no_space t c =
      let stat = c.download_failed.stat in
      ltb 0 stat.required
      && is_ok stat
      && t.sha256 == c.download_failed.ostree_commit_hash
      && (is_ok (usage_now c) && ltb (usage_now c).available stat.required)

  abbrev pub no_space_message : TufTarget → AkClient L.State → String
  no_space_message t c =
      "Insufficient storage available at "
      <> (c.download_failed.stat.path
          <> (" to download Target: "
              <> (t.name
                  <> (", "
                      <> (L.usage_text (with_required c.download_failed.stat.required (usage_now c))
                          <> " (cached status)")))))

  -- `PullAndInstall`
  unfoldable pub pull_and_install :
      TufTarget → PullArgs → AkClient L.State → Outcome × AkClient L.State
  pull_and_install t args c =
      let event_target = record (from_tuf_target t) { correlation_id = c.download_failed.cor_id } in
      let (maker, c1) =
        installer L t args.reason args.correlation_id args.install_mode args.source
          args.require_target_in_tuf true (record c { download_failed = no_failure }) in
      let rest = carry_out (get_current_target L c) t args maker c1 in
      if is_in_progress L c
      then (result InstallStatus.installation_in_progress "", c)
      else if still_no_space t c
      then (
        result InstallStatus.download_failed_no_space (no_space_message t c),
        on_lite L (L.notify_download_finished event_target false (no_space_message t c)) c,
      )
      else rest

  abbrev rollback_reason : TufTarget → TufTarget → String
  rollback_reason bad target =
      "User initiated rollback. Marked "
      <> (bad.name <> (" as a failing target, and rolling back to " <> target.name))

  -- The arguments of the `PullAndInstall` of a rollback.
  abbrev rollback_args : String → Option LocalUpdateSource → Bool → PullArgs
  rollback_args reason src fetch = record {
    reason = reason;
    correlation_id = "";
    install_mode = InstallMode.all;
    source = src;
    do_download = fetch;
    do_install = true;
    require_target_in_tuf = fetch;
  }

  -- `Rollback`, with no installation in progress and with one.
  unfoldable pub rollback_of :
      Option UptaneTarget → Option LocalUpdateSource → AkClient L.State → Outcome × AkClient L.State
  rollback_of none src c =
      let bad = get_current_target L c in
      let c1 = on_lite L (L.save_installed_version (from_tuf_target bad) bad_target_mode) c in
      let target = to_tuf_or_unknown (L.get_rollback_target false c1.lite) in
      if is_unknown target
      then (result InstallStatus.failed "", c1)
      else pull_and_install target (rollback_args (rollback_reason bad target) src true) c1
  rollback_of (some pending) src c =
      let bad = to_tuf_target pending in
      let c1 = on_lite L (L.save_installed_version (from_tuf_target bad) bad_target_mode) c in
      let target = to_tuf_or_unknown (L.get_rollback_target true c1.lite) in
      let c2 = on_lite L (L.save_installed_version pending none_mode) c1 in
      let failure : InstallationResult = record {
        code = ResultCode.install_failed;
        description = rollback_reason bad target;
      } in
      let c3 = on_lite L (L.notify_install_finished pending failure) c2 in
      if is_unknown target
      then (result InstallStatus.failed "", c1)
      else pull_and_install target (rollback_args (rollback_reason bad target) src false) c3

  unfoldable pub rollback : Option LocalUpdateSource → AkClient L.State → Outcome × AkClient L.State
  rollback src c = rollback_of (L.get_pending_target c.lite) src c

  -- `RebootIfRequired`: whether to stop, and the reboot command that is run, if any.
  unfoldable pub reboot_if_required : AkClient L.State → Bool × Option String
  reboot_if_required c =
      let (required, command) = L.is_reboot_required c.lite in
      if not required
      then (false, none)
      else if not c.is_booted_env
      then (true, none)
      else if is_empty command
      then (true, none)
      else if not L.can_setuid
      then (true, none)
      else (true, some command)

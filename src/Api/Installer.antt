-- ===== src/Api/Installer.antt =====
-- `AkliteClient` of src/api.cc and the members that `AkliteClientExt` adds: the state of a client,
-- `checkAndSetAppsForUpdate`, `CheckAppsInSync`, `Installer` and `CompleteInstallation`.
use aktualizr_lite.Api.Context.{Context, lite_install, local_lite_install}
use aktualizr_lite.Api.Lite.{Lite}
use aktualizr_lite.Results.Usage.{UsageInfo, failed_usage}
use aktualizr_lite.Target.{
  TufTarget, UptaneTarget, from_tuf_target, is_initial, no_custom, target_beq, to_tuf_target,
}
use aktualizr_lite.Prelude.{
  Bool, List, Option, String, [], any, false, if◌then◌else◌, int_eq, is_empty, is_nil, len, ltb,
  nat_eq, none, not, some, string_eq, to_string, true, ◌&&◌, ◌<>◌, ◌==◌, ◌||◌, ◌∷◌,
}
use aktualizr_lite.Results.{
  InstallMode, InstallResult, InstallStatus, LocalUpdateSource, ResultCode,
}

-- `NoSpaceDownloadState`
pub record NoSpaceState : Type 0 where
  pub ostree_commit_hash : String
  pub cor_id : String
  pub stat : UsageInfo

abbrev pub no_failure : NoSpaceState
no_failure = record { ostree_commit_hash = ""; cor_id = ""; stat = failed_usage "undefined" }

-- A client object over the state `S` of the rest. `read_only`, `invoke_post_cb_at_checkin` and
-- `is_booted_env` are set when it is made.
pub record AkClient (S : Type 0) : Type 0 where
  pub lite : S
  pub read_only : Bool
  pub invoke_post_cb_at_checkin : Bool
  pub is_booted_env : Bool
  pub cleanup_removed_apps : Bool
  -- `state_when_download_failed`
  pub download_failed : NoSpaceState

-- What a call gives back that may return `nullptr` or throw.
pub data Made (A : Type 0) : Type 0 where
  made : A → Made A
  not_made : Made A
  thrown : String → Made A

abbrev pub append_reasons : String → List (String × String) → String
append_reasons reason [] = reason
append_reasons reason ((app, why) ∷ apps) =
    append_reasons (reason <> (" - " <> (app <> (": " <> (why <> "\n"))))) apps

-- The reason with the apps to update.
unfoldable pub reason_with : List (String × String) → String → String
reason_with apps reason =
    if is_nil apps
    then reason
    else append_reasons (if is_empty reason then reason else reason <> "\n") apps

module _ (L : Lite) where
  open L use {State, get_current, finalize_install}

  abbrev pub on_lite : (State → State) → AkClient State → AkClient State
  on_lite f c = record c { lite = f c.lite }

  -- `GetCurrent` and `IsRollback`.
  unfoldable pub get_current_target : AkClient State → TufTarget
  get_current_target c = to_tuf_target (get_current c.lite)

  unfoldable pub is_rollback_target : AkClient State → TufTarget → Bool
  is_rollback_target c t =
      L.is_rollback
        (record (from_tuf_target t) { custom = record no_custom { target_format = "OSTREE" } })
        c.lite

  -- `IsInstallationInProgress`
  unfoldable pub is_in_progress : AkClient State → Bool
  is_in_progress c = elim (L.get_pending_target c.lite) [ none ↦ false | some _ ↦ true ]

  unfoldable pub check_and_set_apps :
      TufTarget → String → AkClient State → List (String × String) × String × AkClient State
  check_and_set_apps t reason c =
      let (apps, s) =
        L.apps_to_update (from_tuf_target t) c.cleanup_removed_apps
          (L.set_apps_not_checked c.lite) in
      (
        apps,
        reason_with apps reason,
        record c { lite = L.set_apps_not_checked s; cleanup_removed_apps = false },
      )

  -- `CheckAppsInSync`
  unfoldable pub check_apps_in_sync : AkClient State → Option Context × AkClient State
  unfolding check_and_set_apps
  check_apps_in_sync c =
      let target = get_current_target c in
      let (apps, reason, c1) = check_and_set_apps target "Sync active target apps" c in
      let (uuid, s) = L.fresh_uuid c1.lite in
      if is_nil apps then (none, c1) else (
        some (
            lite_install
              (record (from_tuf_target target) {
                correlation_id = to_string target.version <> ("-" <> uuid);
              })
              reason InstallMode.all),
        record c1 { lite = s },
      )

  -- Whether a target of the TUF repository is the given one. Of a local update the apps are not
  -- compared.
  unfoldable pub target_matches : Option LocalUpdateSource → TufTarget → TufTarget → Bool
  target_matches none t tt = target_beq tt t
  target_matches (some _) t tt =
      tt.name == t.name && tt.sha256 == t.sha256 && tt.version == t.version

  -- Whether the target may be installed: it is in the TUF repository, or was installed before and
  -- need not be there.
  unfoldable pub is_trusted : Option LocalUpdateSource → Bool → TufTarget → State → Bool
  unfolding target_matches
  is_trusted src require_in_tuf t s =
      any (target_matches src t) (L.tuf_targets s)
      || (not require_in_tuf || is_initial (from_tuf_target t))
        && L.was_target_installed (from_tuf_target t) s

  -- The correlation id of an update: the one given, or a new one.
  with_correlation_id : String → TufTarget → State → String × State
  with_correlation_id id t s =
      let (uuid, s') = L.fresh_uuid s in
      if is_empty id then (to_string t.version <> ("-" <> uuid), s') else (id, s)

  -- The last part of `Installer`: the context of the kind that the source asks for.
  make_context :
      UptaneTarget → TufTarget → String → InstallMode → Option LocalUpdateSource → Made Context
  make_context target t reason mode none = made (lite_install target reason mode)
  make_context target t reason mode (some src) =
      if not t.custom.local_src_dir
      then not_made
      else if not L.offline_allowed
      then thrown "Invalid app engine type"
      else made (local_lite_install target reason mode src)

  -- `Installer`, after the target was found to be trusted.
  prepare :
      TufTarget
      → String
      → String
      → InstallMode
      → Option LocalUpdateSource
      → Bool
      → AkClient State
      → Made Context × AkClient State
  unfolding with_correlation_id make_context
  prepare t reason correlation_id mode src are_apps_checked c =
      let (id, s) = with_correlation_id correlation_id t c.lite in
      let c1 = record c { lite = s } in
      let target = record (from_tuf_target t) { correlation_id = id } in
      let (apps, reason', c2) = check_and_set_apps (to_tuf_target target) reason c1 in
      if ltb 63 (len id)
      then (thrown "Correlation ID's must be less than 64 bytes", c1)
      else if are_apps_checked
      then (make_context target t reason mode src, c1)
      else (make_context target t reason' mode src, c2)

  -- `Installer`
  unfoldable pub installer :
      TufTarget
      → String
      → String
      → InstallMode
      → Option LocalUpdateSource
      → Bool
      → Bool
      → AkClient State
      → Made Context × AkClient State
  unfolding prepare
  installer t reason correlation_id mode src require_in_tuf are_apps_checked c =
      let rest = prepare t reason correlation_id mode src are_apps_checked c in
      if c.read_only
      then (thrown "Can't perform this operation from read-only mode", c)
      else elim (L.check_meta c.lite) [
        | some what ↦ (thrown what, c)
        | none ↦ if not (is_trusted src require_in_tuf t c.lite) then (not_made, c) else rest
      ]

  -- `CompleteInstallation`
  complete_status : ResultCode → State → InstallStatus
  complete_status ResultCode.ok s =
      if L.is_boot_fw_update_in_progress s
      then InstallStatus.ok_boot_fw_needs_completion
      else InstallStatus.ok
  complete_status code s =
      if L.need_completion code then InstallStatus.needs_completion else InstallStatus.failed

  unfoldable pub complete_installation : AkClient State → InstallResult × AkClient State
  unfolding complete_status
  complete_installation c =
      let (ir, s) = finalize_install c.lite in
      (
        record { status = complete_status ir.code s; description = ir.description },
        record c { lite = s },
      )

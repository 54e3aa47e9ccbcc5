-- ===== src/ClientExt/TargetToInstall.antt =====
-- `GetTargetToInstall` of src/aklite_client_ext.cc. Each part of the function that ends in returns
-- of its own is a definition; `finish` is the notification that precedes every return.
use aktualizr_lite.Api.Installer.{
  AkClient, check_and_set_apps, get_current_target, is_rollback_target, on_lite,
}
use aktualizr_lite.Api.Lite.{Lite}
use aktualizr_lite.Api.Select.{select_target}
use aktualizr_lite.Target.{
  TufTarget, UptaneTarget, from_tuf_target, is_unknown, to_tuf_or_unknown, unknown_target,
}
use aktualizr_lite.Prelude.{
  Bool, List, Option, String, [], false, if◌then◌else◌, int_eq, int_ltb, is_empty, is_nil, nat_eq,
  no_version, none, not, some, string_eq, true, ℤ, ◌&&◌, ◌<>◌, ◌==◌, ◌||◌, ◌∷◌,
}
use aktualizr_lite.Results.{CheckInResult, SelectResult, SelectStatus, check_in_good}

-- The arguments after the check-in result.
pub record SelectArgs : Type 0 where
  pub version : ℤ
  pub target_name : String
  pub allow_bad_target : Bool
  pub force_apps_sync : Bool
  pub is_offline_mode : Bool
  pub auto_downgrade : Bool

abbrev failed_selection : SelectStatus → String → SelectResult
failed_selection status err = record {
  status = status;
  selected_target = unknown_target;
  reason = err;
}

abbrev update_reason : Bool → String → String → String
update_reason rollback from to =
    (if rollback then "Rolling back" else "Updating") <> (" from " <> (from <> (" to " <> to)))

-- The reasons of the apps, once more, behind the reason of a sync.
abbrev sync_reason : String → List (String × String) → String
sync_reason reason [] = reason
sync_reason reason ((app, why) ∷ apps) =
    sync_reason (reason <> ("- " <> (app <> (": " <> (why <> "\n"))))) apps

abbrev no_rollback_target : TufTarget → String
no_rollback_target current =
    "Failed to find Target to rollback to after a failure to start Apps at boot on a new version of sysroot; failing current Target: "
    <> (current.name <> (", hash: " <> current.sha256))

abbrev bad_selected : TufTarget → TufTarget → String
bad_selected candidate current =
    "A bad target ("
    <> (candidate.name
        <> (") was selected for rollback of " <> (current.name <> ". This should not happen")))

module _ (L : Lite) where
  -- `notifyTufUpdateFinished`, unless it was called at the check-in.
  unfoldable pub finish :
      String
      → Option UptaneTarget
      → SelectResult
      → AkClient L.State
      → SelectResult × AkClient L.State
  finish err t res c = (
    res,
    if c.invoke_post_cb_at_checkin then c else on_lite L (L.notify_tuf_update_finished err t) c,
  )

  -- The candidate is installed: the branch for a new target.
  unfoldable pub select_update :
      Bool → TufTarget → TufTarget → AkClient L.State → SelectResult × AkClient L.State
  select_update rollback current candidate c =
      let (apps, reason, c') =
        check_and_set_apps L candidate (update_reason rollback current.name candidate.name) c in
      (
        record {
          status =
              if rollback then SelectStatus.update_rollback else SelectStatus.update_new_version;
          selected_target = candidate;
          reason = reason;
        },
        c',
      )

  abbrev or_current : TufTarget → TufTarget → TufTarget
  or_current current t = if is_unknown t then current else t

  -- The candidate is not installed: the apps of the current target are synced if need be.
  unfoldable pub select_sync :
      SelectArgs
      → CheckInResult
      → TufTarget
      → TufTarget
      → AkClient L.State
      → SelectResult × AkClient L.State
  select_sync args ci current candidate c =
      let (apps, reason, c') = check_and_set_apps L current "Syncing Active Target Apps" c in
      (
        if args.force_apps_sync || not (is_nil apps)
            then record {
              status = SelectStatus.update_sync_apps;
              selected_target = or_current current (select_target ci current.version "" "");
              reason = sync_reason reason apps;
            }
            else record {
              status =
                  if args.is_offline_mode
                  then SelectStatus.target_already_installed
                  else SelectStatus.no_update;
              selected_target = unknown_target;
              reason = reason;
            },
        c',
      )

  -- The choice between the two.
  unfoldable pub choose :
      SelectArgs
      → CheckInResult
      → Bool
      → TufTarget
      → TufTarget
      → AkClient L.State
      → SelectResult × AkClient L.State
  choose args ci rollback current candidate c =
      let is_bad = is_rollback_target L c candidate in
      let (res, c') =
        if not (candidate.name == current.name) && (not is_bad || args.allow_bad_target)
        then select_update rollback current candidate c
        else select_sync args ci current candidate c in
      if rollback && is_bad
      then finish (bad_selected candidate current) none
          (failed_selection SelectStatus.bad_rollback_target (bad_selected candidate current)) c
      else finish "" (some (from_tuf_target candidate)) res c'

  -- The current target is a failing one: a rollback target takes the place of the candidate.
  unfoldable pub choose_rollback :
      SelectArgs → CheckInResult → TufTarget → AkClient L.State → SelectResult × AkClient L.State
  choose_rollback args ci current c =
      let rollback_target = to_tuf_or_unknown (L.get_rollback_target true c.lite) in
      if is_unknown rollback_target
      then finish "Failed to find Target to rollback to" none
          (failed_selection SelectStatus.rollback_target_not_found (no_rollback_target current)) c
      else choose args ci true current rollback_target c

  -- `GetTargetToInstall`
  unfoldable pub get_target_to_install :
      CheckInResult → SelectArgs → AkClient L.State → SelectResult × AkClient L.State
  get_target_to_install ci args c =
      let candidate = select_target ci args.version args.target_name "" in
      let current = get_current_target L c in
      if not (check_in_good ci.status)
      then finish "Can't select target to install using a failed check-in result" none
          (failed_selection SelectStatus.bad_checkin_status
            "Can't select target to install using a failed check-in result")
          c
      else if is_unknown candidate
      then finish "No matching target" none
          (failed_selection SelectStatus.tuf_target_not_found "No matching target") c
      else if not args.auto_downgrade
          && args.version == no_version
          && is_empty args.target_name
          && int_ltb candidate.version current.version
      then finish "" none (failed_selection SelectStatus.no_update "") c
      else if is_rollback_target L c current && current.name == candidate.name
      then choose_rollback args ci current c
      else choose args ci false current candidate c

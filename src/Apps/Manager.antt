-- ===== src/Apps/Manager.antt =====
-- `ComposeAppManager`: download, verification, installation and finalization of a target's apps. An
-- exception is `none`.
use aktualizr_lite.Results.Usage.{failed_usage}
use aktualizr_lite.Target.{TufTarget, UptaneTarget}
use aktualizr_lite.Prelude.{
  Bool, List, Option, String, [], false, if◌then◌else◌, is_nil, none, not, some, true, ◌&&◌, ◌<>◌,
  ◌>>=◌, ◌||◌, ◌∷◌,
}
use aktualizr_lite.Apps.Engine.{
  AppResult, Apps, Config, Engine, TargetStatus, has_key, is_done, is_pull_failure, lacks_space,
  merge,
}
use aktualizr_lite.Apps.Choice.{Sets, check_for_apps_to_update, get_apps, get_required_apps}
use aktualizr_lite.Results.{
  DownloadResult, DownloadStatus, InstallationResult, ResultCode, download_good, no_space,
}

pub record Manager (S : Type 0) : Type 0 where
  pub device : S
  pub sets : Sets
  pub are_apps_checked : Bool

unfoldable pub no_sets : Sets
no_sets = record { fetch_and_update = []; fetch = [] }

-- The apps of both sets.
unfoldable pub all_to_fetch : Sets → Apps
all_to_fetch sets = merge (merge [] sets.fetch_and_update) sets.fetch

abbrev pub with_code : ResultCode → String → InstallationResult
with_code code description = record { code = code; description = description }

abbrev pub add_text : InstallationResult → String → InstallationResult
add_text res text = record res { description = res.description <> text }

-- The code of an app that could not be installed.
unfoldable pub failure_code : AppResult → ResultCode
failure_code r =
    if is_pull_failure r.status then ResultCode.download_failed else ResultCode.install_failed

-- The code of an app that did not start after the boot of a new version.
unfoldable pub start_failure_code : AppResult → ResultCode
start_failure_code r =
    if is_pull_failure r.status then ResultCode.download_failed else ResultCode.custom_error

abbrev pub is_install_failed : ResultCode → Bool
is_install_failed ResultCode.install_failed = true
is_install_failed _ = false

abbrev pub is_need_completion : ResultCode → Bool
is_need_completion ResultCode.need_completion = true
is_need_completion _ = false

abbrev pub is_ok_code : ResultCode → Bool
is_ok_code ResultCode.ok = true
is_ok_code _ = false

module _ (E : Engine) (cfg : Config) where
  open E use {State}

  -- `checkForAppsToUpdate` and its flag.
  unfoldable pub check_for_updates :
      Bool → UptaneTarget → Manager State → Option (List (String × String) × Manager State)
  check_for_updates indeterminate t m =
      check_for_apps_to_update E cfg indeterminate t.custom.apps m.sets m.device
      >>= (λ found. some (found.0, record m { sets = found.1; are_apps_checked = true }))

  -- The loop of `Download`: the first app that cannot be fetched ends it.
  unfoldable pub fetch_apps :
      Apps → DownloadResult → String → State → DownloadResult × String × State
  fetch_apps [] res text s = (res, text, s)
  fetch_apps (app ∷ apps) res text s =
      let (r, s') = E.fetch app s in
      let rest = fetch_apps apps res text s' in
      let text' =
        text
        <> ("\nfailed to fetch App; app: "
            <> (app.0 <> ("; uri: " <> (app.1 <> ("; " <> r.err))))) in
      if is_done r.status
      then rest
      else if lacks_space r.status
      then (
        record {
          status = DownloadStatus.download_failed_no_space;
          description = text';
          destination_path = r.stat.path;
          stat = r.stat;
        },
        text',
        s',
      )
      else (
        record {
          status = DownloadStatus.download_failed;
          description = "";
          destination_path = "";
          stat = failed_usage "";
        },
        text',
        s',
      )

  -- `Download`
  unfoldable pub download_apps : TufTarget → Manager State → DownloadResult × Manager State
  unfolding fetch_apps all_to_fetch
  download_apps t m =
      let (ostree, s1) = E.ostree_download t m.device in
      let apps = all_to_fetch m.sets in
      let before = ostree.description <> ("\nbefore apps pull: " <> E.usage_report s1) in
      let (res, text, s2) = fetch_apps apps ostree before s1 in
      if not (download_good ostree.status)
      then (ostree, record m { device = s1 })
      else if is_nil apps || no_space res.status
      then (res, record m { device = s2 })
      else (
        record res { description = text <> ("\nafter apps pull: " <> E.usage_report s2) },
        record m { device = s2 },
      )

  -- The loop of `verifyTarget`.
  unfoldable pub verify_apps : Apps → State → TargetStatus → TargetStatus
  verify_apps [] s status = status
  verify_apps (app ∷ apps) s status =
      let rest = verify_apps apps s status in
      if not (E.is_fetched app s)
      then TargetStatus.not_found
      else if not (E.verify app s)
      then TargetStatus.invalid
      else rest

  -- `verifyTarget`
  unfoldable pub verify_target_apps : UptaneTarget → Manager State → TargetStatus
  unfolding verify_apps all_to_fetch
  verify_target_apps t m = elim (E.ostree_verify t m.device) [
    | TargetStatus.good ↦ verify_apps (all_to_fetch m.sets) m.device TargetStatus.good
    | status ↦ status
  ]

  -- `forEachRemovedApp`: the action on each directory of no app of the target.
  unfoldable pub for_each_removed :
      (String × String → State → State) → Apps → List String → State → State
  for_each_removed action current [] s = s
  for_each_removed action current (name ∷ names) s =
      for_each_removed action current names
        (if has_key name current then s else action (name, "") s)

  -- `stopDisabledComposeApps` and `removeDisabledComposeApps`.
  unfoldable pub stop_disabled : UptaneTarget → State → State
  unfolding for_each_removed
  stop_disabled t s = for_each_removed E.stop (get_apps cfg t.custom.apps) (E.app_dirs s) s

  unfoldable pub remove_disabled : UptaneTarget → State → State
  unfolding for_each_removed
  remove_disabled t s = for_each_removed E.remove (get_apps cfg t.custom.apps) (E.app_dirs s) s

  -- The call of `prune` with the required apps, under a condition.
  unfoldable pub prune_if : Bool → UptaneTarget → State → Option State
  prune_if wanted t s =
      if wanted
      then get_required_apps cfg t.custom.apps >>= (λ required. some (E.prune required s))
      else some s

  abbrev is_set : Option (List String) → Bool
  is_set none = false
  is_set (some _) = true

  -- `handleRemovedApps`
  unfoldable pub handle_removed : UptaneTarget → State → Option State
  unfolding remove_disabled prune_if
  handle_removed t s = prune_if (cfg.docker_prune && is_set cfg.reset_apps) t (remove_disabled t s)

  -- `handleRemovedApps`, and the `prune` after it.
  unfoldable pub clean_up : Bool → UptaneTarget → State → Option State
  unfolding handle_removed prune_if
  clean_up wanted t s = handle_removed t s >>= prune_if wanted t

  unfoldable pub stop_all : Apps → State → State
  stop_all [] s = s
  stop_all (app ∷ apps) s = stop_all apps (E.stop app s)

  -- The installation of one app: its containers are created, or it is started.
  unfoldable pub install_app : Bool → String × String → State → AppResult × State
  install_app just_install app s = if just_install then E.install app s else E.run app s

  -- The loop of `install`, which goes on after an app that failed.
  unfoldable pub install_apps :
      Bool → Apps → InstallationResult → State → InstallationResult × State
  unfolding install_app failure_code
  install_apps just_install [] res s = (res, s)
  install_apps just_install (app ∷ apps) res s =
      let (r, s') = install_app just_install app s in
      install_apps just_install apps
        (if is_done r.status
          then add_text res ("\n" <> app.1)
          else with_code (failure_code r) (
              "failed to install App; app: "
              <> (app.0 <> ("; uri: " <> (app.1 <> ("; err: " <> r.err))))))
        s'

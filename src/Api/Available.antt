-- ===== src/Api/Available.antt =====
-- The targets whose content is in an offline bundle: `getAvailableTargets` and
-- `getAppsFetchedForOfflineUpdate` of src/api.cc. An exception is `none`.
use aktualizr_lite.Apps.Choice.{get_required_apps}
use aktualizr_lite.Target.{AppEntry, Custom, UptaneTarget}
use aktualizr_lite.Prelude.{
  Bool, List, Option, String, [], any, contains, false, if◌then◌else◌, int_eq, is_empty, keep,
  nat_eq, none, not, some, string_eq, true, ◌&&◌, ◌++◌, ◌==◌, ◌>>=◌, ◌∷◌,
}
use aktualizr_lite.Apps.Engine.{Apps, Config}

-- `OfflineUpdateAppsShortlistType`, with the shortlist.
pub data Shortlist : Type 0 where
  all_target_apps none_of_target_apps : Shortlist
  only_shortlisted : List String → Shortlist

-- What the directories of the bundle hold.
pub record Content : Type 0 where
  pub has_commit : String → Bool
  pub found_apps : List String
  -- Whether the package manager is `ComposeAppManager`, and its configuration.
  pub has_apps : Bool
  pub config : Config
  -- `boost::split` at commas and blanks.
  pub split : String → List String

abbrev shortlist_of : List String → Shortlist
shortlist_of [] = Shortlist.none_of_target_apps
shortlist_of (name ∷ names) = Shortlist.only_shortlisted (name ∷ names)

-- `getAppsFetchedForOfflineUpdate`
unfoldable pub fetched_shortlist : (String → List String) → Custom → Shortlist
fetched_shortlist split c = elim c.fetched_apps [
  | none ↦ Shortlist.all_target_apps
  | some f ↦
      if is_empty f.uri
      then Shortlist.none_of_target_apps
      else if is_empty f.shortlist
      then Shortlist.all_target_apps
      else shortlist_of (keep (λ name. any (λ e. e.name == name) c.apps) (split f.shortlist))
]

-- Whether the bundle needs the app.
unfoldable pub is_needed : Shortlist → String → Bool
is_needed Shortlist.all_target_apps name = true
is_needed Shortlist.none_of_target_apps name = false
is_needed (Shortlist.only_shortlisted names) name = contains names name

abbrev pub with_apps : List AppEntry → UptaneTarget → UptaneTarget
with_apps apps t = record t { custom = record (t.custom) { apps = apps; local_src_dir = true } }

abbrev pub is_none_of : Shortlist → Bool
is_none_of Shortlist.none_of_target_apps = true
is_none_of _ = false

-- The target as it is offered.
unfoldable pub offered : Shortlist → UptaneTarget → UptaneTarget
offered Shortlist.all_target_apps t = with_apps t.custom.apps t
offered Shortlist.none_of_target_apps t = with_apps [] t
offered (Shortlist.only_shortlisted names) t =
    with_apps (keep (λ e. contains names e.name) t.custom.apps) t

-- Whether all apps that are needed were found.
unfoldable pub is_complete : Content → Shortlist → Apps → Bool
is_complete content list required =
    not (any (λ app. not (contains content.found_apps app.1) && is_needed list app.0) required)

-- One turn of the loop: the target if it is offered.
unfoldable pub available : Content → UptaneTarget → Option (List UptaneTarget)
unfolding fetched_shortlist offered is_complete
available content t =
    let list = fetched_shortlist content.split t.custom in
    if not (content.has_commit t.sha256)
    then some []
    else if not content.has_apps
    then some (with_apps t.custom.apps t ∷ [])
    else if is_none_of list
    then some (offered list t ∷ [])
    else get_required_apps content.config t.custom.apps
      >>= (λ required. some (if is_complete content list required then offered list t ∷ [] else []))

-- `getAvailableTargets`
unfoldable pub available_targets : Content → List UptaneTarget → Option (List UptaneTarget)
unfolding available
available_targets content [] = some []
available_targets content (t ∷ ts) = do
  found ← available content t
  rest ← available_targets content ts
  some (found ++ rest)

-- ===== src/Apps/Choice.antt =====
-- Which apps of a target `ComposeAppManager` runs, updates, fetches and keeps.
use aktualizr_lite.Prelude.{
  Bool, List, Option, String, [], contains, false, if◌then◌else◌, int_eq, nat_eq, none, not, some,
  string_eq, true, ◌++◌, ◌==◌, ◌>>=◌, ◌||◌, ◌∷◌,
}
use aktualizr_lite.Apps.Engine.{Apps, Config, Engine, has_key, put}
use aktualizr_lite.Target.{AppEntry}

-- The app of a name in the JSON object.
abbrev pub find_entry : String → List AppEntry → Option AppEntry
find_entry name [] = none
find_entry name (e ∷ es) = if e.name == name then some e else find_entry name es

-- Whether the configuration enables the app.
unfoldable pub is_enabled : Config → String → Bool
is_enabled cfg name = elim cfg.apps [ none ↦ true | some names ↦ contains names name ]

-- The sets `cur_apps_to_fetch_and_update_` and `cur_apps_to_fetch_`.
pub record Sets : Type 0 where
  pub fetch_and_update : Apps
  pub fetch : Apps

-- `app_data["uri"].asString()`
abbrev pub uri_of : AppEntry → String
uri_of e = elim e.uri [ none ↦ "" | some uri ↦ uri ]

-- What the loop of `getAppsToUpdate` finds out: the apps to update, the reasons, and the names of
-- those that are fetched.
abbrev pub Findings : Type 0
Findings = Apps × List (String × String) × List String

-- `getApps`: entries without a uri are passed over.
unfoldable pub get_apps : Config → List AppEntry → Apps
unfolding is_enabled
get_apps cfg [] = []
get_apps cfg (e ∷ es) =
    let rest = get_apps cfg es in
    elim e.uri [
      | none ↦ rest
      | some uri ↦ if is_enabled cfg e.name then (e.name, uri) ∷ rest else rest
    ]

-- The names of the apps; an app without a uri throws.
app_names : List AppEntry → Option (List String)
app_names [] = some []
app_names (e ∷ es) =
    let rest = app_names es in
    elim e.uri [ none ↦ none | some uri ↦ rest >>= (λ names. some (e.name ∷ names)) ]

is_all : List String → Bool
is_all [] = false
is_all (name ∷ []) = name == "*"
is_all (name ∷ name' ∷ names) = false

-- `cfg_apps_union`
unfoldable pub required_names : Config → List AppEntry → Option (List String)
unfolding app_names is_all
required_names cfg target_apps = do
  enabled ← elim cfg.apps [ none ↦ app_names target_apps | some names ↦ some names ]
  elim cfg.reset_apps [
    | none ↦ some enabled
    | some reset ↦
        if is_all reset
        then app_names target_apps >>= (λ all_names. some (enabled ++ all_names))
        else some (enabled ++ reset)
  ]

-- The named apps that the target has.
unfoldable pub collect : List AppEntry → List String → Option Apps
collect target_apps [] = some []
collect target_apps (name ∷ names) = do
  rest ← collect target_apps names
  elim (find_entry name target_apps) [
    | none ↦ some rest
    | some e ↦ elim e.uri [ none ↦ none | some uri ↦ some (put name uri rest) ]
  ]

-- `getRequiredApps`
unfoldable pub get_required_apps : Config → List AppEntry → Option Apps
unfolding required_names collect
get_required_apps cfg target_apps = do
  names ← required_names cfg target_apps
  collect target_apps names

module _ (E : Engine) (cfg : Config) where
  -- `getAppsToFetch` with `check_store`; no `checked_apps` and no `fetched_apps` are empty ones.
  unfoldable pub to_fetch : Apps → Apps → List String → E.State → Apps
  to_fetch [] checked fetched s = []
  to_fetch (app ∷ required) checked fetched s =
      let rest = to_fetch required checked fetched s in
      if has_key app.0 checked || contains fetched app.0 || E.is_fetched app s
      then rest
      else app ∷ rest

  -- The reason for which an app has to be updated, if there is one.
  unfoldable pub update_reason : List AppEntry → String × String → E.State → Option String
  update_reason installed app s = elim (find_entry app.0 installed) [
    | none ↦ some "new app in target"
    | some e ↦
        if not (uri_of e == app.1)
        then some "new version in target"
        else if not (E.is_running app s)
        then some "not running"
        else if not (E.is_fetched app s)
        then some "not fetched"
        else none
  ]

  -- What one turn of the loop adds.
  abbrev pub add_finding : String × String → Option String → Findings → Findings
  add_finding app none (updates, reasons, fetched) = (updates, reasons, app.0 ∷ fetched)
  add_finding app (some why) (updates, reasons, fetched) =
      (app ∷ updates, (app.0, why) ∷ reasons, fetched)

  -- The loop of `getAppsToUpdate`.
  unfoldable pub update_loop : List AppEntry → Apps → E.State → Findings
  unfolding update_reason
  update_loop installed [] s = ([], [], [])
  update_loop installed (app ∷ apps) s =
      add_finding app (update_reason installed app s) (update_loop installed apps s)

  -- `getAppsToUpdate`
  unfoldable pub get_apps_to_update : List AppEntry → E.State → Findings
  unfolding get_apps update_loop
  get_apps_to_update target_apps s =
      update_loop (E.current s).custom.apps (get_apps cfg target_apps) s

  -- The reasons of the apps that are fetched for a reset.
  unfoldable pub add_reset_reasons : Apps → List (String × String) → List (String × String)
  add_reset_reasons [] reasons = reasons
  add_reset_reasons (app ∷ apps) reasons =
      add_reset_reasons apps
        (if has_key app.0 reasons then reasons else put app.0 "not fetched (reset apps)" reasons)

  forced_reasons : Apps → List (String × String)
  forced_reasons [] = []
  forced_reasons (app ∷ apps) = (app.0, "forced update") ∷ forced_reasons apps

  -- The apps to fetch for a reset: the former ones, if no app is to be kept for it.
  unfoldable pub reset_sets :
      Bool → Apps → List String → List AppEntry → Apps → E.State → Option Apps
  unfolding get_required_apps to_fetch
  reset_sets check updates fetched target_apps former s = elim cfg.reset_apps [
    | none ↦ some former
    | some reset ↦
        get_required_apps cfg target_apps
        >>= (λ required. some (if check then to_fetch required updates fetched s else required))
  ]

  -- The result of the check, from the apps to fetch for a reset.
  unfoldable pub with_fetch : Apps → List (String × String) → Apps → List (String × String) × Sets
  unfolding add_reset_reasons
  with_fetch updates reasons fetch =
      (add_reset_reasons fetch reasons, record { fetch_and_update = updates; fetch = fetch })

  -- `checkForAppsToUpdate`: the reasons and the new sets; an app without a uri may throw. With
  -- `force_update` the flag `check_apps_to_fetch` is not initialized: `indeterminate` is its value.
  unfoldable pub check_for_apps_to_update :
      Bool → List AppEntry → Sets → E.State → Option (List (String × String) × Sets)
  unfolding get_apps_to_update forced_reasons reset_sets
  check_for_apps_to_update indeterminate target_apps sets s =
      let (updates, reasons, fetched) = get_apps_to_update target_apps s in
      let all_apps = get_apps cfg target_apps in
      if not cfg.force_update
      then reset_sets true updates fetched target_apps sets.fetch s
        >>= (λ fetch. some (with_fetch updates reasons fetch))
      else reset_sets indeterminate all_apps [] target_apps sets.fetch s
        >>= (λ fetch. some (with_fetch all_apps (forced_reasons all_apps) fetch))

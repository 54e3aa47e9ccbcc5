-- ===== src/Docker/ComposeRuns.antt =====
-- How the engine of src/docker/composeappengine.cc runs, stops and removes apps, and what it tells of
-- them.
use aktualizr_lite.Prelude.{
  Bool, List, Option, String, [], false, if◌then◌else◌, int_eq, is_nil, leb, nat_eq, none, not,
  some, string_eq, true, ℕ, ◌&&◌, ◌==◌, ◌>>=◌, ◌||◌, ◌∷◌,
}
use aktualizr_lite.Apps.Engine.{AppResult}
use aktualizr_lite.Docker.ComposeApps.{
  AppState, ComposeHost, Step, app_state, are_app_containers_created, conclude, k_installed,
  k_pulled, k_started, no_dir, set_state,
}
use aktualizr_lite.Docker.Containers.{check_services}

module _ {S : Type 0} (H : ComposeHost S) where
  abbrev pub is_fetched_state : ℕ → Bool
  is_fetched_state state = state == k_pulled || leb k_installed state

  -- `isFetched`: an exception is taken for no.
  unfoldable pub is_compose_app_fetched : String × String → S → Bool
  unfolding app_state
  is_compose_app_fetched app s =
      if not (H.exists app.0 s)
      then false
      else elim (app_state H app false s) [ none ↦ false | some (a, s') ↦ is_fetched_state a.state ]

  -- An app whose state is not known is taken for a pulled one.
  unfoldable pub assume_pulled : String × String → S → Option S
  unfolding app_state set_state
  assume_pulled app s = H.create_meta_dir app.0 s >>= λ s1.
      app_state H app true s1 >>= λ (a, s2). some (set_state H app.0 k_pulled s2)

  -- `run`
  unfoldable pub run_compose_app : String × String → S → Option (AppResult × S)
  unfolding is_compose_app_fetched assume_pulled app_state set_state are_app_containers_created
  run_compose_app app s =
      let known = if not (is_compose_app_fetched app s) then assume_pulled app s else some s in
      if not (H.exists app.0 s)
      then some (no_dir H, s)
      else known >>= λ s1. app_state H app false s1 >>= λ (a, s2). some (
          conclude H k_started app.0 (
            if a.state == k_started
            then (none, s2)
            else if a.state == k_pulled || a.state == k_installed
            then H.step Step.up_detached app s2
            else (some "Cannot start App that hasn't been fetched", s2)))

  -- `stop`, of which an exception is logged.
  unfoldable pub stop_compose_app : String × String → S → S
  stop_compose_app app s = (H.step Step.down app s).1

  -- `remove`: the directory stays where the app was not brought down.
  unfoldable pub remove_compose_app : String × String → S → S
  remove_compose_app app s =
      let (thrown, s') = H.step Step.down app s in
      elim thrown [ none ↦ H.remove_dir app.0 s' | some e ↦ s' ]

  -- Whether the state allows the app to be running: the state of another version, or one that cannot
  -- be read, does not tell.
  abbrev started_state : String × String → Option (AppState × S) → Bool
  started_state app none = true
  started_state app (some (a, s')) = if app.1 == a.version then a.state == k_started else true

  -- The containers of all services; an exception is taken for no.
  abbrev are_running : Option Bool → Bool
  are_running none = false
  are_running (some b) = b

  -- `isRunning`
  unfoldable pub is_compose_app_running : String × String → S → Bool
  unfolding app_state check_services
  is_compose_app_running app s =
      let started = started_state app (app_state H app false s) in
      let running = H.read_services app.0 s >>= λ services.
      if is_nil services
      then some false
      else H.get_containers s >>= λ containers. check_services true app.0 containers services in
      if not (H.exists app.0 s) then false else are_running running && started

  -- The loop of `getInstalledApps`; an exception escapes it.
  unfoldable pub installed_apps : List String → S → Option (List (String × String) × S)
  unfolding app_state
  installed_apps [] s = some ([], s)
  installed_apps (name ∷ names) s = app_state H (name, "") false s >>= λ (a, s1).
      installed_apps names s1 >>= λ (apps, s2).
      some (if leb k_installed a.state then (name, a.version) ∷ apps else apps, s2)

-- ===== src/Docker/ComposeApps.antt =====
-- The engine of compose apps that are not restorable: src/docker/composeappengine.cc. It records in
-- two files of an app how far the app got; the commands that it runs are parameters.
use aktualizr_lite.Prelude.{
  Bool, List, Option, String, false, if◌then◌else◌, int_eq, is_empty, is_nil, nat_eq, none, not,
  some, string_eq, true, ℕ, ◌==◌, ◌>>=◌, ◌||◌,
}
use aktualizr_lite.Apps.Engine.{AppResult, ResultId, result_of}
use aktualizr_lite.Docker.Containers.{Container, check_services}

-- `AppState::State` as the integers that are stored.
abbrev pub k_unknown : ℕ
k_unknown = 0x0

abbrev pub k_downloaded : ℕ
k_downloaded = 0x10

abbrev pub k_verified : ℕ
k_verified = 0x20

abbrev pub k_pulled : ℕ
k_pulled = 0x30

abbrev pub k_installed : ℕ
k_installed = 0x40

abbrev pub k_started : ℕ
k_started = 0x50

pub record AppState : Type 0 where
  pub version : String
  pub state : ℕ

-- What is run for an app: `download`, and `docker-compose` with `config`, `pull --no-parallel`,
-- `up --remove-orphans --no-start`, `up --remove-orphans -d` and `down`.
pub data Step : Type 0 where
  download config pull up_no_start up_detached down : Step

-- The device. What may throw gives none; a step gives the text of its exception, if it throws.
pub record ComposeHost (S : Type 0) : Type 0 where
  pub exists : String → S → Bool
  pub create_meta_dir : String → S → Option S
  pub remove_dir : String → S → S
  -- The files `.version` and `.state` of an app, which are made empty if they are not there: an empty
  -- one is read as an empty text and as zero.
  pub read_version : String → S → Option String
  pub read_state : String → S → Option ℕ
  pub write_version : String → String → S → Option S
  pub write_state : String → ℕ → S → Option S
  pub step : Step → String × String → S → Option String × S
  -- The services of an app's compose file with their hashes, and the containers.
  pub read_services : String → S → Option (List (String × Option String))
  pub get_containers : S → Option (List Container)
  -- The apps in the root directory.
  pub app_dirs : S → List String
  -- The text of an exception of the files of an app.
  pub what : String → String

module _ {S : Type 0} (H : ComposeHost S) where
  -- `AppState::AppState`: an exception is thrown again after it is logged.
  unfoldable pub app_state : String × String → Bool → S → Option (AppState × S)
  app_state (name, uri) set_version s = H.read_version name s >>= λ version.
      let old : Option (AppState × S) =
        H.read_state name s >>= λ state. some (record { version = version; state = state }, s) in
      let new : Option (AppState × S) = H.write_version name uri s >>= λ s'.
      some (record { version = uri; state = k_unknown }, s') in
      if is_empty uri || version == uri
      then old
      else if set_version
      then new
      else some (record { version = version; state = k_unknown }, s)

  -- `AppState::setState`: a failure is logged.
  unfoldable pub set_state : String → ℕ → S → S
  set_state name state s = elim (H.write_state name state s) [ some s' ↦ s' | none ↦ s ]

  -- What is recorded after a step, and what follows; or the text of its exception.
  abbrev pub after_step :
      ℕ → String × String → (S → Option String × S) → Option String × S → Option String × S
  after_step state app next (some e, s) = (some e, s)
  after_step state app next (none, s) = next (set_state app.0 state s)

  abbrev pub recorded : Step → ℕ → String × String → (S → Option String × S) → S → Option String × S
  recorded step state app next s = after_step state app next (H.step step app s)

  -- The `try` block of `fetch`, after the state was read.
  unfoldable pub fetch_app : String × String → S → Option String × S
  unfolding set_state
  fetch_app app s =
      recorded Step.download k_downloaded app
        (recorded Step.config k_verified app (recorded Step.pull k_pulled app (λ s'. (none, s')))) s

  abbrev pub result_after : Option String → AppResult
  result_after none = result_of ResultId.ok ""
  result_after (some e) = result_of ResultId.failed e

  abbrev pub fetch_known : String × String → Option (AppState × S) → S → AppResult × S
  fetch_known app none s = (result_of ResultId.failed (H.what app.0), s)
  fetch_known app (some (state, s')) s =
      let (thrown, s'') = fetch_app app s' in (result_after thrown, s'')

  -- `fetch`: the directory for the state is made before the exceptions are caught.
  unfoldable pub fetch_compose_app : String × String → S → Option (AppResult × S)
  unfolding fetch_app app_state
  fetch_compose_app app s =
      H.create_meta_dir app.0 s >>= λ s1. some (fetch_known app (app_state app true s1) s1)

  -- `areContainersCreated`
  unfoldable pub are_app_containers_created : String → S → Option Bool
  unfolding check_services
  are_app_containers_created name s = H.read_services name s >>= λ services.
      if is_nil services
      then none
      else H.get_containers s >>= λ containers. check_services false name containers services

  -- After the app was installed or started: unless its containers are known to be missing, this is
  -- recorded.
  abbrev pub conclude : ℕ → String → Option String × S → AppResult × S
  conclude state name (some e, s) = (result_of ResultId.failed e, s)
  conclude state name (none, s) = elim (are_app_containers_created name s) [
    | some false ↦ (result_of ResultId.failed "App containers haven't been created", s)
    | _ ↦ (result_of ResultId.ok "", set_state name state s)
  ]

  abbrev pub no_dir : AppResult
  no_dir =
      result_of ResultId.failed "App dir doesn't exist, cannot install App that hasn't been fetched"

  -- `install`
  unfoldable pub install_compose_app : String × String → S → Option (AppResult × S)
  unfolding app_state set_state are_app_containers_created
  install_compose_app app s =
      if not (H.exists app.0 s)
      then some (no_dir, s)
      else app_state app false s >>= λ (a, s1). some (
          conclude k_installed app.0 (
            if a.state == k_installed || a.state == k_started
            then (none, s1)
            else if a.state == k_pulled
            then H.step Step.up_no_start app s1
            else (some "Cannot install App that hasn't been fetched", s1)))

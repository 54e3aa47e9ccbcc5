-- ===== src/Docker/Install.antt =====
-- `fetch`, `install`, `run`, `stop` and `remove` of src/docker/restorableappengine.cc. What the steps
-- of these functions run is a parameter.
use aktualizr_lite.Prelude.{
  Bool, Option, String, false, if◌then◌else◌, none, not, some, true, ◌&&◌, ◌<>◌,
}
use aktualizr_lite.Apps.Engine.{AppResult, ResultId, is_done, result_of}
use aktualizr_lite.Docker.Containers.{Containers, are_containers_created}
use aktualizr_lite.Docker.Fetched.{AppFiles, app_dir_of, is_app_fetched, under}
use aktualizr_lite.Docker.Pull.{Outcome, and_then, pull_app}
use aktualizr_lite.Docker.UpdateSize.{Sizing, check_app_update_size}
use aktualizr_lite.Docker.Uri.{Uri, parse_uri}

pub record Tools (S : Type 0) : Type 0 where
  pub device : Containers S
  pub create_containers_if_install : Bool
  -- What an exception tells that comes from reading the URI of an app or its files.
  pub what : String → S → String
  -- The registry, and what the check of sizes reads.
  pub sizing : Sizing S
  -- `pullAppImages`, `installAppAndImages`.
  pub pull_app_images : Uri → String → String → S → Outcome × S
  pub install_app_and_images : String × String → S → Outcome × S
  -- `startComposeApp` with its flags, and `stopComposeApp`.
  pub start_compose_app : String → String → S → Outcome × S
  pub stop_compose_app : String → S → Outcome × S

-- The handlers of `fetch`.
abbrev pub fetch_result : Outcome → AppResult
fetch_result Outcome.done = result_of ResultId.ok ""
fetch_result (Outcome.no_room e u) = record {
  status = ResultId.insufficient_space;
  err = e;
  stat = u;
}
fetch_result (Outcome.not_loaded e) = result_of ResultId.failed e
fetch_result (Outcome.thrown e) = result_of ResultId.failed e

-- The handlers of `installContainerless`.
abbrev pub install_result : Outcome → AppResult
install_result Outcome.done = result_of ResultId.ok ""
install_result (Outcome.no_room e u) = result_of ResultId.failed e
install_result (Outcome.not_loaded e) = result_of ResultId.image_pull_failure e
install_result (Outcome.thrown e) = result_of ResultId.failed e

module _ {S : Type 0} (T : Tools S) where
  abbrev files_of : AppFiles S
  files_of = T.device.files

  -- An app that is not fetched is pulled.
  abbrev pull_unless : String → Uri → String → Option Bool × S → Outcome × S
  pull_unless uri u dir (none, s) = (Outcome.thrown (T.what uri s), s)
  pull_unless uri u dir (some true, s) = (Outcome.done, s)
  pull_unless uri u dir (some false, s) = pull_app files_of T.sizing.registry u dir s

  -- The `try` block of `fetch`, of an app whose URI was read.
  unfoldable pub fetch_steps : String → Uri → S → Outcome × S
  unfolding is_app_fetched pull_app check_app_update_size
  fetch_steps uri u s =
      let dir = app_dir_of files_of u in
      and_then
        (and_then (pull_unless uri u dir (is_app_fetched files_of uri s))
          (λ s1. check_app_update_size T.sizing u dir s1))
        (λ s2. T.pull_app_images u (under dir "docker-compose.yml") (under dir "images") s2)

  -- What `fetch` does in the end: the directory of an app is removed unless all went well.
  abbrev finish_fetch : String → Outcome × S → AppResult × S
  finish_fetch dir (o, s) =
      let result = fetch_result o in
      if not (is_done result.status) && files_of.exists dir s
      then (result, files_of.remove_all dir s)
      else (result, s)

  -- `fetch`
  unfoldable pub fetch : String → S → AppResult × S
  unfolding fetch_steps is_done
  fetch uri s = elim (parse_uri files_of.to_lower true uri) [
    | none ↦ finish_fetch "" (Outcome.thrown (T.what uri s), s)
    | some u ↦ finish_fetch (app_dir_of files_of u) (fetch_steps uri u s)
  ]

  -- `installContainerless`
  unfoldable pub install_containerless : String × String → S → AppResult × S
  install_containerless app s =
      let (o, s') = T.install_app_and_images app s in (install_result o, s')

  -- After the containers were started or created, whether they are there.
  abbrev after_start : String → Bool → Outcome × S → AppResult × S
  after_start app run (Outcome.done, s) = elim (are_containers_created T.device app s) [
    | some false ↦ (
      result_of ResultId.failed
          ("App containers haven't been " <> (if run then "started" else "created")),
      s,
    )
    | _ ↦ (result_of ResultId.ok "", s)
  ]
  after_start app run (Outcome.no_room e u, s) = (result_of ResultId.failed e, s)
  after_start app run (Outcome.not_loaded e, s) = (result_of ResultId.failed e, s)
  after_start app run (Outcome.thrown e, s) = (result_of ResultId.failed e, s)

  -- `installAndCreateOrRunContainers`
  unfoldable pub install_and_create_or_run_containers : String × String → Bool → S → AppResult × S
  unfolding install_containerless is_done are_containers_created
  install_and_create_or_run_containers (app, uri) run s =
      let (result, s1) = install_containerless (app, uri) s in
      let flags = if run then "--remove-orphans -d" else "--remove-orphans --no-start" in
      if not (is_done result.status)
      then (result, s1)
      else after_start app run (T.start_compose_app (under T.device.install_root app) flags s1)

  -- `install`
  unfoldable pub install : String × String → S → AppResult × S
  unfolding install_containerless install_and_create_or_run_containers
  install app s =
      if not T.create_containers_if_install
      then install_containerless app s
      else install_and_create_or_run_containers app false s

  -- `run`
  unfoldable pub run : String × String → S → AppResult × S
  unfolding install_and_create_or_run_containers
  run app s = install_and_create_or_run_containers app true s

  -- `stop`, of which an exception is logged.
  unfoldable pub stop : String → S → S
  stop app s = (T.stop_compose_app (under T.device.install_root app) s).1

  -- `remove`: the directory stays where the app was not stopped.
  unfoldable pub remove_app : String → S → S
  remove_app app s =
      let dir = under T.device.install_root app in
      let (o, s') = T.stop_compose_app dir s in
      elim o [ Outcome.done ↦ files_of.remove_all dir s' | _ ↦ s' ]

  -- `isFetched`: an exception is taken for no.
  unfoldable pub is_fetched : String → S → Bool × S
  unfolding is_app_fetched
  is_fetched uri s =
      let (fetched, s') = is_app_fetched files_of uri s in
      elim fetched [ some b ↦ (b, s') | none ↦ (false, s') ]

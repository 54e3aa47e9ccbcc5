-- ===== src/Docker/Containers.antt =====
-- Whether an app is installed and whether its containers are there: `isAppInstalled`, `isRunning`,
-- `areContainersCreated` and `checkAppContainers` of src/docker/restorableappengine.cc, and
-- `getContainerState` of src/docker/dockerclient.cc. An exception gives none.
use aktualizr_lite.Prelude.{
  Bool, List, Option, String, [], false, if◌then◌else◌, int_eq, is_nil, nat_eq, none, not, some,
  string_eq, true, ◌&&◌, ◌<>◌, ◌==◌, ◌>>=◌, ◌||◌, ◌∷◌,
}
use aktualizr_lite.Docker.Fetched.{AppFiles, app_dir_of, digest_of, under}
use aktualizr_lite.Docker.Uri.{parse_uri}

-- An element of the list of containers, with its labels.
pub record Container : Type 0 where
  pub project : String
  pub service : String
  pub config_hash : String
  pub state : String

-- `getContainerState`: the state of the first container of the app, the service and the hash.
unfoldable pub get_container_state : List Container → String → String → String → Option String
get_container_state [] app service hash = none
get_container_state (c ∷ cs) app service hash =
    let rest = get_container_state cs app service hash in
    if c.project == app && c.service == service && c.config_hash == hash then some c.state else rest

-- The loop of `checkAppContainers` over the services with their hashes, which may be no texts.
abbrev pub is_up : Bool → Option String → Bool
is_up check_state none = false
is_up check_state (some state) = not check_state || not (state == "created")

unfoldable pub check_services :
    Bool → String → List Container → List (String × Option String) → Option Bool
unfolding get_container_state
check_services check_state app containers [] = some true
check_services check_state app containers ((service, none) ∷ services) = none
check_services check_state app containers ((service, some hash) ∷ services) =
    let rest = check_services check_state app containers services in
    if is_up check_state (get_container_state containers app service hash) then rest else some false

-- What the engine takes from the device beside the files.
pub record Containers (S : Type 0) : Type 0 where
  pub files : AppFiles S
  pub install_root : String
  pub read_file : String → S → Option String
  -- The lower-case hexadecimal digits of `Crypto::sha256digest`.
  pub sha256_hex : String → String
  -- The services of a compose file, with the hashes of their configurations.
  pub read_services : String → S → Option (List (String × Option String))
  pub get_containers : S → Option (List Container)

module _ {S : Type 0} (D : Containers S) where
  -- `checkAppContainers`
  unfoldable pub check_app_containers : Bool → String → String → S → Option Bool
  unfolding check_services
  check_app_containers check_state app compose_file s =
      D.read_services compose_file s >>= λ services.
      if is_nil services
      then none
      else D.get_containers s >>= λ containers. check_services check_state app containers services

  abbrev pub compose_file_of : String → String
  compose_file_of app = under (under D.install_root app) "docker-compose.yml"

  -- `areContainersCreated`
  unfoldable pub are_containers_created : String → S → Option Bool
  unfolding check_app_containers
  are_containers_created app s = check_app_containers false app (compose_file_of app) s

  -- `isAppInstalled`
  unfoldable pub is_app_installed : String × String → S → Option Bool
  is_app_installed (app, uri) s = parse_uri D.files.to_lower true uri >>= λ u.
      let dir = app_dir_of D.files u in
      digest_of D.files (D.files.archive_digest (under dir "manifest.json") s) >>= λ a.
      D.files.extract_compose (under dir (a.hash <> ".tgz")) s >>= λ fetched.
      D.read_file (compose_file_of app) s >>= λ installed.
      some (D.sha256_hex fetched == D.sha256_hex installed)

  -- `isRunning` of an app: the containers are only looked for if it is installed.
  unfoldable pub is_running : String × String → S → Bool
  unfolding is_app_installed check_app_containers
  is_running (app, uri) s =
      let up = check_app_containers true app (compose_file_of app) s in
      elim (is_app_installed (app, uri) s >>= λ installed. if installed then up else some false) [
        | none ↦ false
        | some b ↦ b
      ]

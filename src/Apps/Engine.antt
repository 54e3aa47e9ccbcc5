-- ===== src/Apps/Engine.antt =====
-- `AppEngine` of src/appengine.h, the configuration of `ComposeAppManager` and the containers of apps.
use aktualizr_lite.Results.Usage.{UsageInfo, failed_usage}
use aktualizr_lite.Prelude.{
  Bool, List, Option, String, [], false, if◌then◌else◌, int_eq, nat_eq, string_eq, true, ◌++◌, ◌==◌,
  ◌∷◌,
}
use aktualizr_lite.Target.{TufTarget, UptaneTarget}
use aktualizr_lite.Results.{DownloadResult, InstallationResult, ResultCode}

-- `AppsContainer`: an unordered map from names to uris is the list of its entries, in the order in
-- which they were added.
abbrev pub Apps : Type 0
Apps = List (String × String)

pub data ResultId : Type 0 where
  ok failed insufficient_space image_pull_failure : ResultId

-- `AppEngine::Result`
pub record AppResult : Type 0 where
  pub status : ResultId
  pub err : String
  pub stat : UsageInfo

-- `Result` of a status and a text.
abbrev pub result_of : ResultId → String → AppResult
result_of status err = record { status = status; err = err; stat = failed_usage "undefined" }

-- `Result::operator bool`, `noSpace` and `imagePullFailure`.
unfoldable pub is_done : ResultId → Bool
is_done ResultId.ok = true
is_done _ = false

unfoldable pub lacks_space : ResultId → Bool
lacks_space ResultId.insufficient_space = true
lacks_space _ = false

unfoldable pub is_pull_failure : ResultId → Bool
is_pull_failure ResultId.image_pull_failure = true
is_pull_failure _ = false

-- `ComposeAppManager::Config`, as far as the choices depend on it.
pub record Config : Type 0 where
  pub apps : Option (List String)
  pub reset_apps : Option (List String)
  pub force_update : Bool
  pub docker_prune : Bool
  pub create_containers_before_reboot : Bool
  pub stop_apps_before_update : Bool

-- `TargetStatus`, as far as the code names it.
pub data TargetStatus : Type 0 where
  good not_found invalid other : TargetStatus

-- The app engine and the OSTree package manager over the state of the device.
pub record Engine : Type 1 where
  pub State : Type 0
  pub fetch : String × String → State → AppResult × State
  pub install : String × String → State → AppResult × State
  pub run : String × String → State → AppResult × State
  pub stop : String × String → State → State
  pub remove : String × String → State → State
  pub prune : Apps → State → State
  pub verify : String × String → State → Bool
  pub is_fetched : String × String → State → Bool
  pub is_running : String × String → State → Bool
  -- The directories of `apps_root`, none if it is not a directory.
  pub app_dirs : State → List String
  -- The report of the running apps and the usage of the apps' volumes, as text.
  pub running_report : State → String
  pub usage_report : State → String
  pub current : State → UptaneTarget
  -- `RootfsTreeManager::Download`, `verifyTarget` and `install`, `OstreeManager::finalizeInstall`.
  pub ostree_download : TufTarget → State → DownloadResult × State
  pub ostree_verify : UptaneTarget → State → TargetStatus
  pub ostree_install : UptaneTarget → State → InstallationResult × State
  pub ostree_finalize : UptaneTarget → State → InstallationResult × State
  -- `InstallationResult::isSuccess`
  pub is_success : ResultCode → Bool

module _ {ℓ} {A : Type ℓ} where
  -- `count(name) > 0`
  abbrev pub has_key : String → List (String × A) → Bool
  has_key name [] = false
  has_key name ((n, a) ∷ xs) = if n == name then true else has_key name xs

  -- `m[name] = a`
  abbrev pub put : String → A → List (String × A) → List (String × A)
  put name a [] = (name, a) ∷ []
  put name a ((n, b) ∷ xs) =
      let rest = put name a xs in if n == name then (name, a) ∷ xs else (n, b) ∷ rest

  -- `m.insert(first, last)`, which keeps what is there.
  unfoldable pub merge : List (String × A) → List (String × A) → List (String × A)
  merge m [] = m
  merge m ((n, a) ∷ xs) = if has_key n m then merge m xs else merge (m ++ ((n, a) ∷ [])) xs

-- ===== src/Composectl/Engine.antt =====
-- `fetch`, `remove`, `isAppFetched`, `isAppInstalled` and `installAppAndImages` of
-- src/composeapp/appengine.cc, with the set of the apps that are known to be fetched.

use aktualizr_lite.Apps.Engine.{AppResult, ResultId, result_of}
use aktualizr_lite.Docker.Pull.{Read}
use aktualizr_lite.Results.Usage.{UsageInfo, with_required}
use aktualizr_lite.Prelude.{
  Bool, List, Option, String, [], contains, false, if◌then◌else◌, int_eq, is_empty, nat_eq, none,
  pos, some, string_eq, true, ℕ, ℤ, ◌==◌, ◌>>=◌, ◌∷◌,
}

-- What `composectl` is asked to do.
pub data Command : Type 0 where
  pull check check_install install rm ps : String → Command
  stop uninstall : String → Command
  ls prune : Command

-- How a command ends: with its output, with an `ExecError`, which has the exit code and the error
-- output, or with another exception.
pub data Ran : Type 0 where
  output : String → Ran
  exec_error : ℤ → String → String → Ran
  thrown : String → Ran

pub record Ctl (S : Type 0) : Type 0 where
  pub exec : Command → S → Ran × S
  pub has_local_source : Bool
  -- The URL and the certificates of the proxy, if there is a provider of them.
  pub proxy : Option (S → Read (String × String))
  pub set_proxy : String × String → S → S
  pub unset_proxy : S → S
  -- The members `path` and `required` of an error output, none where reading them throws.
  pub parse_usage : String → Option (String × ℕ)
  pub storage_space : String → UsageInfo
  -- Whether `missing_blobs` is empty, none inside if it is missing, and none where reading throws.
  pub parse_fetch_check : String → Option (Option Bool)
  -- Whether the app of a URI lacks no image, none where reading throws.
  pub parse_install_check : String → String → Option Bool

pub record EngineState (S : Type 0) : Type 0 where
  pub fetched_apps : List String
  pub device : S

-- `erase` and `insert` of the set.
unfoldable pub erase : String → List String → List String
erase uri [] = []
erase uri (x ∷ xs) = let rest = erase uri xs in if x == uri then rest else x ∷ rest

abbrev pub insert : String → List String → List String
insert uri xs = if contains xs uri then xs else uri ∷ xs

module _ {S : Type 0} (C : Ctl S) where
  abbrev pub State : Type 0
  State = EngineState S

  abbrev pub forget : String → State → State
  forget uri e = record e { fetched_apps = erase uri e.fetched_apps }

  abbrev pub remember : String → State → State
  remember uri e = record e { fetched_apps = insert uri e.fetched_apps }

  -- A command, which changes the device only.
  abbrev pub exec_on : Command → State → Ran × State
  exec_on c e = let (r, s) = C.exec c e.device in (r, record e { device = s })

  -- The exit code of a pull that lacks space. Where its error output cannot be read, the exception
  -- leaves the handler, and `fetch`.
  abbrev insufficient_space : String → String → Option AppResult
  insufficient_space stderr what = C.parse_usage stderr >>= λ (path, required). some (record {
    status = ResultId.insufficient_space;
    err = what;
    stat = with_required required (C.storage_space path);
  })

  abbrev pub pull_result : Ran → Option AppResult
  pull_result (Ran.output out) = some (result_of ResultId.ok "")
  pull_result (Ran.thrown what) = some (result_of ResultId.failed what)
  pull_result (Ran.exec_error code stderr what) =
      if code == pos 100
      then insufficient_space stderr what
      else some (result_of ResultId.failed what)

  abbrev pub with_proxy : Read (String × String) → State → Read (Bool × State)
  with_proxy (Read.failed what) e = Read.failed what
  with_proxy (Read.got (url, ca)) e = Read.got (
      if is_empty url
      then (false, e)
      else (true, record e { device = C.set_proxy (url, ca) e.device }))

  -- Whether the proxy was set, and the state with it.
  abbrev pub use_proxy : Option (S → Read (String × String)) → State → Read (Bool × State)
  use_proxy none e = Read.got (false, e)
  use_proxy (some provider) e = with_proxy (provider e.device) e

  abbrev pub pulled : String → Ran → State → State
  pulled uri (Ran.output out) e = remember uri e
  pulled uri (Ran.exec_error code stderr what) e = e
  pulled uri (Ran.thrown what) e = e

  abbrev pub end_fetch : Bool → Option AppResult → State → Option AppResult × State
  end_fetch was_proxy_set none e = (none, e)
  end_fetch true (some r) e = (some r, record e { device = C.unset_proxy e.device })
  end_fetch false (some r) e = (some r, e)

  abbrev pub pull_with : String → Read (Bool × State) → State → Option AppResult × State
  pull_with uri (Read.failed what) e = (some (result_of ResultId.failed what), e)
  pull_with uri (Read.got (was_proxy_set, e1)) e =
      let (r, e2) = exec_on (Command.pull uri) e1 in
      end_fetch was_proxy_set (pull_result r) (pulled uri r e2)

  -- `fetch`: what was known of the app is forgotten first.
  unfoldable pub fetch_app : String → State → Option AppResult × State
  unfolding erase with_required
  fetch_app uri e =
      let e1 = forget uri e in
      pull_with uri (if C.has_local_source then Read.got (false, e1) else use_proxy C.proxy e1) e1

  -- `remove`: the app is uninstalled unless it could not be stopped. Exceptions are logged.
  unfoldable pub remove_app : String × String → State → State
  unfolding erase
  remove_app (name, uri) e =
      let (r, e1) = exec_on (Command.stop name) (forget uri e) in
      elim r [ Ran.output out ↦ (exec_on (Command.uninstall name) e1).1 | _ ↦ e1 ]

  abbrev pub by_check : String → Option (Option Bool) → State → Option Bool × State
  by_check uri (some (some true)) e = (some true, remember uri e)
  by_check uri (some (some false)) e = (some false, e)
  by_check uri (some none) e = (some false, e)
  by_check uri none e = (none, e)

  abbrev pub fetch_checked : String → Ran → State → Option Bool × State
  fetch_checked uri (Ran.exec_error code stderr what) e = (some false, e)
  fetch_checked uri (Ran.thrown what) e = (none, e)
  fetch_checked uri (Ran.output out) e = by_check uri (C.parse_fetch_check out) e

  -- `isAppFetched`: an exception other than an `ExecError` is thrown again.
  unfoldable pub is_app_fetched : String → State → Option Bool × State
  is_app_fetched uri e =
      if contains e.fetched_apps uri
      then (some true, e)
      else let (r, e1) = exec_on (Command.check uri) e in fetch_checked uri r e1

  abbrev pub install_checked : String → Ran → Option Bool
  install_checked uri (Ran.exec_error code stderr what) = some false
  install_checked uri (Ran.thrown what) = none
  install_checked uri (Ran.output out) = C.parse_install_check uri out

  -- `isAppInstalled`
  unfoldable pub is_app_installed : String → State → Option Bool × State
  is_app_installed uri e =
      let (r, e1) = exec_on (Command.check_install uri) e in (install_checked uri r, e1)

  -- `installAppAndImages`
  unfoldable pub install_app_and_images : String → State → Ran × State
  install_app_and_images uri e = exec_on (Command.install uri) e

-- ===== src/Updates/Log.antt =====
-- The storage and the package manager that `LiteClient` uses, and what it reads from the
-- installation log: src/helpers.cc, and `getRollbackTarget` and `isRollback` of src/liteclient.cc.
use aktualizr_lite.Target.{UptaneTarget}
use aktualizr_lite.Prelude.{
  Bool, List, Option, String, [], any, false, int_eq, keep, nat_eq, none, not, some, string_eq,
  ◌&&◌, ◌==◌, ◌||◌, ◌∷◌,
}
use aktualizr_lite.Results.{DownloadResult, InstallMode, InstallationResult, ResultCode}
use aktualizr_lite.Api.Lite.{SaveMode}

pub record Platform : Type 1 where
  pub State : Type 0
  -- `INvStorage::loadPrimaryInstallationLog`: only the versions that were installed, and whether the
  -- current one counts among them, which has a default; the newest is the last.
  pub known_versions : State → List UptaneTarget
  pub all_installed : State → List UptaneTarget
  pub installed_versions : Bool → State → List UptaneTarget
  pub pending : State → Option UptaneTarget
  -- `saveInstalledVersion`
  pub save : UptaneTarget → SaveMode → State → State
  pub current : State → UptaneTarget
  -- `writeCurrentTarget` and `updateRequestHeaders`
  pub write_current : UptaneTarget → State → State
  pub update_headers : State → State
  -- The package manager and the deployment that waits for a reboot.
  pub download : UptaneTarget → State → DownloadResult × State
  pub install : UptaneTarget → InstallMode → State → InstallationResult × State
  pub finalize : UptaneTarget → State → InstallationResult × State
  pub pending_hash : State → String
  -- `FlowControlToken::canContinue`, true where there is no token.
  pub can_continue : State → Bool
  pub load_keys : State → State
  pub callback : String → UptaneTarget → State → State
  pub notify_install_started : UptaneTarget → State → State
  pub notify_install_finished : UptaneTarget → InstallationResult → State → State
  -- `InstallationResult::isSuccess` and `needCompletion`.
  pub is_success : ResultCode → Bool
  pub need_completion : ResultCode → Bool

-- Whether a target of the name is in the list.
abbrev pub has_name : String → List UptaneTarget → Bool
has_name name ts = any (λ u. u.filename == name) ts

abbrev pub is_hash_of : Option UptaneTarget → UptaneTarget → Bool
is_hash_of none t = false
is_hash_of (some p) t = t.sha256 == p.sha256

-- Whether an element passes, from the last one on.
abbrev pub any_from_end {ℓ} : {A : Type ℓ} → (A → Bool) → List A → Bool
any_from_end p [] = false
any_from_end p (x ∷ xs) = any_from_end p xs || p x

module _ (P : Platform) where
  open P use {State}

  -- `get_known_but_not_installed_versions`
  unfoldable pub known_but_not_installed : State → List UptaneTarget
  known_but_not_installed s =
      keep (λ t. not (has_name t.filename (P.all_installed s))) (P.known_versions s)

  -- `known_local_target`
  unfoldable pub known_local_target : UptaneTarget → List UptaneTarget → State → Bool
  known_local_target t versions s =
      any_from_end (λ it. it.filename == t.filename && not (is_hash_of (P.pending s) it)) versions

  -- `isRollback`
  unfoldable pub is_failing : UptaneTarget → State → Bool
  unfolding known_but_not_installed known_local_target
  is_failing t s = known_local_target t (known_but_not_installed s) s

  abbrev last : List UptaneTarget → Option UptaneTarget
  last [] = none
  last (t ∷ []) = some t
  last (t ∷ t' ∷ ts) = last (t' ∷ ts)

  -- `getRollbackTarget`
  unfoldable pub rollback_target : Bool → State → Option UptaneTarget
  rollback_target allow_current s = last (P.installed_versions allow_current s)

-- ===== src/Updates/Marking.antt =====
-- A target whose update fails is from then on a failing one, by src/liteclient.cc.
use aktualizr_lite.Results.{InstallMode, InstallationResult, ResultCode}
use aktualizr_lite.Target.{UptaneTarget}
use aktualizr_lite.Updates.LogLaws.{IsKnownBad, is_failing_iff}
use aktualizr_lite.Updates.Steps.{
  Updater, finalize_pending, finalize_update, install_update, is_update_failure, publish,
  record_install,
}
use aktualizr_lite.Prelude.{
  inl, inr, ◌⊎◌, Bool, Memᴰ, String, ap, arith, eq_iff, false, if◌then◌else◌, refl, some, subst,
  sym, true, ◌∙◌, ◌≡◌,
}
use aktualizr_lite.Updates.Log.{Platform, has_name, is_failing, is_hash_of}
use aktualizr_lite.Api.Lite.{none_mode}

-- Two states with the same installation log.
abbrev pub SameLog : (P : Platform) → P.State → P.State → Type 0
SameLog P s s' =
    (P.known_versions s' ≡ P.known_versions s)
    × (P.all_installed s' ≡ P.all_installed s)
    × (P.pending s' ≡ P.pending s)

-- What the storage promises of a version that is saved with no flag, and what leaves the log alone.
pub record Marks (P : Platform) : Type 0 where
  pub save_known :
      (t : UptaneTarget) (s : P.State) → Memᴰ t (P.known_versions (P.save t none_mode s))
  pub save_installed :
      (t : UptaneTarget) (s : P.State)
      → has_name t.filename (P.all_installed s) ≡ false
      → has_name t.filename (P.all_installed (P.save t none_mode s)) ≡ false
  pub save_pending :
      (t : UptaneTarget) (s : P.State) → is_hash_of (P.pending (P.save t none_mode s)) t ≡ false
  pub callback_same : (m : String) (t : UptaneTarget) (s : P.State) → SameLog P s (P.callback m t s)
  pub install_same :
      (t : UptaneTarget) (m : InstallMode) (s : P.State) → SameLog P s (P.install t m s).1
  pub finalize_same : (t : UptaneTarget) (s : P.State) → SameLog P s (P.finalize t s).1
  pub write_same : (t : UptaneTarget) (s : P.State) → SameLog P s (P.write_current t s)
  pub headers_same : (s : P.State) → SameLog P s (P.update_headers s)
  pub started_same : (t : UptaneTarget) (s : P.State) → SameLog P s (P.notify_install_started t s)
  pub finished_same :
      (t : UptaneTarget) (r : InstallationResult) (s : P.State)
      → SameLog P s (P.notify_install_finished t r s)
  pub failure_code : (c : ResultCode) → is_update_failure c ≡ true → P.is_success c ≡ false

-- A result of which the boot was rolled back, or the apps did not start.
abbrev pub HasFailed : ResultCode → Type 0
HasFailed c = (c ≡ ResultCode.install_failed) ⊎ (c ≡ ResultCode.custom_error)

HasFailed-failure : (c : ResultCode) → HasFailed c → is_update_failure c ≡ true
unfolding is_update_failure
HasFailed-failure c (inl e) = ap is_update_failure e
HasFailed-failure c (inr e) = ap is_update_failure e

module _ (P : Platform) (M : Marks P) where
  SameLog-IsKnownBad :
      (name : String) (u : UptaneTarget) (s s' : P.State)
      → SameLog P s s'
      → IsKnownBad P name s u
      → IsKnownBad P name s' u
  SameLog-IsKnownBad name u s s' (k, i, p) (m, n, f, h) =
      (subst (Memᴰ u) (sym k) m, n, ap (has_name u.filename) i ∙ f, ap (λ o. is_hash_of o u) p ∙ h)

  -- A version that is saved with no flag, and was not installed before, is a failing one.
  saved-IsKnownBad :
      (t : UptaneTarget) (s : P.State)
      → has_name t.filename (P.all_installed s) ≡ false
      → IsKnownBad P t.filename (P.save t none_mode s) t
  saved-IsKnownBad t s f =
      (M.save_known t s, (eq_iff _ _).1 refl, M.save_installed t s f, M.save_pending t s)

  publish-IsKnownBad :
      (name : String) (u : UptaneTarget) (s : P.State)
      → IsKnownBad P name s u
      → IsKnownBad P name (publish P s) u
  unfolding publish
  publish-IsKnownBad name u s b =
      let w = P.write_current (P.current s) s in
      SameLog-IsKnownBad name u w (P.update_headers w) (M.headers_same w)
        (SameLog-IsKnownBad name u s w (M.write_same (P.current s) s) b)

  finalize_pending-IsKnownBad :
      (t : UptaneTarget) (s : P.State)
      → has_name t.filename (P.all_installed s) ≡ false
      → is_update_failure (finalize_pending P t s).0.code ≡ true
      → IsKnownBad P t.filename (finalize_pending P t s).1 t
  unfolding finalize_pending
  finalize_pending-IsKnownBad t s f bad =
      let s' = (P.finalize t s).1 in
      rw (M.failure_code _ bad, bad)
        (saved-IsKnownBad t s' (ap (has_name t.filename) (M.finalize_same t s).1 ∙ f))

  notified-IsKnownBad :
      (b : Bool) (t : UptaneTarget) (ir : InstallationResult) (s : P.State)
      → IsKnownBad P t.filename s t
      → IsKnownBad P t.filename (if b then s else P.notify_install_finished t ir s) t
  notified-IsKnownBad true t ir s known = known
  notified-IsKnownBad false t ir s known =
      SameLog-IsKnownBad t.filename t s (P.notify_install_finished t ir s) (M.finished_same t ir s)
        known

  finalize_update-step :
      (t : UptaneTarget) (s : P.State)
      → P.pending s ≡ some t
      → let (ir, s1) = finalize_pending P t (P.callback "install-final-pre" t s) in
        finalize_update P s ≡ (
          ir,
          if P.need_completion ir.code
              then publish P s1
              else P.notify_install_finished t ir (publish P s1),
        )
  unfolding finalize_update
  finalize_update-step t s p = rw (p, finalize_update) refl

  record_install-saved :
      (t : UptaneTarget) (mode : InstallMode) (ir : InstallationResult) (c : Updater P.State)
      → is_update_failure (record_install P t mode ir c).0.code ≡ true
      → (record_install P t mode ir c).1.platform ≡ P.save t none_mode c.platform
  unfolding record_install is_update_failure
  record_install-saved t mode ir c bad = ground arith

  -- A target whose pending installation is rolled back at boot, or whose apps do not start after
  -- the boot, is a failing target after the finalization, if no version of its name was installed
  -- with success before.
  pub finalize_update-is_failing :
      (t : UptaneTarget) (s : P.State)
      → P.pending s ≡ some t
      → has_name t.filename (P.all_installed s) ≡ false
      → HasFailed (finalize_update P s).0.code
      → is_failing P t (finalize_update P s).1 ≡ true
  finalize_update-is_failing t s p f failed =
      let bad = HasFailed-failure _ failed in
      let s0 = P.callback "install-final-pre" t s in
      let (ir, s1) = finalize_pending P t s0 in
      let step = finalize_update-step t s p in
      let bad' = subst (λ r. is_update_failure r.0.code ≡ true) step bad in
      let known = publish-IsKnownBad t.filename t s1 (
        finalize_pending-IsKnownBad t s0
          (ap (has_name t.filename) (M.callback_same "install-final-pre" t s).1 ∙ f) bad') in
      subst (λ r. is_failing P t r.1 ≡ true) (sym step)
        ((is_failing_iff P t _).1
          (t, notified-IsKnownBad (P.need_completion ir.code) t ir (publish P s1) known))

  -- A target whose installation fails, with the code of a failed installation or of a failure of
  -- the apps, is a failing target after it, if no version of its name was installed with success
  -- before.
  pub install_update-is_failing :
      (t : UptaneTarget) (mode : InstallMode) (c : Updater P.State)
      → has_name t.filename (P.all_installed c.platform) ≡ false
      → HasFailed (install_update P t mode c).0.code
      → is_failing P t (install_update P t mode c).1.platform ≡ true
  unfolding install_update
  install_update-is_failing t mode c f failed =
      let bad = HasFailed-failure _ failed in
      let s0 = P.notify_install_started t c.platform in
      let (ir, s1) = P.install t mode s0 in
      let (ir', c2) = record_install P t mode ir (record c { platform = s1 }) in
      let saved = record_install-saved t mode ir (record c { platform = s1 }) bad in
      let f1 =
        ap (has_name t.filename) (M.install_same t mode s0).1
        ∙ (ap (has_name t.filename) (M.started_same t c.platform).1 ∙ f) in
      let known = subst (λ s. IsKnownBad P t.filename s t) (sym saved) (saved-IsKnownBad t s1 f1) in
      (is_failing_iff P t _).1
        (t, SameLog-IsKnownBad t.filename t c2.platform _ (M.finished_same t ir' c2.platform) known)

-- ===== src/Rootfs/InstallLaws.antt =====
-- The rollback protection of the boot firmware, and what `install` deploys.
use mathlib.Core.Option.{some-injective}
use aktualizr_lite.Bootloader.Version.{TargetVersion}
use aktualizr_lite.Results.{InstallationResult, ResultCode}
use aktualizr_lite.Rootfs.Host.{Host}
use aktualizr_lite.Rootfs.Install.{
  notify_installed, is_failure, compare_versions, current_text, deploy, install_checked,
  install_commit_tree, is_deployed_anew, is_ok_code, or_zero, verify_bootloader_update,
  verify_version,
}
use aktualizr_lite.Target.{UptaneTarget}
use aktualizr_lite.Prelude.{
  sym, subst, false-ne-true, Bool, Bool-cases, Option-cases, String, ap, arith, eq_iff, false,
  if◌then◌else◌, inl, inr, int_eq, ltb, nat_eq, none_not_some, not, refl, some, string_eq, true, ℕ,
  ◌&&◌, ◌==◌, ◌≡◌, ◌≢◌, ◌≤◌, ◌⊎◌,
}

code_apart : false ≡ true → ⊥
code_apart e = elim (false-ne-true e) [ ]

module _ {State : Type 0} (H : Host State) where
  -- The number of the current version, 0 where it cannot be read or is no number.
  abbrev pub current_number : State → ℕ
  current_number s = or_zero (H.lexical_cast (current_text H (H.boot_fw.get_current_version s)))

  -- Whether the version of the target is one to which the boot firmware may go: it is not known, or it
  -- is a number which is not lower than the current one.
  abbrev pub IsForward : TargetVersion → State → Type 0
  IsForward (TargetVersion.malformed e) s = ⊥
  IsForward (TargetVersion.unreadable e) s = Unit
  IsForward (TargetVersion.found v) s =
      (n : ℕ) × (H.lexical_cast v ≡ some n) × (current_number s ≤ n)

  -- Whether the boot firmware lets a target be installed.
  abbrev pub IsAdmitted : UptaneTarget → State → Type 0
  IsAdmitted t s =
      ((H.update_block && H.boot_fw.is_update_in_progress s) ≡ false)
      × (H.boot_fw.is_rollback_protection_enabled s ≡ true
          → IsForward (H.boot_fw.get_target_version t.sha256 s) s)

  -- A verdict is that of a condition: it is good if the condition holds, and is not if it does not.
  abbrev pub Decides : InstallationResult → Type 0 → Type 0
  Decides r P = ((r.code ≡ ResultCode.ok) × P) ⊎ ((is_ok_code H r.code ≡ false) × ¬ P)

  Decides-choice :
      {P : Type 0} (b : Bool) (r r' : InstallationResult)
      → is_ok_code H r.code ≡ false
      → r'.code ≡ ResultCode.ok
      → (b ≡ true → ¬ P)
      → (b ≡ false → P)
      → Decides (if b then r else r') P
  Decides-choice true r r' f o t g = inr (f, t refl)
  Decides-choice false r r' f o t g = inl (o, g refl)

  compare_versions-Decides :
      (v : String) (s : State)
      → Decides
          (compare_versions H v (H.boot_fw.get_current_version s))
          (IsForward (TargetVersion.found v) s)
  unfolding compare_versions
  compare_versions-Decides v s = elim (Option-cases (H.lexical_cast v)) [
    | inl e ↦ rw (compare_versions, e) (inr (refl, λ p. none_not_some p.1))
    | inr (n, e) ↦
        rw (compare_versions, e)
          (Decides-choice (ltb n (current_number s)) _ _ refl refl
            (λ b p. let q = some-injective _ _ p.1 in ground (arith, b, q, p.2))
            (λ b. (n, refl, ground (arith, b))))
  ]

  verify_version-Decides :
      (v : TargetVersion) (s : State)
      → Decides (verify_version H v (H.boot_fw.get_current_version s)) (IsForward v s)
  unfolding verify_version
  verify_version-Decides (TargetVersion.malformed e) s = inr (refl, λ p. p)
  verify_version-Decides (TargetVersion.unreadable e) s = inl (refl, tt)
  verify_version-Decides (TargetVersion.found v) s = compare_versions-Decides v s

  Decides-gates :
      {Q : Type 0} (blocked protected : Bool) (waits none_needed r : InstallationResult)
      → is_ok_code H waits.code ≡ false
      → none_needed.code ≡ ResultCode.ok
      → Decides r Q
      → Decides
          (if blocked then waits else if not protected then none_needed else r)
          ((blocked ≡ false) × (protected ≡ true → Q))
  Decides-gates true protected waits none_needed r w n d = inr (w, λ p. ground (arith, p.0))
  Decides-gates false false waits none_needed r w n d = inl (n, (refl, λ p. ground (arith, p)))
  Decides-gates false true waits none_needed r w n (inl (o, q)) = inl (o, (refl, λ p. q))
  Decides-gates false true waits none_needed r w n (inr (o, q)) = inr (o, λ p. q (p.1 refl))

  -- What `verifyBootloaderUpdate` says is good just if the boot firmware lets the target be installed:
  -- no update of it is waited for, and if its rollback protection is on, the version of the target's
  -- firmware cannot be read from the commit, or is a number not lower than the current one, which is 0
  -- where it cannot be read or is no number.
  pub verify_bootloader_update-Decides :
      (t : UptaneTarget) (s : State) → Decides (verify_bootloader_update H t s) (IsAdmitted t s)
  unfolding verify_bootloader_update
  verify_bootloader_update-Decides t s =
      Decides-gates (H.update_block && H.boot_fw.is_update_in_progress s)
        (H.boot_fw.is_rollback_protection_enabled s) _ _ _ refl refl
        (verify_version-Decides (H.boot_fw.get_target_version t.sha256 s) s)

  -- How the deployment of a target ends, where OSTree has given a result and a state: after a failure
  -- nothing more is done; otherwise the deployments are read again and the boot firmware is told.
  abbrev pub Ends : UptaneTarget → InstallationResult × State → InstallationResult × State → Type 0
  Ends t (res, s1) r =
      (res.code ≡ ResultCode.install_failed) × (r ≡ (res, s1))
      ⊎ (res.code ≢ ResultCode.install_failed)
        × (r ≡ (res, H.ostree_install_notify t (H.reload s1)))

  -- What an installation has done: handed an admitted target to OSTree, or refused the target and
  -- left the device as it was.
  abbrev pub Deployed : UptaneTarget → State → InstallationResult × State → Type 0
  Deployed t s r = IsAdmitted t s × Ends t (H.ostree_install t (H.update_notify s)) r

  abbrev pub Refused : UptaneTarget → State → InstallationResult × State → Type 0
  Refused t s (res, s') = (¬ IsAdmitted t s) × (is_ok_code H res.code ≡ false) × (s' ≡ s)

  beq_of_ne : (a b : String) → a ≢ b → (a == b) ≡ false
  beq_of_ne a b d = elim (Bool-cases (a == b)) [
    | inl e ↦ elim (d ((eq_iff a b).0 e)) [ ]
    | inr e ↦ e
  ]

  failure_cases :
      (c : ResultCode) → (c ≡ ResultCode.install_failed) ⊎ (c ≢ ResultCode.install_failed)
  failure_cases ResultCode.install_failed = inl refl
  failure_cases ResultCode.ok = inr (λ e. code_apart (ap is_failure e))
  failure_cases ResultCode.need_completion = inr (λ e. code_apart (ap is_failure e))
  failure_cases ResultCode.download_failed = inr (λ e. code_apart (ap is_failure e))
  failure_cases ResultCode.verification_failed = inr (λ e. code_apart (ap is_failure e))
  failure_cases ResultCode.custom_error = inr (λ e. code_apart (ap is_failure e))
  failure_cases ResultCode.unknown = inr (λ e. code_apart (ap is_failure e))

  deploy-Ends :
      (t : UptaneTarget) (s : State)
      → ((H.current s).sha256 == t.sha256) ≡ false
      → Ends t (H.ostree_install t (H.update_notify s)) (deploy H t s)
  unfolding deploy notify_installed
  deploy-Ends t s ne =
      let (res, s1) = H.ostree_install t (H.update_notify s) in
      elim (failure_cases res.code) [
        | inl f ↦ inl (f, rw (deploy, f) refl)
        | inr g ↦ inr (g, ground (arith, ne, g))
      ]

  -- Where the boot firmware supports updates, a target with another hash than the one that runs is
  -- handed to OSTree if the boot firmware admits it, and the result of OSTree is given; unless this
  -- tells of a failed installation, the deployments are read again and the boot firmware is told of
  -- the target. A target that is not admitted is refused, with the device left as it was.
  pub install_commit_tree-protected :
      (t : UptaneTarget) (s : State)
      → H.boot_fw.is_update_supported ≡ true
      → (H.current s).sha256 ≢ t.sha256
      → Deployed t s (install_commit_tree H t s) ⊎ Refused t s (install_commit_tree H t s)
  unfolding install_commit_tree install_checked is_deployed_anew
  install_commit_tree-protected t s sup d =
      let ne = beq_of_ne _ _ d in
      elim (verify_bootloader_update-Decides t s) [
        | inl (o, a) ↦
            let k = ap (is_ok_code H) o in
            let same : install_commit_tree H t s ≡ deploy H t s =
              rw (install_commit_tree, ne, sup, k) refl in
            inl (
              a,
              subst (Ends t (H.ostree_install t (H.update_notify s))) (sym same)
                  (deploy-Ends t s ne),
            )
        | inr (o, a) ↦ inr (rw (install_commit_tree, ne, sup, o) (a, o, refl))
      ]

-- ===== src/Rootfs/RollbackLaws.antt =====
-- The rollback protection with the bootloader's implementation: from the version file of a commit and
-- the variables of the bootloader to the verdict of `install`.
use mathlib.Core.Option.{some-injective}
use aktualizr_lite.Bootloader.Env.{
  Boot, FileRead, Firmware, get_cmd, get_current_version, get_env_cmd, get_env_var,
  is_rollback_protection_enabled, is_update_supported, read_result,
}
use aktualizr_lite.Bootloader.Implements.{bootloader_status}
use aktualizr_lite.Bootloader.Version.{TargetVersion, version_file}
use aktualizr_lite.Bootloader.VersionLaws.{get_target_version-line, version_line}
use aktualizr_lite.Rootfs.Host.{Host}
use aktualizr_lite.Rootfs.Install.{current_text, install_commit_tree, or_zero}
use aktualizr_lite.Rootfs.InstallLaws.{
  IsForward, Refused, current_number, install_commit_tree-protected,
}
use aktualizr_lite.Target.{UptaneTarget}
use aktualizr_lite.Prelude.{
  String, ap, arith, false, inl, inr, is_empty, pos, refl, some, subst, sym, true, ℕ, ◌<>◌, ◌<◌,
  ◌∙◌, ◌≡◌, ◌≢◌,
}

-- What the bootloader's command prints of a variable.
abbrev pub Prints : (F : Firmware) → String → String → Boot F.State → Type 0
Prints F name val b = (F.shell (get_cmd F b.env_cmd_vars name) b.world).0 ≡ (pos 0, val)

module _ (F : Firmware) where
  get_env_var-Prints :
      (name val : String) (b : Boot F.State)
      → is_update_supported F ≡ true
      → Prints F name val b
      → get_env_var F name b ≡ (F.trim val, true)
  unfolding is_update_supported get_env_var read_result
  get_env_var-Prints name val b h e =
      let n : is_empty (get_env_cmd F.mode) ≡ false = ground (arith, h) in
      rw (get_env_var, n, e) refl

  is_rollback_protection_enabled-Prints :
      (b : Boot F.State)
      → is_update_supported F ≡ true
      → Prints F "rollback_protection" "1" b
      → F.trim "1" ≡ "1"
      → is_rollback_protection_enabled F b ≡ true
  unfolding is_rollback_protection_enabled
  is_rollback_protection_enabled-Prints b sup p one =
      rw
        (
          is_rollback_protection_enabled,
          sup,
          get_env_var-Prints "rollback_protection" "1" b sup p,
          one,
        )
        refl

  forward_contradiction :
      (H : Host (Boot F.State)) (b : Boot F.State) (v : String) (n m : ℕ)
      → IsForward H (TargetVersion.found v) b
      → H.lexical_cast v ≡ some n
      → current_number H b ≡ m
      → n < m
      → ⊥
  forward_contradiction H b v n m (n', cv', le) cv c lt =
      let q = some-injective _ _ (sym cv' ∙ cv) in ground (arith, q, c, le, lt)

  -- With rollback protection, a target whose commit has the version file of a lower version than the
  -- bootloader prints is refused: nothing of it is deployed.
  pub install_commit_tree-Refused :
      (H : Host (Boot F.State)) (t : UptaneTarget) (b : Boot F.State) (v cur : String) (n m : ℕ)
      → H.boot_fw ≡ bootloader_status F
      → is_update_supported F ≡ true
      → (H.current b).sha256 ≢ t.sha256
      → Prints F "rollback_protection" "1" b
      → Prints F "bootfirmware_version" cur b
      → F.trim "1" ≡ "1"
      → F.trim (v <> "\n") ≡ v
      → F.commit_file t.sha256 version_file b.world ≡ FileRead.content (version_line v)
      → H.lexical_cast v ≡ some n
      → H.lexical_cast (F.trim cur) ≡ some m
      → n < m
      → Refused H t b (install_commit_tree H t b)
  unfolding bootloader_status get_current_version
  install_commit_tree-Refused H t b v cur n m e sup d p q one tv f cv cc lt =
      let prot =
        ap (λ w. w.is_rollback_protection_enabled b) e
        ∙ is_rollback_protection_enabled-Prints b sup p one in
      let ver =
        ap (λ w. w.get_target_version t.sha256 b) e
        ∙ get_target_version-line F v t.sha256 b.world tv f in
      let read =
        ap (λ w. w.get_current_version b) e
        ∙ get_env_var-Prints "bootfirmware_version" cur b sup q in
      let number = ap (λ w. or_zero (H.lexical_cast (current_text H w))) read ∙ ap or_zero cc in
      elim (install_commit_tree-protected H t b (ap (λ w. w.is_update_supported) e ∙ sup) d) [
        | inl (a, r) ↦
            elim (forward_contradiction H b v n m (subst (λ w. IsForward H w b) ver (a.1 prot)) cv
              number lt) [ ]
        | inr r ↦ r
      ]

-- ===== src/Bootloader/NotifyLaws.antt =====
-- A deployment with another version of the boot firmware makes `installNotify` ask for its update.
use mathlib.Core.Option.{some-injective, none-ne-some}
use aktualizr_lite.Target.{UptaneTarget}
use aktualizr_lite.Bootloader.Notify.{install_notify, is_update_due, notify_by, set_upgrade}
use aktualizr_lite.Bootloader.Version.{get_deployment_version, get_target_dir}
use aktualizr_lite.Bootloader.Env.{
  Boot, Firmware, RollbackMode, VersionStrRes, get_cmd, get_current_version, get_env_cmd,
  get_env_var, is_update_in_progress, is_update_supported, read_result, set_cmd, set_env_cmd,
  set_env_var,
}
use aktualizr_lite.Prelude.{
  eq_iff, string_eq, ◌≢◌, ◌==◌, ◌⊎◌, false-ne-true, Bool, Bool-cases, Option-cases, String, ap,
  arith, false, if◌then◌else◌, inl, inr, is_empty, none, not, pos, refl, some, subst, sym, true,
  ◌&&◌, ◌<>◌, ◌∙◌, ◌≡◌,
}

-- The command that sets the variable `bootupgrade_available` leaves the value to be read.
pub record Stores (F : Firmware) (vars : String) : Type 0 where
  pub reads :
      (s : F.State)
      → (F.shell
          (get_cmd F vars "bootupgrade_available")
          (F.shell (set_cmd F vars "bootupgrade_available" "1") s).1).0
        ≡ (pos 0, "1")
  pub trims : F.trim "1" ≡ "1"

-- The state with the variables that the command of `fio_efi` has in front.
abbrev pub with_vars : {S : Type 0} → String → Boot S → Boot S
with_vars vars b = record b { env_cmd_vars = vars }

-- The modes that have a command to print have one to set.
has_commands :
    (m : RollbackMode)
    → not (is_empty (get_env_cmd m)) ≡ true
    → (is_empty (get_env_cmd m) ≡ false) × (is_empty (set_env_cmd m) ≡ false)
unfolding get_env_cmd set_env_cmd
has_commands RollbackMode.bootloader_none h = ground arith
has_commands RollbackMode.uboot_generic h = ground arith
has_commands RollbackMode.uboot_masked h = (refl, refl)
has_commands RollbackMode.fio_vb h = (refl, refl)
has_commands RollbackMode.fio_efi h = (refl, refl)
has_commands RollbackMode.other h = ground arith

module _ (F : Firmware) where
  set_env_var-is_update_in_progress :
      (b : Boot F.State)
      → Stores F b.env_cmd_vars
      → is_update_supported F ≡ true
      → is_update_in_progress F (set_env_var F "bootupgrade_available" "1" b).1 ≡ true
  unfolding is_update_supported is_update_in_progress set_env_var get_env_var read_result
  set_env_var-is_update_in_progress b st h =
      let (g, e) = has_commands F.mode h in
      rw
        (
          is_update_in_progress,
          is_update_supported,
          set_env_var,
          e,
          get_env_var,
          g,
          st.reads b.world,
          st.trims,
        )
        refl

  -- Whether the deployment has a version, which differs from that of the bootloader or this one is
  -- not known.
  abbrev pub differs : VersionStrRes → VersionStrRes → Bool
  differs (ver, is_known) cur = is_known && is_update_due ver cur

  -- The update is asked for, or nothing is changed.
  abbrev pub Notified : Bool → F.State → Boot F.State → Type 0
  Notified true s b' = is_update_in_progress F b' ≡ true
  Notified false s b' = b'.world ≡ s

  Notified-choice :
      (b b1 : Boot F.State) (is_known due d : Bool)
      → is_update_in_progress F b1 ≡ true
      → (is_known && due) ≡ d
      → Notified d b.world (if not is_known then b else if due then b1 else b)
  Notified-choice b b1 true true true p e = p
  Notified-choice b b1 true false false p e = refl
  Notified-choice b b1 false due false p e = refl
  Notified-choice b b1 true true false p e = ground arith
  Notified-choice b b1 true false true p e = ground arith
  Notified-choice b b1 false due true p e = ground arith

  set_upgrade-Notified :
      (hash : String) (b : Boot F.State) (d : Bool)
      → Stores F b.env_cmd_vars
      → is_update_supported F ≡ true
      → differs (get_deployment_version F hash b.world) (get_current_version F b) ≡ d
      → Notified d b.world (set_upgrade F hash b)
  unfolding set_upgrade
  set_upgrade-Notified hash b d st h e =
      let (v, known) = get_deployment_version F hash b.world in
      Notified-choice b (set_env_var F "bootupgrade_available" "1" b).1 known
        (is_update_due v (get_current_version F b)) d (set_env_var-is_update_in_progress b st h) e

  set_env_var-env_cmd_vars :
      (name val : String) (b : Boot F.State)
      → (set_env_var F name val b).1.env_cmd_vars ≡ b.env_cmd_vars
  unfolding set_env_var
  set_env_var-env_cmd_vars name val b = elim (Bool-cases (is_empty (set_env_cmd F.mode))) [
    | inl e ↦ rw (set_env_var, e) refl
    | inr e ↦ rw (set_env_var, e) refl
  ]

  vars_choice :
      (b b1 : Boot F.State) (is_known due : Bool)
      → b1.env_cmd_vars ≡ b.env_cmd_vars
      → (if not is_known then b else if due then b1 else b).env_cmd_vars ≡ b.env_cmd_vars
  vars_choice b b1 true true v = v
  vars_choice b b1 true false v = refl
  vars_choice b b1 false due v = refl

  set_upgrade-env_cmd_vars :
      (hash : String) (b : Boot F.State) → (set_upgrade F hash b).env_cmd_vars ≡ b.env_cmd_vars
  unfolding set_upgrade
  set_upgrade-env_cmd_vars hash b =
      let (v, known) = get_deployment_version F hash b.world in
      vars_choice b (set_env_var F "bootupgrade_available" "1" b).1 known
        (is_update_due v (get_current_version F b))
        (set_env_var-env_cmd_vars "bootupgrade_available" "1" b)

  -- In a mode that supports updates, what is not an exception is what `set_upgrade` gives.
  notify_by-set_upgrade :
      (t : UptaneTarget) (b b' : Boot F.State) (m : RollbackMode)
      → not (is_empty (get_env_cmd m)) ≡ true
      → notify_by F m t b ≡ some b'
      → (vars : String) × (set_upgrade F t.sha256 (with_vars vars b) ≡ b')
  unfolding notify_by get_env_cmd
  notify_by-set_upgrade t b b' RollbackMode.uboot_masked h x =
      (b.env_cmd_vars, some-injective _ _ x)
  notify_by-set_upgrade t b b' RollbackMode.fio_vb h x = (b.env_cmd_vars, some-injective _ _ x)
  notify_by-set_upgrade t b b' RollbackMode.fio_efi h x =
      elim (Option-cases (get_target_dir F t.sha256 b.world)) [
        | inl n ↦
            let s : notify_by F RollbackMode.fio_efi t b ≡ none = rw (notify_by, n) refl in
            elim (none-ne-some _ (sym s ∙ x)) [ ]
        | inr (dir, n) ↦
            let vars = "FIO_OSTREE_TARGET_SYSROOT=" <> dir in
            let s : notify_by F RollbackMode.fio_efi t b
                ≡ some (set_upgrade F t.sha256 (with_vars vars b)) =
              rw (notify_by, n) refl in
            (vars, some-injective _ _ (sym s ∙ x))
      ]
  notify_by-set_upgrade t b b' RollbackMode.bootloader_none h x = ground arith
  notify_by-set_upgrade t b b' RollbackMode.uboot_generic h x = ground arith
  notify_by-set_upgrade t b b' RollbackMode.other h x = ground arith

  install_notify-choice :
      (t : UptaneTarget) (b b' : Boot F.State) (d : Bool)
      → is_update_supported F ≡ true
      → Stores F b'.env_cmd_vars
      → install_notify F t b ≡ some b'
      → differs
          (get_deployment_version F t.sha256 b.world)
          (get_current_version F (with_vars b'.env_cmd_vars b))
        ≡ d
      → Notified d b.world b'
  unfolding install_notify is_update_supported
  install_notify-choice t b b' d h st e x =
      let (vars, p) = notify_by-set_upgrade t b b' F.mode h e in
      let q =
        sym (set_upgrade-env_cmd_vars t.sha256 (with_vars vars b)) ∙ ap (λ c. c.env_cmd_vars) p in
      let x' =
        ap
          (λ u.
            differs (get_deployment_version F t.sha256 b.world)
              (get_current_version F (with_vars u b)))
          q
        ∙ x in
      subst (λ c. Notified d b.world c) p
        (set_upgrade-Notified t.sha256 (with_vars vars b) d (subst (Stores F) (sym q) st) h x')

  -- The deployment has a version, and the version of the bootloader is another one or not known.
  abbrev pub IsDue : VersionStrRes → VersionStrRes → Type 0
  IsDue (ver, is_known) (cur, is_valid) = (is_known ≡ true) × ((is_valid ≡ false) ⊎ (ver ≢ cur))

  differs-IsDue :
      (dep cur : VersionStrRes)
      → (differs dep cur ≡ true → IsDue dep cur) × (differs dep cur ≡ false → ¬ IsDue dep cur)
  unfolding is_update_due
  differs-IsDue (ver, false) (cur, valid) =
      ((λ e. elim (false-ne-true e) [ ]), λ e d. elim (false-ne-true d.0) [ ])
  differs-IsDue (ver, true) (cur, false) =
      ((λ e. (refl, inl refl)), λ e d. elim (false-ne-true (sym e)) [ ])
  differs-IsDue (ver, true) (cur, true) = elim (Bool-cases (ver == cur)) [
    | inl b ↦ (
      (λ e. elim (false-ne-true (sym (ap not b) ∙ e)) [ ]),
      λ e d. elim d.1 [
        | inl v ↦ false-ne-true (sym v)
        | inr ne ↦ ne ((string_eq.decides ver cur).0 b)
      ],
    )
    | inr b ↦ (
      (λ e. (refl, inr (λ same. false-ne-true (sym b ∙ (eq_iff ver cur).1 same)))),
      λ e d. elim (false-ne-true (sym e ∙ ap not b)) [ ],
    )
  ]

  -- In a mode that supports updates, where the command that sets a variable stores it, a notification
  -- that does not throw has made an update of the bootloader be in progress if the version of the
  -- target's deployment is known, and that of the bootloader is another one or is not known; otherwise
  -- it has left the device as it was. The versions are read with the variables that the commands have
  -- in front after it.
  pub install_notify-Notified :
      (t : UptaneTarget) (b b' : Boot F.State)
      → is_update_supported F ≡ true
      → Stores F b'.env_cmd_vars
      → install_notify F t b ≡ some b'
      → let dep = get_deployment_version F t.sha256 b.world in
        let cur = get_current_version F (with_vars b'.env_cmd_vars b) in
        (IsDue dep cur → is_update_in_progress F b' ≡ true) × (¬ IsDue dep cur → b'.world ≡ b.world)
  install_notify-Notified t b b' h st e =
      let dep = get_deployment_version F t.sha256 b.world in
      let cur = get_current_version F (with_vars b'.env_cmd_vars b) in
      elim (Bool-cases (differs dep cur)) [
        | inl d ↦ (
          (λ due. install_notify-choice t b b' true h st e d),
          λ no. elim (no ((differs-IsDue dep cur).0 d)) [ ],
        )
        | inr d ↦ (
          (λ due. elim ((differs-IsDue dep cur).1 d due) [ ]),
          λ no. install_notify-choice t b b' false h st e d,
        )
      ]

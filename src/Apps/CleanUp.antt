-- ===== src/Apps/CleanUp.antt =====
-- When `install` and `finalizeInstall` of src/composeappmanager.cc remove or prune what is stored.
use aktualizr_lite.Apps.InstallLaws.{finish_install-code, unfailed_branch}
use aktualizr_lite.Apps.Choice.{get_apps}
use aktualizr_lite.Apps.Install.{
  finish_install, install_commit, install_now, install_rest, install_target_apps, stop_before,
}
use aktualizr_lite.Results.{InstallationResult}
use aktualizr_lite.Target.{UptaneTarget}
use aktualizr_lite.Prelude.{
  Bool, Bool-cases, List, Option, String, [], ap, arith, if◌then◌else◌, inl, inr, is_nil, none, not,
  refl, some, true, ◌>>=◌, ◌||◌, ◌∙◌, ◌∷◌, ◌≡◌, ◌≢◌, ◌⊎◌,
}
use aktualizr_lite.Apps.Engine.{Apps, Config, Engine, has_key}
use aktualizr_lite.Apps.Manager.{
  Manager, add_text, for_each_removed, install_app, install_apps, is_install_failed,
  is_need_completion, no_sets, stop_all, stop_disabled,
}

-- What the operations before the clean-up leave alone, such as the apps that are stored.
pub record Keeps (E : Engine) (A : Type 0) (stored : E.State → A) : Type 0 where
  pub stop_same : (app : String × String) (s : E.State) → stored (E.stop app s) ≡ stored s
  pub install_same : (app : String × String) (s : E.State) → stored (E.install app s).1 ≡ stored s
  pub run_same : (app : String × String) (s : E.State) → stored (E.run app s).1 ≡ stored s
  pub ostree_install_same :
      (t : UptaneTarget) (s : E.State) → stored (E.ostree_install t s).1 ≡ stored s
  pub ostree_finalize_same :
      (t : UptaneTarget) (s : E.State) → stored (E.ostree_finalize t s).1 ≡ stored s

module _ (E : Engine) (cfg : Config) (A : Type 0) (stored : E.State → A)
    (K : Keeps E A stored) where
  stop_all_same : (apps : Apps) (s : E.State) → stored (stop_all E cfg apps s) ≡ stored s
  unfolding stop_all
  stop_all_same [] s = refl
  stop_all_same (app ∷ apps) s = stop_all_same apps (E.stop app s) ∙ K.stop_same app s

  stop_removed_same :
      (current : Apps) (names : List String) (s : E.State)
      → stored (for_each_removed E cfg E.stop current names s) ≡ stored s
  unfolding for_each_removed
  stop_removed_same current [] s = refl
  stop_removed_same current (name ∷ names) s =
      let ih =
        stop_removed_same current names (if has_key name current then s else E.stop (name, "") s) in
      ih ∙ ground (arith, K.stop_same (name, "") s)

  install_apps_same :
      (just_install : Bool) (apps : Apps) (res : InstallationResult) (s : E.State)
      → stored (install_apps E cfg just_install apps res s).1 ≡ stored s
  unfolding install_apps
  install_apps_same just_install [] res s = refl
  install_apps_same just_install (app ∷ apps) res s =
      let (r, s') = install_app E cfg just_install app s in
      let step : stored s' ≡ stored s = ground (arith, K.install_same app s, K.run_same app s) in
      install_apps_same just_install apps _ s' ∙ step

  install_commit_same :
      (t : UptaneTarget) (m : Manager E.State)
      → stored (install_commit E cfg t m).1 ≡ stored m.device
  unfolding install_commit stop_before stop_disabled
  install_commit_same t m =
      let s1 = stop_disabled E cfg t m.device in
      K.ostree_install_same t (stop_before E cfg t m.sets.fetch_and_update s1)
      ∙ (ground (arith, stop_all_same m.sets.fetch_and_update s1)
          ∙ stop_removed_same (get_apps cfg t.custom.apps) (E.app_dirs m.device) m.device)

  finish_install_gates :
      (started : Bool) (t : UptaneTarget) (res res' : InstallationResult) (s s' : E.State)
      → finish_install E cfg started t res s ≡ some (res', s')
      → (E.is_success res'.code ≡ true) ⊎ (s' ≡ s)
  unfolding finish_install
  finish_install_gates started t res res' s s' e = elim (Bool-cases (E.is_success res.code)) [
    | inl good ↦ inl (ap E.is_success (finish_install-code E cfg started t res res' s s' e) ∙ good)
    | inr bad ↦ inr (ground (arith, bad, e))
  ]

  install_rest_gates :
      (t : UptaneTarget) (apps : Apps) (ostree res : InstallationResult) (s s' : E.State)
      → install_rest E cfg t apps ostree s ≡ some (res, s')
      → (E.is_success res.code ≡ true) ⊎ (stored s' ≡ stored s)
  unfolding install_rest install_now
  install_rest_gates t apps ostree res s s' e =
      let started = not (is_need_completion ostree.code) || cfg.create_containers_before_reboot in
      let (r1, s1) = install_now E cfg started apps ostree s in
      let same : stored s1 ≡ stored s = ground (
        arith,
        install_apps_same (is_need_completion ostree.code) apps
            (if is_nil apps then ostree else add_text ostree "\n# Apps installed:") s,
      ) in
      elim (finish_install_gates started t r1 res s1 s' e) [
        | inl good ↦ inl good
        | inr h ↦ inr (ap stored h ∙ same)
      ]

  -- Where stopping, installing and starting apps and installing the OSTree commit leave alone what
  -- is stored, an installation that changes it ends with a code of success: apps are removed and
  -- pruned only then.
  pub install_target_apps_gates :
      (t : UptaneTarget) (m m' : Manager E.State) (res : InstallationResult)
      → install_target_apps E cfg t m ≡ some (res, m')
      → stored m'.device ≢ stored m.device
      → E.is_success res.code ≡ true
  unfolding install_target_apps
  install_target_apps_gates t m m' res e changed =
      elim (Bool-cases (is_install_failed (install_commit E cfg t m).0.code)) [
        | inl failed ↦ ground (arith, failed, e, changed, install_commit_same t m)
        | inr fine ↦
            installed
              (install_rest E cfg t m.sets.fetch_and_update (install_commit E cfg t m).0
                (install_commit E cfg t m).1)
              refl (unfailed_branch _ _ _ _ fine e)
      ]
    where
      installed :
          (o : Option (InstallationResult × E.State))
          → install_rest E cfg t m.sets.fetch_and_update
              (install_commit E cfg t m).0
              (install_commit E cfg t m).1
            ≡ o
          → ◌>>=◌ {B = InstallationResult × Manager E.State} o
              (λ r. some (r.0, record m { device = r.1; sets = no_sets }))
            ≡ some (res, m')
          → E.is_success res.code ≡ true
      installed none o h = ground arith
      installed (some (r, s')) o h = ground (
        arith,
        h,
        changed,
        install_commit_same t m,
        install_rest_gates t m.sets.fetch_and_update (install_commit E cfg t m).0 r
            (install_commit E cfg t m).1 s' o,
      )

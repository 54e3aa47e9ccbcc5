-- ===== src/Apps/InstallLaws.antt =====
-- How an installation and a finalization by src/composeappmanager.cc end.
use aktualizr_lite.Apps.Install.{
  finish_install, install_commit, install_now, install_rest, install_target_apps, running_text,
}
use aktualizr_lite.Results.{InstallationResult, ResultCode}
use aktualizr_lite.Target.{UptaneTarget}
use aktualizr_lite.Prelude.{
  Bool, List, Option, [], arith, false, if◌then◌else◌, is_nil, none, not, refl, some, true, ◌&&◌,
  ◌<>◌, ◌>>=◌, ◌||◌, ◌∷◌, ◌≡◌,
}
use aktualizr_lite.Apps.Engine.{AppResult, Apps, Config, Engine, is_done}
use aktualizr_lite.Apps.Manager.{
  Manager, add_text, clean_up, failure_code, install_app, install_apps, is_install_failed,
  is_need_completion, no_sets, with_code,
}

pub unfailed_branch {ℓ} :
    {A : Type ℓ} (b : Bool) (x y z : A) → b ≡ false → (if b then x else y) ≡ z → y ≡ z
unfailed_branch false x y z h e = e
unfailed_branch true x y z h e = ground arith

module _ (E : Engine) (cfg : Config) where
  -- The results of the apps, each of which is tried in the state that the one before it left.
  abbrev pub attempts : Bool → Apps → E.State → List AppResult
  attempts just_install [] s = []
  attempts just_install (app ∷ apps) s =
      let (r, s') = install_app E cfg just_install app s in r ∷ attempts just_install apps s'

  -- The code that the results leave: that of the last failure, or the given one.
  abbrev pub last_code : ResultCode → List AppResult → ResultCode
  last_code code [] = code
  last_code code (r ∷ rs) = last_code (if is_done r.status then code else failure_code r) rs

  install_apps-last_code :
      (just_install : Bool) (apps : Apps) (res : InstallationResult) (s : E.State)
      → (install_apps E cfg just_install apps res s).0.code
        ≡ last_code res.code (attempts just_install apps s)
  unfolding install_apps
  install_apps-last_code just_install [] res s = refl
  install_apps-last_code just_install (app ∷ apps) res s =
      let (r, s') = install_app E cfg just_install app s in
      let ih =
        install_apps-last_code just_install apps
          (if is_done r.status
            then add_text res ("\n" <> app.1)
            else with_code (failure_code r) (
                "failed to install App; app: "
                <> (app.0 <> ("; uri: " <> (app.1 <> ("; err: " <> r.err))))))
          s' in
      ground (arith, ih)

  pub finish_install-code :
      (started : Bool) (t : UptaneTarget) (res res' : InstallationResult) (s s' : E.State)
      → finish_install E cfg started t res s ≡ some (res', s')
      → res'.code ≡ res.code
  unfolding finish_install
  finish_install-code started t res res' s s' e =
      finished
        (if E.is_success res.code then clean_up E cfg (cfg.docker_prune && started) t s else some s)
        e
    where
      finished :
          (o : Option E.State)
          → ◌>>=◌ {B = InstallationResult × E.State} o
              (λ s2. some (add_text res (running_text E cfg s2), s2))
            ≡ some (res', s')
          → res'.code ≡ res.code
      finished none h = ground arith
      finished (some s2) h = ground arith

  install_rest-code :
      (t : UptaneTarget) (apps : Apps) (ostree res : InstallationResult) (s s' : E.State)
      → (not (is_need_completion ostree.code) || cfg.create_containers_before_reboot) ≡ true
      → install_rest E cfg t apps ostree s ≡ some (res, s')
      → res.code ≡ last_code ostree.code (attempts (is_need_completion ostree.code) apps s)
  unfolding install_rest install_now
  install_rest-code t apps ostree res s s' started e =
      let flag = not (is_need_completion ostree.code) || cfg.create_containers_before_reboot in
      let header = if is_nil apps then ostree else add_text ostree "\n# Apps installed:" in
      let (r1, s1) = install_now E cfg flag apps ostree s in
      ground (
        arith,
        started,
        finish_install-code flag t r1 res s1 s' e,
        install_apps-last_code (is_need_completion ostree.code) apps header s,
      )

  -- Where the OSTree commit was installed and the apps are installed with it, every app is tried,
  -- whether or not one before it failed. The result has the code of the last app that failed, or
  -- that of the OSTree commit, and no app is left to be fetched or updated.
  pub install_target_apps-last_code :
      (t : UptaneTarget) (m m' : Manager E.State) (res : InstallationResult)
      → is_install_failed (install_commit E cfg t m).0.code ≡ false
      → (not (is_need_completion (install_commit E cfg t m).0.code)
          || cfg.create_containers_before_reboot)
        ≡ true
      → install_target_apps E cfg t m ≡ some (res, m')
      → let (ostree, s) = install_commit E cfg t m in
        (res.code
          ≡ last_code ostree.code
              (attempts (is_need_completion ostree.code) m.sets.fetch_and_update s))
        × (m'.sets ≡ no_sets)
  unfolding install_target_apps install_rest
  install_target_apps-last_code t m m' res ok started e =
      let (ostree, s) = install_commit E cfg t m in
      installed (install_rest E cfg t m.sets.fetch_and_update ostree s) refl
        (unfailed_branch _ _ _ _ ok e)
    where
      installed :
          (o : Option (InstallationResult × E.State))
          → install_rest E cfg t m.sets.fetch_and_update
              (install_commit E cfg t m).0
              (install_commit E cfg t m).1
            ≡ o
          → ◌>>=◌ {B = InstallationResult × Manager E.State} o
              (λ r. some (r.0, record m { device = r.1; sets = no_sets }))
            ≡ some (res, m')
          → (res.code
              ≡ last_code (install_commit E cfg t m).0.code (
                  attempts
                    (is_need_completion (install_commit E cfg t m).0.code)
                    m.sets.fetch_and_update
                    (install_commit E cfg t m).1))
            × (m'.sets ≡ no_sets)
      installed none o h = ground arith
      installed (some (r, s')) o h =
          let code =
            install_rest-code t m.sets.fetch_and_update (install_commit E cfg t m).0 r
              (install_commit E cfg t m).1 s' started o in
          ground (arith, code, h)

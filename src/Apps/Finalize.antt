-- ===== src/Apps/Finalize.antt =====
-- What a finalization by `finalizeInstall` of src/composeappmanager.cc that succeeds has done.
use aktualizr_lite.Apps.Install.{
  add_enabled, finalize_target_apps, finish_boot, is_in_context, start_apps,
}
use aktualizr_lite.Apps.Manager.{is_ok_code, start_failure_code, stop_disabled}
use aktualizr_lite.Results.{InstallationResult}
use aktualizr_lite.Target.{UptaneTarget}
use aktualizr_lite.Prelude.{
  if_false, eq_iff, ◌∙◌, if_true, string_eq, ◌==◌, ◌⊎◌, sym, false-ne-true, ◌≢◌, Bool, Bool-cases,
  List, Option, String, [], arith, false, inl, inr, none, refl, some, true, ◌∷◌, ◌≡◌,
}
use aktualizr_lite.Apps.Engine.{ResultId, Apps, Config, Engine, is_done}
use aktualizr_lite.Apps.Choice.{get_apps}

-- The first entry of the app's name in an install context has the app's URI.
pub data Names : List (String × String) → String × String → Type 0 where
  first :
      (n u : String) (context : List (String × String)) (app : String × String)
      → n ≡ app.0
      → u ≡ app.1
      → Names ((n, u) ∷ context) app
  later :
      (n u : String) (context : List (String × String)) (app : String × String)
      → n ≢ app.0
      → Names context app
      → Names ((n, u) ∷ context) app

-- An app is meant if there is no install context, or the context names it.
abbrev pub IsMeant : Option (List (String × String)) → String × String → Type 0
IsMeant none app = Unit
IsMeant (some context) app = Names context app

not_named : (app : String × String) → ¬ Names [] app
not_named app m = elim m [ ]

no_name :
    (n u : String) (context : List (String × String)) (app : String × String)
    → (n ≡ app.0 → u ≢ app.1)
    → (n ≢ app.0 → ¬ Names context app)
    → ¬ Names ((n, u) ∷ context) app
no_name n u context app f g (Names.first n' u' c a e k) = f e k
no_name n u context app f g (Names.later n' u' c a e m) = g e m

is_in_context-IsMeant :
    (context : Option (List (String × String))) (app : String × String)
    → (is_in_context context app ≡ true → IsMeant context app)
      × (is_in_context context app ≡ false → ¬ IsMeant context app)
unfolding is_in_context
is_in_context-IsMeant none app = ((λ e. tt), λ e. elim (false-ne-true (sym e)) [ ])
is_in_context-IsMeant (some []) app = ((λ e. elim (false-ne-true e) [ ]), λ e. not_named app)
is_in_context-IsMeant (some ((n, u) ∷ context)) app =
    let (f, g) = is_in_context-IsMeant (some context) app in
    elim (Bool-cases (n == app.0)) [
      | inl b ↦
          let name = (string_eq.decides n app.0).0 b in
          (
            λ e.
                Names.first n u context app name
                  ((string_eq.decides u app.1).0 (if_true _ _ _ _ b e)),
            λ e.
                no_name n u context app
                  (λ k same. false-ne-true (sym (if_true _ _ _ _ b e) ∙ (eq_iff u app.1).1 same))
                  (λ ne. elim (ne name) [ ]),
          )
      | inr b ↦
          let ne : n ≢ app.0 = λ same. false-ne-true (sym b ∙ (eq_iff n app.0).1 same) in
          (
            λ e. Names.later n u context app ne (f (if_false _ _ _ _ b e)),
            λ e. no_name n u context app (λ k. elim (ne k) [ ]) (λ k. g (if_false _ _ _ _ b e)),
          )
    ]

-- The apps that are meant start one after the other, from the first state to the second.
abbrev pub AllStart :
    (E : Engine) → Option (List (String × String)) → Apps → E.State → E.State → Type 0
AllStart E context [] s s' = s ≡ s'
AllStart E context (app ∷ apps) s s' =
    IsMeant context app
      × ((E.run app s).0.status ≡ ResultId.ok)
      × AllStart E context apps (E.run app s).1 s'
    ⊎ (¬ IsMeant context app) × AllStart E context apps s s'

done_status : (i : ResultId) → is_done i ≡ true → i ≡ ResultId.ok
unfolding is_done
done_status ResultId.ok e = refl
done_status ResultId.failed e = elim (false-ne-true e) [ ]
done_status ResultId.insufficient_space e = elim (false-ne-true e) [ ]
done_status ResultId.image_pull_failure e = elim (false-ne-true e) [ ]

module _ (E : Engine) (cfg : Config) where
  start_apps-AllStart :
      (context : Option (List (String × String))) (apps : Apps) (msg : String) (s : E.State)
      → (start_apps E cfg context apps msg s).0.0 ≡ none
      → AllStart E context apps s (start_apps E cfg context apps msg s).1
  unfolding start_apps
  start_apps-AllStart context [] msg s h = refl
  start_apps-AllStart context (app ∷ apps) msg s h =
      go (is_in_context context app) refl (is_done (E.run app s).0.status) refl
        (start_apps-AllStart context apps (add_enabled msg app.0) s)
        (start_apps-AllStart context apps msg (E.run app s).1)
    where
      go :
          (b : Bool)
          → is_in_context context app ≡ b
          → (d : Bool) → is_done (E.run app s).0.status ≡ d
          → ((start_apps E cfg context apps (add_enabled msg app.0) s).0.0 ≡ none
              → AllStart E context apps s
                  (start_apps E cfg context apps (add_enabled msg app.0) s).1)
          → ((start_apps E cfg context apps msg (E.run app s).1).0.0 ≡ none
              → AllStart E context apps
                  (E.run app s).1
                  (start_apps E cfg context apps msg (E.run app s).1).1)
          → AllStart E context (app ∷ apps) s (start_apps E cfg context (app ∷ apps) msg s).1
      go false b d e skip next =
          let no = (is_in_context-IsMeant context app).1 b in
          rw b (inr (no, skip (ground (arith, b, h))))
      go true b true e skip next =
          let yes = (is_in_context-IsMeant context app).0 b in
          let done = done_status (E.run app s).0.status e in
          rw (b, e) (inl (yes, done, next (ground (arith, b, e, h))))
      go true b false e skip next = ground (arith, b, e, h)

  finish_boot-ok :
      (t : UptaneTarget) (ir res : InstallationResult) (s s' : E.State)
      → finish_boot E cfg t ir s ≡ some (res, s')
      → is_ok_code res.code ≡ true
      → (start_apps E cfg t.custom.install_context
          (get_apps cfg t.custom.apps)
          ""
          (stop_disabled E cfg t s)).0.0
        ≡ none
  unfolding finish_boot start_failure_code
  finish_boot-ok t ir res s s' e ok = ground arith

  -- A finalization that succeeds was preceded by the boot of the target's OSTree commit, and each
  -- app that the configuration enables was started, one after the other, but for those that the
  -- target's install context does not name.
  pub finalize_target_apps-AllStart :
      (t : UptaneTarget) (ir : InstallationResult) (s s' : E.State)
      → finalize_target_apps E cfg t s ≡ some (ir, s')
      → is_ok_code ir.code ≡ true
      → let (booted, s1) = E.ostree_finalize t s in
        (is_ok_code booted.code ≡ true)
        × ((s2 : E.State) × AllStart E t.custom.install_context
              (get_apps cfg t.custom.apps)
              (stop_disabled E cfg t s1)
              s2)
  unfolding finalize_target_apps
  finalize_target_apps-AllStart t ir s s' e ok =
      let (booted, s1) = E.ostree_finalize t s in
      elim (Bool-cases (is_ok_code booted.code)) [
        | inl good ↦ (
          good,
          (
            _,
            start_apps-AllStart t.custom.install_context (get_apps cfg t.custom.apps) ""
                (stop_disabled E cfg t s1)
                (finish_boot-ok t booted ir s1 s' (ground (arith, good, e)) ok),
          ),
        )
        | inr bad ↦ ground (arith, bad, e, ok)
      ]

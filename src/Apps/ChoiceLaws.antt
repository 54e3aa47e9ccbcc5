-- ===== src/Apps/ChoiceLaws.antt =====
-- What an empty list of apps to update means, by `checkForAppsToUpdate` of src/composeappmanager.cc.
use aktualizr_lite.Target.{AppEntry}
use aktualizr_lite.Prelude.{
  All, All-map, Bool, List, Option, String, [], ap, arith, contains, false, if◌then◌else◌, int_eq,
  map, nat_eq, none, not, refl, some, string_eq, true, ◌==◌, ◌>>=◌, ◌∷◌, ◌≡◌, ◌≢◌, ◌⊎◌,
}
use aktualizr_lite.Apps.Engine.{Apps, Config, Engine, has_key, put}
use aktualizr_lite.Apps.Choice.{
  Findings, Sets, add_finding, add_reset_reasons, check_for_apps_to_update, find_entry, get_apps,
  get_apps_to_update, get_required_apps, reset_sets, to_fetch, update_loop, update_reason, uri_of,
  with_fetch,
}

-- Whether the installed target has the app, with the uri.
abbrev pub is_installed : Option AppEntry → String → Bool
is_installed none uri = false
is_installed (some e) uri = uri_of e == uri

put-ne-nil : (name why : String) (xs : List (String × String)) → put name why xs ≢ []
put-ne-nil name why [] e = ground arith
put-ne-nil name why (x ∷ xs) e = ground arith

add_reset_reasons-nil :
    (E : Engine) (cfg : Config) (apps : Apps) (reasons : List (String × String))
    → add_reset_reasons E cfg apps reasons ≡ []
    → (apps ≡ []) × (reasons ≡ [])
unfolding add_reset_reasons
add_reset_reasons-nil E cfg [] reasons e = (refl, e)
add_reset_reasons-nil E cfg (app ∷ apps) reasons e =
    let ih =
      add_reset_reasons-nil E cfg apps
        (if has_key app.0 reasons then reasons else put app.0 "not fetched (reset apps)" reasons)
        e in
    ground
      (arith, ih.1, put-ne-nil app.0 "not fetched (reset apps)" reasons, ap (has_key app.0) ih.1)

added-nil :
    (E : Engine) (cfg : Config) (sets' : Sets) (updates : Apps) (o : Option Apps)
    (reasons : List (String × String))
    → (o >>= (λ fetch. some (with_fetch E cfg updates reasons fetch))) ≡ some ([], sets')
    → (reasons ≡ []) × (o ≡ some [])
unfolding with_fetch
added-nil E cfg sets' updates none reasons e = ground arith
added-nil E cfg sets' updates (some fetch) reasons e =
    let r = add_reset_reasons-nil E cfg fetch reasons (ground arith) in (r.1, ap some r.0)

unforced_branch {ℓ} :
    {A : Type ℓ} (b : Bool) (x y z : A) → b ≡ false → (if not b then x else y) ≡ z → x ≡ z
unforced_branch false x y z h e = e
unforced_branch true x y z h e = ground arith

module _ (E : Engine) (cfg : Config) (s : E.State) where
  -- The app is the one that was installed, it runs and is fetched.
  abbrev pub InSync : String × String → Type 0
  InSync app =
      (is_installed (find_entry app.0 (E.current s).custom.apps) app.1 ≡ true)
      × (E.is_running app s ≡ true)
      × (E.is_fetched app s ≡ true)

  update_reason-InSync :
      (app : String × String)
      → update_reason E cfg (E.current s).custom.apps app s ≡ none
      → InSync app
  unfolding update_reason
  update_reason-InSync app h = ground arith

  -- No reasons: no apps to update, all are in sync, and those that are fetched are among them.
  Quiet : Apps → Findings → Type 0
  Quiet apps (updates, reasons, fetched) =
      (updates ≡ []) × (fetched ≡ map (λ (a : String × String). a.0) apps) × All InSync apps

  add_finding-Quiet :
      (app : String × String) (apps : Apps) (o : Option String) (f : Findings)
      → (o ≡ none → InSync app)
      → (f.1 ≡ [] → Quiet apps f)
      → (add_finding E cfg app o f).1 ≡ []
      → Quiet (app ∷ apps) (add_finding E cfg app o f)
  unfolding Quiet
  add_finding-Quiet app apps none (updates, reasons, fetched) sync ih e =
      let q = ih e in (q.0, ap (λ names. app.0 ∷ names) q.1, (sync refl, q.2))
  add_finding-Quiet app apps (some why) (updates, reasons, fetched) sync ih e = ground arith

  update_loop-Quiet :
      (apps : Apps)
      → (update_loop E cfg (E.current s).custom.apps apps s).1 ≡ []
      → Quiet apps (update_loop E cfg (E.current s).custom.apps apps s)
  unfolding update_loop Quiet
  update_loop-Quiet [] e = (refl, refl, tt)
  update_loop-Quiet (app ∷ apps) e =
      add_finding-Quiet app apps (update_reason E cfg (E.current s).custom.apps app s)
        (update_loop E cfg (E.current s).custom.apps apps s) (update_reason-InSync app)
        (update_loop-Quiet apps) e

  -- Fetched already, or named.
  abbrev Kept : List String → String × String → Type 0
  Kept fetched app = (E.is_fetched app s ≡ true) ⊎ (contains fetched app.0 ≡ true)

  to_fetch-nil :
      (required : Apps) (fetched : List String)
      → to_fetch E cfg required [] fetched s ≡ []
      → All (Kept fetched) required
  unfolding to_fetch
  to_fetch-nil [] fetched e = tt
  to_fetch-nil (app ∷ required) fetched e =
      (ground arith, to_fetch-nil required fetched (ground arith))

  contains-names :
      (name : String) (apps : Apps)
      → contains (map (λ (a : String × String). a.0) apps) name ≡ has_key name apps
  contains-names name [] = refl
  contains-names name (app ∷ apps) = ground (arith, contains-names name apps)

reset_sets-required :
    (E : Engine) (cfg : Config) (s : E.State) (target_apps : List AppEntry)
    (required updates : Apps) (fetched : List String) (former : Apps) (reset : List String)
    → cfg.reset_apps ≡ some reset
    → get_required_apps cfg target_apps ≡ some required
    → reset_sets E cfg true updates fetched target_apps former s
      ≡ some (to_fetch E cfg required updates fetched s)
unfolding reset_sets
reset_sets-required E cfg s target_apps required updates fetched former reset r q =
    ground (arith, r, q)

module _ (E : Engine) (cfg : Config) (indeterminate : Bool) (target_apps : List AppEntry)
    (sets sets' : Sets) (s : E.State) (unforced : cfg.force_update ≡ false)
    (quiet : check_for_apps_to_update E cfg indeterminate target_apps sets s
      ≡ some ([], sets')) where
  no_findings :
      ((get_apps_to_update E cfg target_apps s).1 ≡ [])
      × (reset_sets E cfg true
            (get_apps_to_update E cfg target_apps s).0
            (get_apps_to_update E cfg target_apps s).2
            target_apps
            sets.fetch
            s
          ≡ some [])
  unfolding check_for_apps_to_update
  no_findings =
      let found = get_apps_to_update E cfg target_apps s in
      added-nil E cfg sets' found.0 (reset_sets E cfg true found.0 found.2 target_apps sets.fetch s)
        found.1 (unforced_branch cfg.force_update _ _ _ unforced quiet)

  -- Where the check of the apps finds no reason for an update, and updates are not forced, each app
  -- of the target that the configuration enables is the one of the installed target, runs, and is
  -- fetched.
  pub check_for_apps_to_update-InSync : All (InSync E cfg s) (get_apps cfg target_apps)
  unfolding get_apps_to_update Quiet
  check_for_apps_to_update-InSync =
      (update_loop-Quiet E cfg s (get_apps cfg target_apps) no_findings.0).2

  -- Where the check of the apps finds no reason for an update, updates are not forced, and some
  -- apps are to be kept for a reset, each app that is required is fetched, or is among the apps
  -- that the configuration enables.
  pub check_for_apps_to_update-fetched :
      (reset : List String) (required : Apps)
      → cfg.reset_apps ≡ some reset
      → get_required_apps cfg target_apps ≡ some required
      → All
          (λ (a : String × String).
            (E.is_fetched a s ≡ true) ⊎ (has_key a.0 (get_apps cfg target_apps) ≡ true))
          required
  unfolding get_apps_to_update Quiet reset_sets
  check_for_apps_to_update-fetched reset required r q =
      let found = get_apps_to_update E cfg target_apps s in
      let (u, f, all_sync) = update_loop-Quiet E cfg s (get_apps cfg target_apps) no_findings.0 in
      let e : to_fetch E cfg required []
            (map (λ (a : String × String). a.0) (get_apps cfg target_apps)) s
          ≡ [] =
        ground (
          arith,
          no_findings.1,
          reset_sets-required E cfg s target_apps required found.0 found.2 sets.fetch reset r q,
          u,
          f,
        ) in
      All-map _ _ required
        (λ a h. ground (arith, h, contains-names E cfg s a.0 (get_apps cfg target_apps)))
        (to_fetch-nil E cfg s required _ e)

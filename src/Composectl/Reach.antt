-- ===== src/Composectl/Reach.antt =====
-- The apps that the engine takes for fetched, after any sequence of its operations.
use mathlib.Core.Option.{some-injective}
use aktualizr_lite.Composectl.Cache.{
  IsSound, KeepsWhole, exec_on-IsSound, exec_on_other, fetch_app-IsSound, forget-IsOther,
  remember-IsSound, remove_app-IsSound,
}
use aktualizr_lite.Composectl.Engine.{
  Command, EngineState, Ran, by_check, exec_on, fetch_app, fetch_checked, forget,
  install_app_and_images, is_app_fetched, is_app_installed, remove_app,
}
use aktualizr_lite.Composectl.Prune.{
  Pruner, apps_to_prune, if_output, on_device, prune, prune_apps, prune_docker, prune_store,
  remove_apps, remove_listed,
}
use aktualizr_lite.Prelude.{
  All, All-map, Bool, Bool-cases, List, Option, String, [], contains, false, false-ne-true,
  if◌then◌else◌, inl, inr, int_eq, nat_eq, none, none_not_some, refl, some, string_eq, subst, sym,
  true, ◌==◌, ◌∷◌, ◌≡◌,
}

module _ {S : Type 0} (P : Pruner S) (InStore : String → S → Type 0) where
  -- An operation of the engine, whatever it gives, from one state to the next. Where the store is
  -- pruned, each app that is still known to be fetched is in the store once the others were removed.
  pub data Operation (e e' : EngineState S) : Type 0 where
    fetches : (uri : String) → e' ≡ (fetch_app P.ctl uri e).1 → Operation e e'
    removes : (app : String × String) → e' ≡ remove_app P.ctl app e → Operation e e'
    checks : (uri : String) → e' ≡ (is_app_fetched P.ctl uri e).1 → Operation e e'
    checks_installed : (uri : String) → e' ≡ (is_app_installed P.ctl uri e).1 → Operation e e'
    installs : (uri : String) → e' ≡ (install_app_and_images P.ctl uri e).1 → Operation e e'
    asks : (uri : String) → e' ≡ (exec_on P.ctl (Command.ps uri) e).1 → Operation e e'
    prunes :
        (apps : List (String × String))
        → All (λ uri. InStore uri (prune_apps P apps e).device) (prune_apps P apps e).fetched_apps
        → e' ≡ prune P apps e
        → Operation e e'

  -- The states after the start, where no app is known to be fetched.
  pub data Reach : EngineState S → Type 0 where
    start : (s : S) → Reach (record { fetched_apps = []; device = s })
    after : {e e' : EngineState S} → Reach e → Operation e e' → Reach e'

All-both :
    {A : Type 0} {Q R T : A → Type 0} (xs : List A)
    → ((x : A) → Q x → R x → T x)
    → All Q xs
    → All R xs
    → All T xs
All-both [] f q r = tt
All-both (x ∷ xs) f (q, qs) (r, rs) = (f x q r, All-both xs f qs rs)

module _ {S : Type 0} (P : Pruner S) (Whole InStore : String → S → Type 0)
    (K : KeepsWhole P Whole InStore) where
  -- A check leaves the set sound, and says yes only of a whole app.
  abbrev Checked : String → Option Bool × EngineState S → Type 0
  Checked uri (o, e) = IsSound P Whole InStore e × (o ≡ some true → Whole uri e.device)

  says_no : {C : Type 0} → some false ≡ some true → C
  says_no q = elim (false-ne-true (some-injective _ _ q)) [ ]

  by_check-Checked :
      (uri : String) (o : Option (Option Bool)) (e : EngineState S)
      → (o ≡ some (some true) → Whole uri e.device)
      → IsSound P Whole InStore e
      → Checked uri (by_check P.ctl uri o e)
  by_check-Checked uri (some (some true)) e w h =
      (remember-IsSound P Whole InStore K uri e (w refl) h, λ q. w refl)
  by_check-Checked uri (some (some false)) e w h = (h, λ q. says_no q)
  by_check-Checked uri (some none) e w h = (h, λ q. says_no q)
  by_check-Checked uri none e w h = (h, λ q. none_not_some q)

  fetch_checked-Checked :
      (uri : String) (r : Ran) (e : EngineState S)
      → ((out : String)
          → r ≡ Ran.output out
          → P.ctl.parse_fetch_check out ≡ some (some true)
          → Whole uri e.device)
      → IsSound P Whole InStore e
      → Checked uri (fetch_checked P.ctl uri r e)
  fetch_checked-Checked uri (Ran.exec_error code stderr what) e w h = (h, λ q. says_no q)
  fetch_checked-Checked uri (Ran.thrown what) e w h = (h, λ q. none_not_some q)
  fetch_checked-Checked uri (Ran.output out) e w h =
      by_check-Checked uri (P.ctl.parse_fetch_check out) e (w out refl) h

  All-contains :
      (Q : String → Type 0) (uri : String) (xs : List String)
      → contains xs uri ≡ true
      → All Q xs
      → Q uri
  All-contains Q uri [] c h = elim (false-ne-true c) [ ]
  All-contains Q uri (x ∷ xs) c (q, h) = elim (Bool-cases (x == uri)) [
    | inl b ↦ subst Q ((string_eq.decides x uri).0 b) q
    | inr b ↦ All-contains Q uri xs (rw b at c) h
  ]

  is_app_fetched-Checked :
      (uri : String) (e : EngineState S)
      → IsSound P Whole InStore e
      → Checked uri (is_app_fetched P.ctl uri e)
  unfolding is_app_fetched
  is_app_fetched-Checked uri e h = elim (Bool-cases (contains e.fetched_apps uri)) [
    | inl c ↦ rw c (h, λ q. All-contains _ uri e.fetched_apps c h)
    | inr c ↦
        let check = Command.check uri in
        rw c (
          fetch_checked-Checked uri (exec_on P.ctl check e).0 (exec_on P.ctl check e).1
            (λ out r o. K.check-Whole uri out e.device r o)
            (exec_on-IsSound P Whole InStore K check e (λ x. refl) h))
  ]

  if_output-IsSound :
      (r : Ran) (f : String → EngineState S) (e : EngineState S)
      → ((out : String) → IsSound P Whole InStore (f out))
      → IsSound P Whole InStore e
      → IsSound P Whole InStore (if_output P r f e)
  if_output-IsSound (Ran.output out) f e k h = k out
  if_output-IsSound (Ran.exec_error code stderr what) f e k h = h
  if_output-IsSound (Ran.thrown what) f e k h = h

  remove_apps-IsSound :
      (apps : List (String × String)) (e : EngineState S)
      → IsSound P Whole InStore e
      → IsSound P Whole InStore (remove_apps P apps e)
  unfolding remove_apps
  remove_apps-IsSound [] e h = h
  remove_apps-IsSound ((name, uri) ∷ apps) e h =
      let rm = Command.rm uri in
      let (r, e1) = exec_on P.ctl rm (forget P.ctl uri e) in
      let h1 =
        exec_on_other P Whole InStore K rm uri (forget P.ctl uri e) (λ x b. b)
          (forget-IsOther P Whole InStore uri e h) in
      if_output-IsSound r (λ out. remove_apps P apps e1) e1 (λ out. remove_apps-IsSound apps e1 h1)
        h1

  remove_listed-IsSound :
      (shortlist : List (String × String)) (o : Option (List (Option (String × String))))
      (e : EngineState S)
      → IsSound P Whole InStore e
      → IsSound P Whole InStore (remove_listed P shortlist o e)
  remove_listed-IsSound shortlist none e h = h
  remove_listed-IsSound shortlist (some apps) e h =
      remove_apps-IsSound (apps_to_prune shortlist apps) e h

  prune_docker_kept :
      (o : Option Bool) (uri : String) (s : S) → Whole uri s → Whole uri (prune_docker P o s)
  prune_docker_kept (some true) uri s w =
      let (removed, s1) = P.prune_containers s in
      let w1 = K.containers_kept uri s w in
      elim removed as (λ (b : Bool). Whole uri (if b then (P.prune_images s1).1 else s1)) [
        | true ↦ K.images_kept uri s1 w1
        | false ↦ w1
      ]
  prune_docker_kept (some false) uri s w = w
  prune_docker_kept none uri s w = w

  prune_apps-IsSound :
      (shortlist : List (String × String)) (e : EngineState S)
      → IsSound P Whole InStore e
      → IsSound P Whole InStore (prune_apps P shortlist e)
  unfolding prune_apps
  prune_apps-IsSound shortlist e h =
      let (r, e1) = exec_on P.ctl Command.ls e in
      let h1 = exec_on-IsSound P Whole InStore K Command.ls e (λ x. refl) h in
      if_output-IsSound r (λ out. remove_listed P shortlist (P.parse_apps out) e1) e1
        (λ out. remove_listed-IsSound shortlist (P.parse_apps out) e1 h1) h1

  prune-IsSound :
      (shortlist : List (String × String)) (e : EngineState S)
      → All
          (λ uri. InStore uri (prune_apps P shortlist e).device)
          (prune_apps P shortlist e).fetched_apps
      → IsSound P Whole InStore e
      → IsSound P Whole InStore (prune P shortlist e)
  unfolding prune prune_store
  prune-IsSound shortlist e used h =
      let e2 = prune_apps P shortlist e in
      let h2 = prune_apps-IsSound shortlist e h in
      let (r3, e3) = exec_on P.ctl Command.prune e2 in
      let h3 = All-both e2.fetched_apps (λ uri. K.prune_kept uri e2.device) used h2 in
      if_output-IsSound r3 (λ out. on_device P (prune_docker P (P.parse_pruned out)) e3) e3
        (λ out.
          All-map _ _ e3.fetched_apps
            (λ uri w. prune_docker_kept (P.parse_pruned out) uri e3.device w) h3)
        h3

  IsSound-after :
      (e e' : EngineState S)
      → Operation P InStore e e'
      → IsSound P Whole InStore e
      → IsSound P Whole InStore e'
  unfolding is_app_installed install_app_and_images
  IsSound-after e e' (fetches uri q) h =
      subst (IsSound P Whole InStore) (sym q) (fetch_app-IsSound P Whole InStore K uri e h)
  IsSound-after e e' (removes app q) h =
      subst (IsSound P Whole InStore) (sym q) (remove_app-IsSound P Whole InStore K app e h)
  IsSound-after e e' (checks uri q) h =
      subst (IsSound P Whole InStore) (sym q) (is_app_fetched-Checked uri e h).0
  IsSound-after e e' (checks_installed uri q) h =
      subst (IsSound P Whole InStore) (sym q)
        (exec_on-IsSound P Whole InStore K (Command.check_install uri) e (λ x. refl) h)
  IsSound-after e e' (installs uri q) h =
      subst (IsSound P Whole InStore) (sym q)
        (exec_on-IsSound P Whole InStore K (Command.install uri) e (λ x. refl) h)
  IsSound-after e e' (asks uri q) h =
      subst (IsSound P Whole InStore) (sym q)
        (exec_on-IsSound P Whole InStore K (Command.ps uri) e (λ x. refl) h)
  IsSound-after e e' (prunes apps used q) h =
      subst (IsSound P Whole InStore) (sym q) (prune-IsSound apps e used h)

  -- Let a pull without an error and a check without a missing blob mean that all blobs of the app are
  -- in the store; let the removal and another pull of an app leave the blobs of other apps, `prune` of
  -- the tool those of the apps that are in the store when it is run, and no other command take blobs
  -- away. Then in every state that sequences of the engine's operations lead to from the start, all
  -- blobs of every app that the engine remembers as fetched are in the store, if at every pruning in
  -- the sequence each app that is still remembered, once the unlisted ones are removed, is in the store.
  pub Reach-IsSound : {e : EngineState S} → Reach P InStore e → IsSound P Whole InStore e
  Reach-IsSound (start s) = tt
  Reach-IsSound (after {e} {e'} r o) = IsSound-after e e' o (Reach-IsSound r)

-- ===== src/Composectl/Cache.antt =====
-- What is known of the apps in the set of fetched ones, whatever the engine was asked to do before.
use aktualizr_lite.Apps.Engine.{AppResult}
use aktualizr_lite.Docker.Pull.{Read}
use aktualizr_lite.Composectl.Engine.{
  Command, EngineState, Ran, end_fetch, erase, exec_on, fetch_app, forget, pull_result, pull_with,
  pulled, remember, remove_app, use_proxy, with_proxy,
}
use aktualizr_lite.Composectl.Prune.{Pruner}
use aktualizr_lite.Prelude.{
  All, All-map, Bool, Bool-cases, List, Option, String, [], contains, false, if◌then◌else◌, inl,
  inr, int_eq, is_empty, nat_eq, none, refl, some, string_eq, true, ◌==◌, ◌∷◌, ◌≡◌,
}

-- Whether a command may take blobs of an app away. The removal of an app is made with `--prune=false`:
-- it leaves the blobs of the others, and `prune` takes those that no app of the store uses.
abbrev pub touches : Command → String → Bool
touches (Command.rm u) uri = uri == u
touches (Command.pull u) uri = uri == u
touches Command.prune uri = true
touches _ uri = false

abbrev pub HasOutput : Ran → Type 0
HasOutput (Ran.output out) = Unit {0}
HasOutput _ = ⊥

-- Whether all blobs of an app are in the store, and whether the app is one of the store, so that its
-- blobs are in use.
module _ {S : Type 0} (P : Pruner S) (Whole InStore : String → S → Type 0) where
  -- What the engine relies on: a pull without an error leaves all blobs of the app in the store, and
  -- a check that tells of no missing blob is right. The removal and another pull of an app leave the
  -- blobs of other apps, `prune` leaves the blobs of the apps that are in the store when it is run,
  -- and no other command takes blobs away.
  pub record KeepsWhole : Type 0 where
    pub pull-Whole :
        (uri : String) (s : S)
        → HasOutput (P.ctl.exec (Command.pull uri) s).0
        → Whole uri (P.ctl.exec (Command.pull uri) s).1
    pub check-Whole :
        (uri out : String) (s : S)
        → (P.ctl.exec (Command.check uri) s).0 ≡ Ran.output out
        → P.ctl.parse_fetch_check out ≡ some (some true)
        → Whole uri (P.ctl.exec (Command.check uri) s).1
    pub kept :
        (c : Command) (uri : String) (s : S)
        → touches c uri ≡ false
        → Whole uri s
        → Whole uri (P.ctl.exec c s).1
    pub prune_kept :
        (uri : String) (s : S)
        → InStore uri s
        → Whole uri s
        → Whole uri (P.ctl.exec Command.prune s).1
    pub proxy_kept :
        (uri : String) (p : String × String) (s : S) → Whole uri s → Whole uri (P.ctl.set_proxy p s)
    pub unset_kept : (uri : String) (s : S) → Whole uri s → Whole uri (P.ctl.unset_proxy s)
    pub containers_kept : (uri : String) (s : S) → Whole uri s → Whole uri (P.prune_containers s).1
    pub images_kept : (uri : String) (s : S) → Whole uri s → Whole uri (P.prune_images s).1

  -- All apps in the set are whole.
  abbrev pub IsSound : EngineState S → Type 0
  IsSound e = All (λ uri. Whole uri e.device) e.fetched_apps

  All-erase :
      {Q R : String → Type 0} (uri : String) (xs : List String)
      → ((x : String) → (x == uri) ≡ false → Q x → R x)
      → All Q xs
      → All R (erase uri xs)
  unfolding erase
  All-erase uri [] f h = tt
  All-erase {Q} {R} uri (x ∷ xs) f (q, h) = elim (Bool-cases (x == uri)) [
    | inl b ↦ rw b (All-erase uri xs f h)
    | inr b ↦ rw b (f x b q, All-erase uri xs f h)
  ]

  -- Apps that are whole, and none of them the one of a URI.
  abbrev pub IsOther : String → EngineState S → Type 0
  IsOther uri e = All (λ x. ((x == uri) ≡ false) × Whole x e.device) e.fetched_apps

  pub forget-IsOther :
      (uri : String) (e : EngineState S) → IsSound e → IsOther uri (forget P.ctl uri e)
  forget-IsOther uri e h = All-erase uri e.fetched_apps (λ x b w. (b, w)) h

  module _ (K : KeepsWhole) where
    pub exec_on-IsSound :
        (c : Command) (e : EngineState S)
        → ((x : String) → touches c x ≡ false)
        → IsSound e
        → IsSound (exec_on P.ctl c e).1
    exec_on-IsSound c e free h =
        All-map _ _ e.fetched_apps (λ x w. K.kept c x e.device (free x) w) h

    pub exec_on_other :
        (c : Command) (uri : String) (e : EngineState S)
        → ((x : String) → (x == uri) ≡ false → touches c x ≡ false)
        → IsOther uri e
        → IsSound (exec_on P.ctl c e).1
    exec_on_other c uri e free h =
        All-map _ _ e.fetched_apps (λ x w. K.kept c x e.device (free x w.0) w.1) h

    pub remember-IsSound :
        (uri : String) (e : EngineState S)
        → Whole uri e.device
        → IsSound e
        → IsSound (remember P.ctl uri e)
    remember-IsSound uri e w h = elim (Bool-cases (contains e.fetched_apps uri)) [
      | inl b ↦ rw b h
      | inr b ↦ rw b (w, h)
    ]

    pulled_cases :
        (uri : String) (r : Ran) (e : EngineState S)
        → (HasOutput r → Whole uri e.device)
        → IsSound e
        → IsSound (pulled P.ctl uri r e)
    pulled_cases uri (Ran.output out) e w h = remember-IsSound uri e (w tt) h
    pulled_cases uri (Ran.exec_error code stderr what) e w h = h
    pulled_cases uri (Ran.thrown what) e w h = h

    pulled-IsSound :
        (uri : String) (e : EngineState S)
        → IsOther uri e
        → IsSound (
            pulled P.ctl uri
              (exec_on P.ctl (Command.pull uri) e).0
              (exec_on P.ctl (Command.pull uri) e).1)
    pulled-IsSound uri e h =
        pulled_cases uri (exec_on P.ctl (Command.pull uri) e).0
          (exec_on P.ctl (Command.pull uri) e).1 (K.pull-Whole uri e.device)
          (exec_on_other (Command.pull uri) uri e (λ x b. b) h)

    end_fetch-IsSound :
        (b : Bool) (r : Option AppResult) (e : EngineState S)
        → IsSound e
        → IsSound (end_fetch P.ctl b r e).1
    end_fetch-IsSound b none e h = h
    end_fetch-IsSound true (some r) e h =
        All-map _ _ e.fetched_apps (λ x w. K.unset_kept x e.device w) h
    end_fetch-IsSound false (some r) e h = h

    other-IsSound : (uri : String) (e : EngineState S) → IsOther uri e → IsSound e
    other-IsSound uri e h = All-map _ _ e.fetched_apps (λ x w. w.1) h

    -- What is read leaves only whole apps but the one of a URI in the set, if it is read.
    abbrev OtherAfter : String → Read (Bool × EngineState S) → Type 0
    OtherAfter uri (Read.failed what) = Unit {0}
    OtherAfter uri (Read.got (b, e)) = IsOther uri e

    pull_with-IsSound :
        (uri : String) (p : Read (Bool × EngineState S)) (e : EngineState S)
        → IsOther uri e
        → OtherAfter uri p
        → IsSound (pull_with P.ctl uri p e).1
    pull_with-IsSound uri (Read.failed what) e h k = other-IsSound uri e h
    pull_with-IsSound uri (Read.got (b, e1)) e h k =
        let (r, e2) = exec_on P.ctl (Command.pull uri) e1 in
        end_fetch-IsSound b (pull_result P.ctl r) (pulled P.ctl uri r e2) (pulled-IsSound uri e1 k)

    set_proxy_other :
        (uri : String) (b : Bool) (p : String × String) (e : EngineState S)
        → IsOther uri e
        → OtherAfter uri (
            Read.got
              (if b then (false, e) else (true, record e { device = P.ctl.set_proxy p e.device })))
    set_proxy_other uri true p e h = h
    set_proxy_other uri false p e h =
        All-map _ _ e.fetched_apps (λ x w. (w.0, K.proxy_kept x p e.device w.1)) h

    with_proxy_other :
        (uri : String) (p : Read (String × String)) (e : EngineState S)
        → IsOther uri e
        → OtherAfter uri (with_proxy P.ctl p e)
    with_proxy_other uri (Read.failed what) e h = tt
    with_proxy_other uri (Read.got (url, ca)) e h = set_proxy_other uri (is_empty url) (url, ca) e h

    use_proxy_other :
        (uri : String) (p : Option (S → Read (String × String))) (e : EngineState S)
        → IsOther uri e
        → OtherAfter uri (use_proxy P.ctl p e)
    use_proxy_other uri none e h = h
    use_proxy_other uri (some provider) e h = with_proxy_other uri (provider e.device) e h

    source_other :
        (uri : String) (b : Bool) (e : EngineState S)
        → IsOther uri e
        → OtherAfter uri (if b then Read.got (false, e) else use_proxy P.ctl P.ctl.proxy e)
    source_other uri true e h = h
    source_other uri false e h = use_proxy_other uri P.ctl.proxy e h

    pub fetch_app-IsSound :
        (uri : String) (e : EngineState S) → IsSound e → IsSound (fetch_app P.ctl uri e).1
    unfolding fetch_app
    fetch_app-IsSound uri e h =
        let e1 = forget P.ctl uri e in
        let o = forget-IsOther uri e h in
        pull_with-IsSound uri
          (if P.ctl.has_local_source then Read.got (false, e1) else use_proxy P.ctl P.ctl.proxy e1)
          e1 o (source_other uri P.ctl.has_local_source e1 o)

    pub forget-IsSound :
        (uri : String) (e : EngineState S) → IsSound e → IsSound (forget P.ctl uri e)
    forget-IsSound uri e h = other-IsSound uri (forget P.ctl uri e) (forget-IsOther uri e h)

    pub remove_app-IsSound :
        (app : String × String) (e : EngineState S) → IsSound e → IsSound (remove_app P.ctl app e)
    unfolding remove_app
    remove_app-IsSound (name, uri) e h =
        let stop = Command.stop name in
        let (r, e1) = exec_on P.ctl stop (forget P.ctl uri e) in
        let h1 = exec_on-IsSound stop (forget P.ctl uri e) (λ x. refl) (forget-IsSound uri e h) in
        elim r
          as (λ (r : Ran).
            IsSound (elim r [
              | Ran.output out ↦ (exec_on P.ctl (Command.uninstall name) e1).1
              | _ ↦ e1
            ])) [
              | Ran.output out ↦ exec_on-IsSound (Command.uninstall name) e1 (λ x. refl) h1
              | Ran.exec_error code stderr what ↦ h1
              | Ran.thrown what ↦ h1
            ]

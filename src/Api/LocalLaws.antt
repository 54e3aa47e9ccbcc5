-- ===== src/Api/LocalLaws.antt =====
-- Where the targets of an offline check-in (`CheckInLocal` of src/api.cc) come from.
use aktualizr_lite.Api.BundleLaws.{IsTrusted, check_bundle-passed}
use aktualizr_lite.Results.{CheckInResult, LocalUpdateSource}
use aktualizr_lite.Api.Select.{filter_targets, is_admissible}
use aktualizr_lite.Api.SelectLaws.{Sorts}
use aktualizr_lite.Apps.Choice.{get_required_apps}
use aktualizr_lite.Target.{TufTarget, UptaneTarget, from_tuf_target, to_tuf_target}
use aktualizr_lite.Prelude.{
  All, All-mem, Bool-cases, List, Memᴰ, Option, Option-cases, String, [], ap, arith, contains, inl,
  inr, int_eq, is_nil, keep, map, mem_of_append, mem_of_keep, mem_of_map, nat_eq, none, refl, some,
  string_eq, subst, sym, true, ◌++◌, ◌==◌, ◌>>=◌, ◌||◌, ◌∙◌, ◌∷◌, ◌≡◌,
}
use aktualizr_lite.Api.Bundle.{passed, refused}
use aktualizr_lite.Api.CheckIn.{
  CheckInEnv, check_in_content, check_in_failure, check_in_local, get_bundle, is_usable, offer,
  update_meta,
}
use aktualizr_lite.Api.Bundle.{
  Bundle, Checked, check_bundle, check_kind, trusted_bundle_targets, trusted_targets,
}
use aktualizr_lite.Api.Available.{
  Content, Shortlist, available, available_targets, fetched_shortlist, is_complete, is_none_of,
  offered, with_apps,
}

-- The bundle, if there is one, lists the target.
abbrev pub Allows : Option Bundle → TufTarget → Type 0
Allows none t = Unit {0}
Allows (some b) t = contains b.targets t.name ≡ true

trusted_bundle_targets-mem :
    (t : TufTarget) (ts : List TufTarget) (names : List String)
    → Memᴰ t (trusted_bundle_targets ts names)
    → Memᴰ t ts × (contains names t.name ≡ true)
unfolding trusted_bundle_targets
trusted_bundle_targets-mem t ts [] m = elim m [ ]
trusted_bundle_targets-mem t ts (name ∷ names) m =
    elim (mem_of_append t (keep (λ u. name == u.name) ts) (trusted_bundle_targets ts names) m) [
      | inl h ↦ let (k, e) = mem_of_keep (λ u. name == u.name) t ts h in (k, ground (arith, e))
      | inr h ↦ let (k, e) = trusted_bundle_targets-mem t ts names h in (k, ground (arith, e))
    ]

trusted_targets-mem :
    (t : TufTarget) (ts : List TufTarget) (bundle : Option Bundle)
    → Memᴰ t (trusted_targets ts bundle)
    → Memᴰ t ts × Allows bundle t
unfolding trusted_targets
trusted_targets-mem t ts none m = (m, tt)
trusted_targets-mem t ts (some b) m = trusted_bundle_targets-mem t ts b.targets m

-- The target `t` is offered as `y`: the name and the hash are the same, and the commit is there.
abbrev IsOffered : Content → UptaneTarget → UptaneTarget → Type 0
IsOffered content t y =
    (y.filename ≡ t.filename) × (y.sha256 ≡ t.sha256) × (content.has_commit t.sha256 ≡ true)

offered-same :
    (list : Shortlist) (t : UptaneTarget)
    → ((offered list t).filename ≡ t.filename) × ((offered list t).sha256 ≡ t.sha256)
unfolding offered
offered-same Shortlist.all_target_apps t = (refl, refl)
offered-same Shortlist.none_of_target_apps t = (refl, refl)
offered-same (Shortlist.only_shortlisted names) t = (refl, refl)

available-IsOffered :
    (content : Content) (t : UptaneTarget) (found : List UptaneTarget)
    → available content t ≡ some found
    → All (IsOffered content t) found
unfolding available
available-IsOffered content t found e =
    let list = fetched_shortlist content.split t.custom in
    let same = offered-same list t in
    let nothing : [] ≡ found → All (IsOffered content t) found =
      λ h. subst (All (IsOffered content t)) h tt in
    elim (Bool-cases (content.has_commit t.sha256)) [
      | inr bad ↦ nothing (ground (arith, bad, e))
      | inl good ↦
          let one : (offered list t ∷ []) ≡ found → All (IsOffered content t) found =
            λ h. subst (All (IsOffered content t)) h ((same.0, same.1, good), tt) in
          elim (Bool-cases content.has_apps) [
            | inr plain ↦
                let h : (with_apps t.custom.apps t ∷ []) ≡ found = ground (arith, good, plain, e) in
                subst (All (IsOffered content t)) h ((refl, refl, good), tt)
            | inl compose ↦ elim (Bool-cases (is_none_of list)) [
              | inl off ↦ one (ground (arith, good, compose, off, e))
              | inr on ↦ elim (Option-cases (get_required_apps content.config t.custom.apps)) [
                | inl h ↦ ground (arith, good, compose, on, h, e)
                | inr (required, h) ↦ elim (Bool-cases (is_complete content list required)) [
                  | inl full ↦ one (ground (arith, good, compose, on, h, full, e))
                  | inr lacking ↦ nothing (ground (arith, good, compose, on, h, lacking, e))
                ]
              ]
            ]
          ]
    ]

available_targets-IsOffered :
    (content : Content) (ts found : List UptaneTarget) (y : UptaneTarget)
    → available_targets content ts ≡ some found
    → Memᴰ y found
    → (t : UptaneTarget) × Memᴰ t ts × IsOffered content t y
unfolding available_targets
available_targets-IsOffered content [] found y e m =
    let h : [] ≡ found = ground (arith, e) in elim (subst (Memᴰ y) (sym h) m) [ ]
available_targets-IsOffered content (t ∷ ts) found y e m =
    go (available content t) refl (available_targets content ts) refl
      (available_targets-IsOffered content ts) e
  where
    go :
        (o : Option (List UptaneTarget))
        → available content t ≡ o
        → (r : Option (List UptaneTarget)) → available_targets content ts ≡ r
        → ((found : List UptaneTarget) (y : UptaneTarget)
            → available_targets content ts ≡ some found
            → Memᴰ y found
            → (t : UptaneTarget) × Memᴰ t ts × IsOffered content t y)
        → (o >>= (λ (f : List UptaneTarget). r >>= (λ (g : List UptaneTarget). some (f ++ g))))
          ≡ some found
        → (t' : UptaneTarget) × Memᴰ t' (t ∷ ts) × IsOffered content t' y
    go none o r q ih h = ground (arith, h)
    go (some f) o none q ih h = ground (arith, h)
    go (some f) o (some g) q ih h =
        let fg : f ++ g ≡ found = ground (arith, h) in
        elim (mem_of_append y f g (subst (Memᴰ y) (sym fg) m)) [
          | inl k ↦ (
            t,
            Memᴰ.head refl,
            All-mem (IsOffered content t) y f k (available-IsOffered content t f o),
          )
          | inr k ↦ let (t', k', same) = ih g y q k in (t', Memᴰ.tail k', same)
        ]

module _ {S : Type 0} (E : CheckInEnv S) (only : Sorts E.sort) where
  -- A target of an offline check-in comes from this target of the TUF repository.
  abbrev pub ComesFrom : Option Bundle → Content → List TufTarget → TufTarget → TufTarget → Type 0
  ComesFrom bundle content tuf_targets y t =
      Memᴰ t tuf_targets
      × Allows bundle t
      × (is_admissible E.hw_id E.tags E.secondary_hwids t ≡ true)
      × (y.name ≡ t.name)
      × (y.sha256 ≡ t.sha256)
      × (content.has_commit t.sha256 ≡ true)

  offered-ComesFrom :
      (bundle : Option Bundle) (content : Content) (tuf_targets : List TufTarget)
      (found : List UptaneTarget) (y : TufTarget)
      → available_targets content (
          map from_tuf_target (
            filter_targets E.sort
              (trusted_targets tuf_targets bundle)
              E.hw_id
              E.tags
              E.secondary_hwids))
        ≡ some found
      → Memᴰ y (map to_tuf_target found)
      → (t : TufTarget) × ComesFrom bundle content tuf_targets y t
  unfolding to_tuf_target from_tuf_target filter_targets
  offered-ComesFrom bundle content tuf_targets found y e m =
      let (u, mu, eu) = mem_of_map to_tuf_target y found m in
      let (v, mv, same) = available_targets-IsOffered content _ found u e mu in
      let (t, mt, ev) = mem_of_map from_tuf_target v _ mv in
      let kept = only.only t _ mt in
      let (mk, good) =
        mem_of_keep (is_admissible E.hw_id E.tags E.secondary_hwids) t
          (trusted_targets tuf_targets bundle) kept in
      let (known, allowed) = trusted_targets-mem t tuf_targets bundle mk in
      (
        t,
        (
          known,
          allowed,
          good,
          ap (λ (x : TufTarget). x.name) eu ∙ (same.0 ∙ ap (λ (x : UptaneTarget). x.filename) ev),
          ap (λ (x : TufTarget). x.sha256) eu ∙ (same.1 ∙ ap (λ (x : UptaneTarget). x.sha256) ev),
          ap (λ (x : UptaneTarget). content.has_commit x.sha256) (sym ev) ∙ same.2,
        ),
      )

  -- Either there is no bundle metadata, or it is trusted.
  abbrev pub IsChecked : LocalUpdateSource → S → Option Bundle → Type 0
  IsChecked src s none = E.bundle src s ≡ none
  IsChecked src s (some b) =
      (E.bundle src s ≡ some b) × IsTrusted E.verify E.client_type E.tags (E.root src s) b

  get_bundle-IsChecked :
      (src : LocalUpdateSource) (s : S) (bundle : Option Bundle)
      → get_bundle E src s ≡ passed bundle
      → IsChecked src s bundle
  unfolding get_bundle
  get_bundle-IsChecked src s bundle e = go (E.bundle src s) refl
    where
      present :
          (b : Bundle)
          → E.bundle src s ≡ some b
          → (c : Checked Bundle)
          → check_kind E.client_type E.tags (check_bundle E.verify (E.root src s) b) ≡ c
          → IsChecked src s bundle
      present b q (refused x) k = ground (arith, q, k, e)
      present b q (passed b') k =
          let (same, trusted) =
            check_bundle-passed E.verify E.client_type E.tags (E.root src s) b b' k in
          let h : some b' ≡ bundle = ground (arith, q, k, e) in
          subst (IsChecked src s) (ap some (sym same) ∙ h) (q, trusted)

      go : (o : Option Bundle) → E.bundle src s ≡ o → IsChecked src s bundle
      go none q = let h : none ≡ bundle = ground (arith, q, e) in subst (IsChecked src s) h q
      go (some b) q =
          present b q (check_kind E.client_type E.tags (check_bundle E.verify (E.root src s) b))
            refl

  -- What `CheckInLocal` establishes of a target that it gives.
  abbrev pub IsVouched : LocalUpdateSource → S → TufTarget → Type 0
  IsVouched src s y =
      let s2 = (update_meta E (some src) s).1 in
      (bundle : Option Bundle) × IsChecked src s bundle
      × ((t : TufTarget) × ComesFrom bundle (E.content src s2) (E.tuf_targets s2) y t)

  check_in_content-ComesFrom :
      (bundle : Option Bundle) (src : LocalUpdateSource) (s s' : S) (r : CheckInResult)
      (y : TufTarget)
      → check_in_content E bundle src s ≡ some (r, s')
      → Memᴰ y r.targets
      → let s2 = (update_meta E (some src) s).1 in
        (t : TufTarget) × ComesFrom bundle (E.content src s2) (E.tuf_targets s2) y t
  unfolding check_in_content check_in_failure offer
  check_in_content-ComesFrom bundle src s s' r y e m =
      let (status, s2) = update_meta E (some src) s in
      let trusted = trusted_targets (E.tuf_targets s2) bundle in
      let found = filter_targets E.sort trusted E.hw_id E.tags E.secondary_hwids in
      let nothing : [] ≡ r.targets
          → (t : TufTarget) × ComesFrom bundle (E.content src s2) (E.tuf_targets s2) y t =
        λ h. elim (subst (Memᴰ y) (sym h) m) [ ] in
      elim (Bool-cases (is_usable status)) [
        | inr bad ↦ nothing (ground (arith, bad, e))
        | inl good ↦ elim (Bool-cases (is_nil trusted || is_nil found)) [
          | inl empty ↦ nothing (ground (arith, good, empty, e))
          | inr some_found ↦
              elim (Option-cases
                (available_targets (E.content src s2) (map from_tuf_target found))) [
                  | inl h ↦ ground (arith, good, some_found, h, e)
                  | inr (offers, h) ↦ elim (Bool-cases (is_nil offers)) [
                    | inl empty ↦ nothing (ground (arith, good, some_found, h, empty, e))
                    | inr full ↦
                        let given : r.targets ≡ map to_tuf_target offers =
                          ground (arith, good, some_found, h, full, e) in
                        offered-ComesFrom bundle (E.content src s2) (E.tuf_targets s2) offers y h
                          (subst (Memᴰ y) given m)
                  ]
                ]
        ]
      ]

  -- Every target that an offline check-in gives has the name and the hash of a target of the device's
  -- TUF repository, as it is after the update of the metadata, that suits the device by its format,
  -- tags and hardware id and whose commit is in the source's repository. If the source has bundle
  -- metadata, it lists that target, has passed the checks of its type, tag and expiry, and each of
  -- its signatures, which are no fewer than the threshold, is by a key of the role and verifies.
  pub check_in_local-IsVouched :
      (src : LocalUpdateSource) (s s' : S) (r : CheckInResult) (y : TufTarget)
      → check_in_local E src s ≡ some (r, s')
      → Memᴰ y r.targets
      → IsVouched src (E.notify_started s) y
  unfolding check_in_local check_in_failure
  check_in_local-IsVouched src s s' r y e m = go (get_bundle E src (E.notify_started s)) refl
    where
      go :
          (c : Checked (Option Bundle))
          → get_bundle E src (E.notify_started s) ≡ c
          → IsVouched src (E.notify_started s) y
      go (refused x) q =
          let h : [] ≡ r.targets = ground (arith, q, e) in elim (subst (Memᴰ y) (sym h) m) [ ]
      go (passed bundle) q = (
        bundle,
        get_bundle-IsChecked src (E.notify_started s) bundle q,
        check_in_content-ComesFrom bundle src (E.notify_started s) s' r y (ground (arith, q, e)) m,
      )

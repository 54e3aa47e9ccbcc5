-- ===== src/Docker/PruneLaws.antt =====
-- An app of the shortlist keeps the blobs of its images: `prune` of
-- src/docker/restorableappengine.cc.
use aktualizr_lite.Docker.KeepLaws.{
  Has, HasListed, Step, Step-refl, Step_trans, keep_version-HasListed, keep_version-Step,
}
use aktualizr_lite.Docker.ListLaws.{And}
use aktualizr_lite.Docker.Prune.{
  AppStore, Pruning, app_root, find_app, prune_app, prune_apps, prune_version, prune_versions,
  removed,
}
use aktualizr_lite.Docker.Spared.{AppData-map, HasBlobIn, Spares}
use aktualizr_lite.Docker.Uri.{Uri, parse_uri}
use aktualizr_lite.Docker.Fetched.{under}
use mathlib.Core.Option.{some-injective}
use aktualizr_lite.Prelude.{
  Bool, Bool-cases, List, Memᴰ, Option, String, [], ap, eq_iff, false, false-ne-true, if_false,
  if_true, inl, inr, int_eq, nat_eq, none, refl, some, some_of_bind, string_eq, subst, sym, true,
  ◌==◌, ◌>>=◌, ◌∙◌, ◌∷◌, ◌≡◌, ◌≢◌,
}

module _ {S : Type 0} (A : AppStore S) where
  -- Apps have the names of their directories, by their URIs.
  abbrev pub NamesAgree : List (String × String) → Type 0
  NamesAgree shortlist =
      (name uri : String) (w : Uri)
      → find_app name shortlist ≡ some uri
      → parse_uri A.files.to_lower true uri ≡ some w
      → w.app ≡ name

  module _ (u : Uri) (R : Spares A u) where
    abbrev StepOf : Pruning S → Pruning S → Type 0
    StepOf p p' = Step A u p.blobs p.device p'.blobs p'.device

    StepOf-trans : (p q r : Pruning S) → StepOf p q → StepOf q r → StepOf p r
    StepOf-trans p q r a b = Step_trans A u p.blobs q.blobs r.blobs p.device q.device r.device a b

    StepOf-some : (p q p' : Pruning S) → some q ≡ some p' → StepOf p q → StepOf p p'
    StepOf-some p q p' e s = subst (StepOf p) (some-injective _ _ e) s

    Has-StepOf : (p p' : Pruning S) → StepOf p p' → Has A u p → Has A u p'
    Has-StepOf p p' (m, (a, f)) =
        AppData-map A u (HasBlobIn A u p.device) (HasBlobIn A u p'.device) p.device p'.device a
          (λ h k. ((f h).blob_exists ∙ k, f h))

    HasListed-StepOf : (p p' : Pruning S) → StepOf p p' → HasListed A u p → HasListed A u p'
    HasListed-StepOf p p' (m, (a, f)) =
        AppData-map A u (And A (HasBlobIn A u p.device) p.blobs)
          (And A (HasBlobIn A u p'.device) p'.blobs) p.device p'.device a
          (λ h k. (((f h).blob_exists ∙ k.0, m h k.1), f h))

    not_equal : (a b : String) → a == b ≡ false → a ≢ b
    not_equal a b e same = false-ne-true (sym e ∙ (eq_iff a b).1 same)

    prune_version-StepOf :
        (w : Uri) (e : String × Bool) (p p' : Pruning S)
        → w.app ≢ u.app
        → prune_version A w e p ≡ some p'
        → StepOf p p'
    unfolding prune_version
    prune_version-StepOf w (name, false) p p' ne e =
        StepOf-some p p p' e (Step-refl A u p.blobs p.device)
    prune_version-StepOf w (name, true) p p' ne e = elim (Bool-cases (name == w.digest.hash)) [
      | inl b ↦ keep_version-Step A u R w p p' ne (if_true _ _ _ _ b e)
      | inr b ↦
          StepOf-some p (removed A (under (app_root A w.app) name) p) p' (if_false _ _ _ _ b e)
            ((λ h i. i), R.version_dir w.app name p.device (inl ne))
    ]

    prune_versions-StepOf :
        (w : Uri) (es : List (String × Bool)) (p p' : Pruning S)
        → w.app ≢ u.app
        → prune_versions A w es p ≡ some p'
        → StepOf p p'
    unfolding prune_versions
    prune_versions-StepOf w [] p p' ne e = StepOf-some p p p' e (Step-refl A u p.blobs p.device)
    prune_versions-StepOf w (x ∷ es) p p' ne e =
        let (q, k, f) = some_of_bind (prune_version A w x p) (prune_versions A w es) p' e in
        StepOf-trans p q p' (prune_version-StepOf w x p q ne k)
          (prune_versions-StepOf w es q p' ne f)

    -- A version of the app itself is removed, or it is the one that is kept.
    prune_version-HasListed :
        (x : String × Bool) (p p' : Pruning S)
        → Has A u p
        → prune_version A u x p ≡ some p'
        → StepOf p p' × (x ≡ (u.digest.hash, true) → HasListed A u p')
    unfolding prune_version
    prune_version-HasListed (name, false) p p' j e = (
      StepOf-some p p p' e (Step-refl A u p.blobs p.device),
      λ same. elim (false-ne-true (ap (λ y. y.1) same)) [ ],
    )
    prune_version-HasListed (name, true) p p' j e = elim (Bool-cases (name == u.digest.hash)) [
      | inl b ↦
          let (s, l) = keep_version-HasListed A u p p' j (if_true _ _ _ _ b e) in (s, λ same. l)
      | inr b ↦ (
        StepOf-some p (removed A (under (app_root A u.app) name) p) p' (if_false _ _ _ _ b e)
            ((λ h i. i), R.version_dir u.app name p.device (inr (not_equal name u.digest.hash b))),
        λ same. elim (not_equal name u.digest.hash b (ap (λ y. y.0) same)) [ ],
      )
    ]

    prune_versions-HasListed :
        (es : List (String × Bool)) (p p' : Pruning S)
        → Has A u p
        → prune_versions A u es p ≡ some p'
        → StepOf p p' × (Memᴰ (u.digest.hash, true) es → HasListed A u p')
    unfolding prune_versions
    prune_versions-HasListed [] p p' j e =
        (StepOf-some p p p' e (Step-refl A u p.blobs p.device), λ m. elim m [ ])
    prune_versions-HasListed (x ∷ es) p p' j e =
        let (q, k, f) = some_of_bind (prune_version A u x p) (prune_versions A u es) p' e in
        let (s, g) = prune_version-HasListed x p q j k in
        let (t, h) = prune_versions-HasListed es q p' (Has-StepOf p q s j) f in
        (
          StepOf-trans p q p' s t,
          λ m. elim m [
            | Memᴰ.head same ↦ HasListed-StepOf q p' t (g (sym same))
            | Memᴰ.tail n ↦ h n
          ],
        )

    -- The directory of another app.
    prune_app-StepOf :
        (name : String) (o : Option String) (p p' : Pruning S)
        → name ≢ u.app
        → ((uri : String) (w : Uri)
            → o ≡ some uri
            → parse_uri A.files.to_lower true uri ≡ some w
            → w.app ≡ name)
        → prune_app A name o p ≡ some p'
        → StepOf p p'
    unfolding prune_app
    prune_app-StepOf name none p p' ne agree e =
        StepOf-some p (removed A (app_root A name) p) p' e ((λ h i. i), R.app_dir name p.device ne)
    prune_app-StepOf name (some uri) p p' ne agree e =
        let (w, k, f) =
          some_of_bind (parse_uri A.files.to_lower true uri)
            (λ w. A.entries (app_root A w.app) p.device >>= λ es. prune_versions A w es p) p' e in
        let (es, l, g) =
          some_of_bind (A.entries (app_root A w.app) p.device) (λ es. prune_versions A w es p) p'
            f in
        prune_versions-StepOf w es p p' (λ same. ne (sym (agree uri w refl k) ∙ same)) g

    -- The directory of the app itself.
    prune_app-HasListed :
        (name uri : String) (p p' : Pruning S)
        → parse_uri A.files.to_lower true uri ≡ some u
        → Has A u p
        → prune_app A name (some uri) p ≡ some p'
        → StepOf p p' × HasListed A u p'
    unfolding prune_app
    prune_app-HasListed name uri p p' pu j e =
        let (services, rd, (es, k, m), all) = j in
        let found =
          ap
            (λ o.
              o >>= λ w. A.entries (app_root A w.app) p.device >>= λ es. prune_versions A w es p)
            pu
          ∙ ap (λ o. o >>= λ es. prune_versions A u es p) k in
        let (s, h) = prune_versions-HasListed es p p' j (sym found ∙ e) in (s, h m)

    pub prune_apps-HasListed :
        (shortlist : List (String × String)) (uri : String)
        → NamesAgree shortlist
        → find_app u.app shortlist ≡ some uri
        → parse_uri A.files.to_lower true uri ≡ some u
        → (es : List (String × Bool)) (p p' : Pruning S) → Has A u p
        → prune_apps A shortlist es p ≡ some p'
        → StepOf p p' × (Memᴰ (u.app, true) es → HasListed A u p')
    unfolding prune_apps
    prune_apps-HasListed shortlist uri agree fu pu [] p p' j e =
        (StepOf-some p p p' e (Step-refl A u p.blobs p.device), λ m. elim m [ ])
    prune_apps-HasListed shortlist uri agree fu pu ((name, false) ∷ es) p p' j e =
        let (s, h) = prune_apps-HasListed shortlist uri agree fu pu es p p' j e in
        (
          s,
          λ m. elim m [
            | Memᴰ.head same ↦ elim (false-ne-true (ap (λ y. y.1) (sym same))) [ ]
            | Memᴰ.tail n ↦ h n
          ],
        )
    prune_apps-HasListed shortlist uri agree fu pu ((name, true) ∷ es) p p' j e =
        let (q, k, f) =
          some_of_bind (prune_app A name (find_app name shortlist) p) (prune_apps A shortlist es) p'
            e in
        elim (Bool-cases (name == u.app)) [
          | inl b ↦
              let own = ap (λ n. find_app n shortlist) ((string_eq.decides name u.app).0 b) ∙ fu in
              let (s, l) =
                prune_app-HasListed name uri p q pu j
                  (ap (λ o. prune_app A name o p) (sym own) ∙ k) in
              let (t, h) =
                prune_apps-HasListed shortlist uri agree fu pu es q p' (Has-StepOf p q s j) f in
              (StepOf-trans p q p' s t, λ m. HasListed-StepOf q p' t l)
          | inr b ↦
              let ne = not_equal name u.app b in
              let s =
                prune_app-StepOf name (find_app name shortlist) p q ne (λ v w. agree name v w) k in
              let (t, h) =
                prune_apps-HasListed shortlist uri agree fu pu es q p' (Has-StepOf p q s j) f in
              (
                StepOf-trans p q p' s t,
                λ m. elim m [
                  | Memᴰ.head same ↦ elim (ne (sym (ap (λ y. y.0) same))) [ ]
                  | Memᴰ.tail n ↦ h n
                ],
              )
        ]

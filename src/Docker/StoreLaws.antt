-- ===== src/Docker/StoreLaws.antt =====
-- The whole of `prune` of src/docker/restorableappengine.cc, for an app of the shortlist.
use aktualizr_lite.Docker.KeepLaws.{HasListed}
use aktualizr_lite.Docker.ListLaws.{And}
use aktualizr_lite.Docker.PruneLaws.{NamesAgree, prune_apps-HasListed}
use aktualizr_lite.Docker.Spared.{
  AppData, AppData-map, HasBlobIn, SameApp-refl, SameView, SameView-refl, SameView-trans, Spares,
}
use aktualizr_lite.Docker.Uri.{Uri, parse_uri}
use aktualizr_lite.Docker.Fetched.{blob_path, under}
use mathlib.Core.Option.{some-injective}
use aktualizr_lite.Docker.Prune.{
  AppStore, Pruning, find_app, is_shortlisted, prune, prune_apps, prune_blobs, prune_docker,
  prune_docker_store, prune_listed, prune_store, removed,
}
use aktualizr_lite.Prelude.{
  Bool, Bool-cases, List, Memᴰ, Option, String, [], ap, eq_iff, false, false-ne-true, if_false,
  if_true, if◌then◌else◌, inl, inr, int_eq, nat_eq, none, none_not_some, refl, some, some_of_bind,
  string_eq, subst, sym, true, ◌==◌, ◌>>=◌, ◌∙◌, ◌∷◌, ◌≡◌,
}

any-Memᴰ_lem : (h : String) (l : List String) → Memᴰ h l → is_shortlisted h l ≡ true
any-Memᴰ_lem h [] m = elim m [ ]
any-Memᴰ_lem h (x ∷ l) (Memᴰ.head e) = rw ((eq_iff x h).1 (sym e)) refl
any-Memᴰ_lem h (x ∷ l) (Memᴰ.tail m) = elim (Bool-cases (x == h)) [
  | inl b ↦ rw b refl
  | inr b ↦ rw b (any-Memᴰ_lem h l m)
]

module _ {S : Type 0} (A : AppStore S) (u : Uri) (R : Spares A u) where
  -- A blob that is removed is none of those that are listed.
  removed-HasListed :
      (name : String) (p : Pruning S)
      → is_shortlisted name p.blobs ≡ false
      → HasListed A u p
      → HasListed A u (removed A (blob_path A.files name) p)
  removed-HasListed name p out =
      let p' = removed A (blob_path A.files name) p in
      AppData-map A u (And A (HasBlobIn A u p.device) p.blobs)
        (And A (HasBlobIn A u p'.device) p.blobs) p.device p'.device (R.blob_app name p.device)
        (λ h k.
          let same = R.other_blob name h p.device (λ e.
            false-ne-true
              (sym out ∙ any-Memᴰ_lem name p.blobs (subst (λ b. Memᴰ b p.blobs) (sym e) k.1))) in
          ((same.blob_exists ∙ k.0, k.1), same))

  prune_blobs-HasListed :
      (es : List (String × Bool)) (p : Pruning S)
      → HasListed A u p
      → HasListed A u (prune_blobs A es p)
  unfolding prune_blobs
  prune_blobs-HasListed [] p j = j
  prune_blobs-HasListed ((name, true) ∷ es) p j = prune_blobs-HasListed es p j
  prune_blobs-HasListed ((name, false) ∷ es) p j =
      let q = removed A (blob_path A.files name) p in
      elim (Bool-cases (is_shortlisted name p.blobs)) [
        | inl b ↦
            subst (λ t. HasListed A u (if t then prune_blobs A es p else prune_blobs A es q))
              (sym b) (prune_blobs-HasListed es p j)
        | inr b ↦
            subst (λ t. HasListed A u (if t then prune_blobs A es p else prune_blobs A es q))
              (sym b) (prune_blobs-HasListed es q (removed-HasListed name p b j))
      ]

  if-SameView :
      (b : Bool) (s x y : S)
      → SameView A u s x
      → SameView A u s y
      → SameView A u s (if b then x else y)
  if-SameView true s x y v w = v
  if-SameView false s x y v w = w

  prune_docker-SameView : (p : Pruning S) → SameView A u p.device (prune_docker A p)
  prune_docker-SameView p =
      let s = p.device in
      let (done, s1) = A.prune_containers s in
      let v = R.containers s in
      if-SameView p.prunes_docker s (prune_docker_store A s) s
        (if-SameView done s (A.prune_images s1).1 s1
          (SameView-trans A u s s1 (A.prune_images s1).1 v (R.images s1)) v)
        (SameView-refl A u s)

  -- What is listed is found in the end.
  abbrev Found : S → Type 0
  Found s = AppData A u (HasBlobIn A u s) s

  prune_docker-Found : (p : Pruning S) → HasListed A u p → Found (prune_docker A p)
  prune_docker-Found p =
      let (a, f) = prune_docker-SameView p in
      AppData-map A u (And A (HasBlobIn A u p.device) p.blobs) (HasBlobIn A u (prune_docker A p))
        p.device (prune_docker A p) a (λ h k. ((f h).blob_exists ∙ k.0, f h))

  HasListed-Found : (p : Pruning S) → HasListed A u p → Found p.device
  HasListed-Found p =
      AppData-map A u (And A (HasBlobIn A u p.device) p.blobs) (HasBlobIn A u p.device) p.device
        p.device (SameApp-refl A u p.device) (λ h k. (k.0, (SameView-refl A u p.device).1 h))

  prune_listed-Found :
      (o : Option (List (String × Bool))) (p : Pruning S) (s' : S)
      → HasListed A u p
      → prune_listed A o p ≡ some s'
      → Found s'
  prune_listed-Found none p s' j e = none_not_some e
  prune_listed-Found (some es) p s' j e =
      subst Found (some-injective _ _ e)
        (prune_docker-Found (prune_blobs A es p) (prune_blobs-HasListed es p j))

  prune_store-Found :
      (p : Pruning S) (s' : S) → HasListed A u p → prune_store A p ≡ some s' → Found s'
  unfolding prune_store
  prune_store-Found p s' j e =
      let root = under A.files.blobs_root "sha256" in
      elim (Bool-cases (A.files.exists root p.device)) [
        | inl b ↦ prune_listed-Found (A.entries root p.device) p s' j (if_true _ _ _ _ b e)
        | inr b ↦ subst Found (some-injective _ _ (if_false _ _ _ _ b e)) (HasListed-Found p j)
      ]

  -- Let an app be in the shortlist with a URI that can be read, let its directory and that of its
  -- version be there, and let its compose file, the index and the manifest of each of its images be
  -- readable and the blobs of the manifests, the configurations and the layers be in the store. Let
  -- the URIs of the shortlist have the names of their apps, and let a removal leave other files
  -- alone. Then all of this is still so after the pruning, if it ends without an exception.
  pub prune-AppData :
      (shortlist : List (String × String)) (uri : String) (es : List (String × Bool)) (s s' : S)
      → NamesAgree A shortlist
      → find_app u.app shortlist ≡ some uri
      → parse_uri A.files.to_lower true uri ≡ some u
      → A.entries A.files.apps_root s ≡ some es
      → Memᴰ (u.app, true) es
      → AppData A u (HasBlobIn A u s) s
      → prune A shortlist s ≡ some s'
      → AppData A u (HasBlobIn A u s') s'
  unfolding prune
  prune-AppData shortlist uri es s s' agree fu pu k m j e =
      let p : Pruning S = record { blobs = []; prunes_docker = false; device = s } in
      let found = ap (λ o. o >>= λ es. prune_apps A shortlist es p >>= prune_store A) k in
      let (q, f, g) =
        some_of_bind (prune_apps A shortlist es p) (prune_store A) s' (sym found ∙ e) in
      let (t, h) = prune_apps-HasListed A u R shortlist uri agree fu pu es p q j f in
      prune_store-Found q s' (h m) g

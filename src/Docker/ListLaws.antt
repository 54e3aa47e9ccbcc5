-- ===== src/Docker/ListLaws.antt =====
-- The blobs that are listed while the apps are pruned, in src/docker/restorableappengine.cc.
use aktualizr_lite.Docker.Prune.{
  AppStore, BlobRef, ImageRefs, Listed, add_hash, list_app, list_arrays, list_index, list_manifest,
  list_refs, then_list,
}
use aktualizr_lite.Docker.Spared.{LayerData, Mono}
use aktualizr_lite.Docker.Uri.{HashedDigest, Uri}
use aktualizr_lite.Docker.Fetched.{blob_path, digest_of}
use aktualizr_lite.Prelude.{
  All, Bool, List, Memᴰ, Option, String, [], ap, false, none, refl, some, subst, sym, true, ◌∙◌,
  ◌∷◌, ◌≡◌,
}

module _ {S : Type 0} (A : AppStore S) where
  then_list-Mono :
      (r : Listed) (f : List String → Listed) (l : List String)
      → Mono l r.0
      → ((k : List String) → Mono k (f k).0)
      → Mono l (then_list r f).0
  then_list-Mono (k, true) f l m g = λ h i. g k h (m h i)
  then_list-Mono (k, false) f l m g = m

  add_hash-Mono : (o : Option HashedDigest) (l : List String) → Mono l (add_hash A o l).0
  add_hash-Mono none l h i = i
  add_hash-Mono (some d) l h i = Memᴰ.tail i

  list_refs-Mono :
      (strict : Bool) (rs : List BlobRef) (l : List String) → Mono l (list_refs A strict rs l).0
  unfolding list_refs
  list_refs-Mono strict [] l = λ h i. i
  list_refs-Mono strict (BlobRef.named digest ∷ rs) l =
      then_list-Mono (add_hash A (digest_of A.files digest) l) (list_refs A strict rs) l
        (add_hash-Mono (digest_of A.files digest) l) (list_refs-Mono strict rs)
  list_refs-Mono strict (BlobRef.unnamed ∷ rs) l = list_refs-Mono strict rs l
  list_refs-Mono true (BlobRef.not_object ∷ rs) l = λ h i. i
  list_refs-Mono false (BlobRef.not_object ∷ rs) l = list_refs-Mono false rs l

  list_arrays-Mono :
      (arrays : List (List BlobRef)) (l : List String) → Mono l (list_arrays A arrays l).0
  unfolding list_arrays
  list_arrays-Mono [] l = λ h i. i
  list_arrays-Mono (rs ∷ arrays) l =
      then_list-Mono (list_refs A true rs l) (list_arrays A arrays) l (list_refs-Mono true rs l)
        (list_arrays-Mono arrays)

  pub list_app-Mono : (o : Option (List (List BlobRef))) (l : List String) → Mono l (list_app A o l)
  list_app-Mono none l = λ h i. i
  list_app-Mono (some arrays) l = list_arrays-Mono arrays l

  list_manifest-Mono : (o : Option ImageRefs) (l : List String) → Mono l (list_manifest A o l).0
  list_manifest-Mono none l = λ h i. i
  list_manifest-Mono (some m) l =
      then_list-Mono (add_hash A (digest_of A.files m.config) l) (list_refs A false m.layers) l
        (add_hash-Mono (digest_of A.files m.config) l) (list_refs-Mono false m.layers)

  pub list_index-Mono :
      (o : Option HashedDigest) (s : S) (l : List String) → Mono l (list_index A o s l).0
  list_index-Mono none s l = λ h i. i
  list_index-Mono (some d) s l = λ h i.
      list_manifest-Mono (A.image_refs (blob_path A.files d.hash) s) (d.hash ∷ l) h (Memᴰ.tail i)

  -- A property of a hash, and that it is listed.
  abbrev pub And : (String → Type 0) → List String → String → Type 0
  And K l h = K h × Memᴰ h l

  -- The layers that can be read are listed, without an exception.
  list_refs-LayerData :
      (u : Uri) (K : String → Type 0) (rs : List BlobRef) (l : List String)
      → All (LayerData A u K) rs
      → ((list_refs A false rs l).1 ≡ true)
        × All (LayerData A u (And K (list_refs A false rs l).0)) rs
  unfolding list_refs
  list_refs-LayerData u K [] l t = (refl, tt)
  list_refs-LayerData u K (BlobRef.named digest ∷ rs) l ((e, p, k), all) =
      let (b, ls) = list_refs-LayerData u K rs (e.hash ∷ l) all in
      let listed = list_refs-Mono false rs (e.hash ∷ l) e.hash (Memᴰ.head refl) in
      subst
        (λ o.
          ((then_list (add_hash A o l) (list_refs A false rs)).1 ≡ true)
          × All (LayerData A u (And K (then_list (add_hash A o l) (list_refs A false rs)).0))
              (BlobRef.named digest ∷ rs))
        (sym p) (b, ((e, p, (k, listed)), ls))
  list_refs-LayerData u K (BlobRef.unnamed ∷ rs) l (t, all) =
      let (b, ls) = list_refs-LayerData u K rs l all in (b, (t, ls))
  list_refs-LayerData u K (BlobRef.not_object ∷ rs) l (t, all) =
      let (b, ls) = list_refs-LayerData u K rs l all in (b, (t, ls))

  -- An image that can be read is listed with all that it names, without an exception.
  pub list_index-Lists :
      (u : Uri) (K : String → Type 0) (s : S) (l : List String) (o : Option HashedDigest)
      (d : HashedDigest) (m : ImageRefs) (c : HashedDigest)
      → o ≡ some d
      → A.image_refs (blob_path A.files d.hash) s ≡ some m
      → digest_of A.files m.config ≡ some c
      → All (LayerData A u K) m.layers
      → ((list_index A o s l).1 ≡ true)
        × Memᴰ d.hash (list_index A o s l).0
        × Memᴰ c.hash (list_index A o s l).0
        × All (LayerData A u (And K (list_index A o s l).0)) m.layers
  list_index-Lists u K s l o d m c od rm cx all =
      let k = c.hash ∷ d.hash ∷ l in
      let (b, ls) = list_refs-LayerData u K m.layers k all in
      let r = list_refs-Mono false m.layers k in
      let same =
        ap (λ i. list_index A i s l) od
        ∙ (ap (λ i. list_manifest A i (d.hash ∷ l)) rm
            ∙ ap (λ i. then_list (add_hash A i (d.hash ∷ l)) (list_refs A false m.layers)) cx) in
      subst
        (λ t.
          (t.1 ≡ true)
          × Memᴰ d.hash t.0
          × Memᴰ c.hash t.0
          × All (LayerData A u (And K t.0)) m.layers)
        (sym same) (b, r d.hash (Memᴰ.tail (Memᴰ.head refl)), r c.hash (Memᴰ.head refl), ls)

-- ===== src/Docker/KeepLaws.antt =====
-- The versions of apps that are kept while the apps are pruned, in
-- src/docker/restorableappengine.cc.
use aktualizr_lite.Docker.ListLaws.{And, list_app-Mono, list_index-Lists, list_index-Mono}
use aktualizr_lite.Docker.Prune.{
  AppStore, Listed, Pruning, after_list, keep_image, keep_images, keep_version, list_app,
  list_index,
}
use aktualizr_lite.Docker.Spared.{
  AppData, HasBlobIn, ImageData, ImageData-map, Mono, SameApp-refl, SameView, SameView-refl,
  SameView-trans, Spares, index_path,
}
use aktualizr_lite.Docker.Uri.{Uri}
use aktualizr_lite.Docker.Fetched.{ComposeInfo, app_dir_of, digest_of, image_root, image_uri, under}
use mathlib.Core.Option.{some-injective}
use aktualizr_lite.Prelude.{
  All, Bool, List, Memᴰ, Option, String, [], ap, false, false-ne-true, if◌then◌else◌, refl, some,
  some_of_bind, subst, sym, true, ◌>>=◌, ◌∙◌, ◌∷◌, ◌≡◌, ◌≢◌,
}

module _ {S : Type 0} (A : AppStore S) (u : Uri) where
  -- More is listed, and the app is left alone.
  abbrev pub Step : List String → S → List String → S → Type 0
  Step l s l' s' = Mono l l' × SameView A u s s'

  pub Step-refl : (l : List String) (s : S) → Step l s l s
  Step-refl l s = ((λ h i. i), SameView-refl A u s)

  pub Step_trans : (l k j : List String) (s t r : S) → Step l s k t → Step k t j r → Step l s j r
  Step_trans l k j s t r (m, v) (n, w) = ((λ h i. n h (m h i)), SameView-trans A u s t r v w)

  -- An image of the app that can be read is listed and left alone.
  after_list-true :
      (root : String) (r : Listed) (s : S) → r.1 ≡ true → after_list A root r s ≡ (r.0, s)
  after_list-true root (l, true) s e = refl
  after_list-true root (l, false) s e = elim (false-ne-true e) [ ]

  keep_image-Lists :
      (K : String → Type 0) (s : S) (l : List String) (service : String) (image : Option String)
      → ImageData A u K s (service, image)
      → (x : Uri) × (l' : List String) × (image_uri A.files image ≡ some x)
        × (keep_image A (app_dir_of A.files u) x l s ≡ (l', s))
        × Mono l l'
        × ImageData A u (And A K l') s (service, image)
  unfolding keep_image
  keep_image-Lists K s l service image (x, d, m, c, ux, ex, dx, rm, cx, kd, kc, ls) =
      let l1 = x.digest.hash ∷ l in
      let o = digest_of A.files (A.index_digest (index_path A u x) s) in
      let root = image_root A.files (app_dir_of A.files u) x in
      let (b, md, mc, all) = list_index-Lists A u K s l1 o d m c dx rm cx ls in
      (
        x,
        (list_index A o s l1).0,
        ux,
        ap
              (λ t.
                if t
                then after_list A root (list_index A o s l1) s
                else (l1, A.files.remove_all root s))
              ex
            ∙ after_list-true root (list_index A o s l1) s b,
        (λ h i. list_index-Mono A o s l1 h (Memᴰ.tail i)),
        (x, d, m, c, ux, ex, dx, rm, cx, (kd, md), (kc, mc), all),
      )

  ImageData-Mono :
      (K : String → Type 0) (s : S) (l l' : List String) (i : String × Option String)
      → Mono l l'
      → ImageData A u (And A K l) s i
      → ImageData A u (And A K l') s i
  ImageData-Mono K s l l' i m =
      ImageData-map A u (And A K l) (And A K l') s s i (SameApp-refl A u s)
        (λ h k. ((k.0, m h k.1), (SameView-refl A u s).1 h))

  keep_images-Lists :
      (K : String → Type 0) (s : S) (l : List String) (services : ComposeInfo)
      → All (ImageData A u K s) services
      → (l' : List String) × (keep_images A (app_dir_of A.files u) services (l, s) ≡ some (l', s))
        × Mono l l'
        × All (ImageData A u (And A K l') s) services
  unfolding keep_images
  keep_images-Lists K s l [] t = (l, refl, (λ h i. i), tt)
  keep_images-Lists K s l ((service, image) ∷ services) (data_of, all) =
      let dir = app_dir_of A.files u in
      let (x, k, ux, e, m, i) = keep_image-Lists K s l service image data_of in
      let (j, f, n, is) = keep_images-Lists K s k services all in
      (
        j,
        ap (λ o. o >>= λ w. keep_images A dir services (keep_image A dir w l s)) ux
            ∙ (ap (keep_images A dir services) e ∙ f),
        (λ h y. n h (m h y)),
        (ImageData-Mono K s k j (service, image) n i, is),
      )

  -- The blobs of the app's manifest are listed beside the others.
  abbrev pub Has : Pruning S → Type 0
  Has p = AppData A u (HasBlobIn A u p.device) p.device

  -- All that the app's images need is in the store and listed.
  abbrev pub HasListed : Pruning S → Type 0
  HasListed p = AppData A u (And A (HasBlobIn A u p.device) p.blobs) p.device

  if-Mono : (b : Bool) (l x y : List String) → Mono l x → Mono l y → Mono l (if b then x else y)
  if-Mono true l x y m n = m
  if-Mono false l x y m n = n

  abbrev first_blobs : Uri → Pruning S → List String
  first_blobs w p =
      let manifest = under (app_dir_of A.files w) "manifest.json" in
      if A.files.exists manifest p.device
      then list_app A (A.app_refs manifest p.device) (w.digest.hash ∷ p.blobs)
      else p.blobs

  pub first_blobs-Mono : (w : Uri) (p : Pruning S) → Mono p.blobs (first_blobs w p)
  first_blobs-Mono w p =
      let manifest = under (app_dir_of A.files w) "manifest.json" in
      if-Mono (A.files.exists manifest p.device) p.blobs
        (list_app A (A.app_refs manifest p.device) (w.digest.hash ∷ p.blobs)) p.blobs
        (λ h i.
          list_app-Mono A (A.app_refs manifest p.device) (w.digest.hash ∷ p.blobs) h (Memᴰ.tail i))
        (λ h i. i)

  -- The kept version of the app is listed with its images, and left alone.
  pub keep_version-HasListed :
      (p p' : Pruning S)
      → Has p
      → keep_version A u p ≡ some p'
      → Step p.blobs p.device p'.blobs p'.device × HasListed p'
  unfolding keep_version
  keep_version-HasListed p p' (services, rd, v, all) e =
      let dir = app_dir_of A.files u in
      let (l, f, m, is) =
        keep_images-Lists (HasBlobIn A u p.device) p.device (first_blobs u p) services all in
      let q : Pruning S = record p { blobs = l; device = p.device } in
      let found =
        ap
          (λ o. o >>= λ c. keep_images A dir c (first_blobs u p, p.device) >>= λ r.
            some (record p { blobs = r.0; device = r.1 }))
          rd
        ∙ ap (λ o. o >>= λ r. some (record p { blobs = r.0; device = r.1 })) f in
      subst (λ t. Step p.blobs p.device t.blobs t.device × HasListed t)
        (some-injective _ _ (sym found ∙ e))
        (
          ((λ h i. m h (first_blobs-Mono u p h i)), SameView-refl A u p.device),
          (services, rd, v, is),
        )

  module _ (R : Spares A u) where
    -- The image of another app is perhaps removed, and the app is left alone.
    after_list-Step :
        (w x : Uri) (l : List String) (r : Listed) (s : S)
        → w.app ≢ u.app
        → Mono l r.0
        → Step l s
            (after_list A (image_root A.files (app_dir_of A.files w) x) r s).0
            (after_list A (image_root A.files (app_dir_of A.files w) x) r s).1
    after_list-Step w x l (k, true) s ne m = (m, SameView-refl A u s)
    after_list-Step w x l (k, false) s ne m = (m, R.image_dir w x s ne)

    if-Step :
        (b : Bool) (l : List String) (s : S) (x y : List String × S)
        → Step l s x.0 x.1
        → Step l s y.0 y.1
        → Step l s (if b then x else y).0 (if b then x else y).1
    if-Step true l s x y m n = m
    if-Step false l s x y m n = n

    keep_image-Step :
        (w x : Uri) (l : List String) (s : S)
        → w.app ≢ u.app
        → Step l s
            (keep_image A (app_dir_of A.files w) x l s).0
            (keep_image A (app_dir_of A.files w) x l s).1
    unfolding keep_image
    keep_image-Step w x l s ne =
        let root = image_root A.files (app_dir_of A.files w) x in
        let index = under root "index.json" in
        let l1 = x.digest.hash ∷ l in
        let r = list_index A (digest_of A.files (A.index_digest index s)) s l1 in
        if-Step (A.files.exists index s) l s (after_list A root r s) (l1, A.files.remove_all root s)
          (after_list-Step w x l r s ne (λ h i.
            list_index-Mono A (digest_of A.files (A.index_digest index s)) s l1 h (Memᴰ.tail i)))
          ((λ h i. Memᴰ.tail i), R.image_dir w x s ne)

    keep_images-Step :
        (w : Uri) (services : ComposeInfo) (l l' : List String) (s s' : S)
        → w.app ≢ u.app
        → keep_images A (app_dir_of A.files w) services (l, s) ≡ some (l', s')
        → Step l s l' s'
    unfolding keep_images
    keep_images-Step w [] l l' s s' ne e =
        subst (λ r. Step l s r.0 r.1) (some-injective _ _ e) (Step-refl l s)
    keep_images-Step w ((service, image) ∷ services) l l' s s' ne e =
        let dir = app_dir_of A.files w in
        let (x, ux, f) =
          some_of_bind (image_uri A.files image)
            (λ y. keep_images A dir services (keep_image A dir y l s)) (l', s') e in
        let r = keep_image A dir x l s in
        Step_trans l r.0 l' s r.1 s' (keep_image-Step w x l s ne)
          (keep_images-Step w services r.0 l' r.1 s' ne f)

    pub keep_version-Step :
        (w : Uri) (p p' : Pruning S)
        → w.app ≢ u.app
        → keep_version A w p ≡ some p'
        → Step p.blobs p.device p'.blobs p'.device
    unfolding keep_version
    keep_version-Step w p p' ne e =
        let dir = app_dir_of A.files w in
        let (c, rd, f) =
          some_of_bind (A.files.read_compose (under dir "docker-compose.yml") p.device)
            (λ c. keep_images A dir c (first_blobs w p, p.device) >>= λ r.
              some (record p { blobs = r.0; device = r.1 }))
            p' e in
        let (r, k, g) =
          some_of_bind (keep_images A dir c (first_blobs w p, p.device))
            (λ r. some (record p { blobs = r.0; device = r.1 })) p' f in
        let (m, v) = keep_images-Step w c (first_blobs w p) r.0 p.device r.1 ne k in
        subst (λ t. Step p.blobs p.device t.blobs t.device) (some-injective _ _ g)
          ((λ h i. m h (first_blobs-Mono w p h i)), v)

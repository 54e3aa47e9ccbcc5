-- ===== src/Docker/Spared.antt =====
-- What the images of an app need of the store, and what leaves it alone.
use aktualizr_lite.Docker.Prune.{AppStore, BlobRef, ImageRefs, app_root}
use aktualizr_lite.Docker.Uri.{HashedDigest, Uri}
use aktualizr_lite.Docker.Fetched.{
  ComposeInfo, app_dir_of, blob_path, digest_of, image_root, image_uri, under,
}
use aktualizr_lite.Prelude.{
  All, All-map, Bool, List, Memᴰ, Option, String, ap, refl, some, true, ◌∙◌, ◌≡◌, ◌≢◌, ◌⊎◌,
}

abbrev pub Mono : List String → List String → Type 0
Mono l l' = (h : String) → Memᴰ h l → Memᴰ h l'

module _ {S : Type 0} (A : AppStore S) (u : Uri) where
  abbrev pub compose_path : String
  compose_path = under (app_dir_of A.files u) "docker-compose.yml"

  abbrev pub index_path : Uri → String
  index_path x = under (image_root A.files (app_dir_of A.files u) x) "index.json"

  -- The version of the app has a directory.
  abbrev pub HasVersion : S → Type 0
  HasVersion s =
      (es : List (String × Bool)) × (A.entries (app_root A u.app) s ≡ some es)
      × Memᴰ (u.digest.hash, true) es

  -- The app's own files are the same.
  pub record SameApp (s s' : S) : Type 0 where
    pub compose : A.files.read_compose compose_path s' ≡ A.files.read_compose compose_path s
    pub index_exists :
        (x : Uri) → A.files.exists (index_path x) s' ≡ A.files.exists (index_path x) s
    pub index_same : (x : Uri) → A.index_digest (index_path x) s' ≡ A.index_digest (index_path x) s
    pub version : HasVersion s → HasVersion s'

  pub record SameBlob (h : String) (s s' : S) : Type 0 where
    pub blob_exists :
        A.files.exists (blob_path A.files h) s' ≡ A.files.exists (blob_path A.files h) s
    pub refs : A.image_refs (blob_path A.files h) s' ≡ A.image_refs (blob_path A.files h) s

  abbrev pub SameView : S → S → Type 0
  SameView s s' = SameApp s s' × ((h : String) → SameBlob h s s')

  pub SameApp-refl : (s : S) → SameApp s s
  SameApp-refl s = record {
    compose = refl;
    index_exists = λ x. refl;
    index_same = λ x. refl;
    version = λ v. v;
  }

  pub SameApp-trans : (s t r : S) → SameApp s t → SameApp t r → SameApp s r
  SameApp-trans s t r a b = record {
    compose = b.compose ∙ a.compose;
    index_exists = λ x. b.index_exists x ∙ a.index_exists x;
    index_same = λ x. b.index_same x ∙ a.index_same x;
    version = λ v. b.version (a.version v);
  }

  pub SameView-refl : (s : S) → SameView s s
  SameView-refl s = (SameApp-refl s, λ h. record { blob_exists = refl; refs = refl })

  pub SameView-trans : (s t r : S) → SameView s t → SameView t r → SameView s r
  SameView-trans s t r (a, f) (b, g) = (
    SameApp-trans s t r a b,
    λ h. record {
      blob_exists = (g h).blob_exists ∙ (f h).blob_exists;
      refs = (g h).refs ∙ (f h).refs;
    },
  )

  -- What the file system promises of the removal of a directory or a blob: other apps, other versions
  -- and other blobs are left alone. So does the pruning of docker's store.
  pub record Spares : Type 0 where
    pub app_dir :
        (a : String) (s : S) → a ≢ u.app → SameView s (A.files.remove_all (app_root A a) s)
    pub version_dir :
        (a v : String) (s : S)
        → (a ≢ u.app) ⊎ (v ≢ u.digest.hash)
        → SameView s (A.files.remove_all (under (app_root A a) v) s)
    pub image_dir :
        (w x : Uri) (s : S)
        → w.app ≢ u.app
        → SameView s (A.files.remove_all (image_root A.files (app_dir_of A.files w) x) s)
    pub blob_app : (b : String) (s : S) → SameApp s (A.files.remove_all (blob_path A.files b) s)
    pub other_blob :
        (b h : String) (s : S) → b ≢ h → SameBlob h s (A.files.remove_all (blob_path A.files b) s)
    pub containers : (s : S) → SameView s (A.prune_containers s).1
    pub images : (s : S) → SameView s (A.prune_images s).1

  abbrev pub LayerData : (String → Type 0) → BlobRef → Type 0
  LayerData K (BlobRef.named digest) =
      (e : HashedDigest) × (digest_of A.files digest ≡ some e) × K e.hash
  LayerData K BlobRef.unnamed = Unit
  LayerData K BlobRef.not_object = Unit

  -- The index, the manifest, the configuration and the layers of an image can be read, and what they
  -- name has a property.
  abbrev pub ImageData : (String → Type 0) → S → String × Option String → Type 0
  ImageData K s (service, image) =
      (x : Uri) × (d : HashedDigest) × (m : ImageRefs) × (c : HashedDigest) × (image_uri A.files
          image
        ≡ some x)
      × (A.files.exists (index_path x) s ≡ true)
      × (digest_of A.files (A.index_digest (index_path x) s) ≡ some d)
      × (A.image_refs (blob_path A.files d.hash) s ≡ some m)
      × (digest_of A.files m.config ≡ some c)
      × K d.hash
      × K c.hash
      × All (LayerData K) m.layers

  -- The version of the app is there, its compose file can be read, and so can all of its images.
  abbrev pub AppData : (String → Type 0) → S → Type 0
  AppData K s =
      (services : ComposeInfo) × (A.files.read_compose compose_path s ≡ some services)
      × HasVersion s
      × All (ImageData K s) services

  -- The blob is in the store.
  abbrev pub HasBlobIn : S → String → Type 0
  HasBlobIn s h = A.files.exists (blob_path A.files h) s ≡ true

  LayerData-map :
      (K L : String → Type 0) (r : BlobRef)
      → ((h : String) → K h → L h)
      → LayerData K r
      → LayerData L r
  LayerData-map K L (BlobRef.named digest) f (e, p, k) = (e, p, f e.hash k)
  LayerData-map K L BlobRef.unnamed f t = t
  LayerData-map K L BlobRef.not_object f t = t

  pub ImageData-map :
      (K L : String → Type 0) (s s' : S) (i : String × Option String)
      → SameApp s s'
      → ((h : String) → K h → L h × SameBlob h s s')
      → ImageData K s i
      → ImageData L s' i
  ImageData-map K L s s' (service, image) a f (x, d, m, c, ux, ex, dx, rm, cx, kd, kc, ls) = (
    x,
    d,
    m,
    c,
    ux,
    a.index_exists x ∙ ex,
    ap (digest_of A.files) (a.index_same x) ∙ dx,
    (f d.hash kd).1.refs ∙ rm,
    cx,
    (f d.hash kd).0,
    (f c.hash kc).0,
    All-map (LayerData K) (LayerData L) m.layers (λ r. LayerData-map K L r (λ h k. (f h k).0)) ls,
  )

  pub AppData-map :
      (K L : String → Type 0) (s s' : S)
      → SameApp s s'
      → ((h : String) → K h → L h × SameBlob h s s')
      → AppData K s
      → AppData L s'
  AppData-map K L s s' a f (services, rd, v, all) = (
    services,
    a.compose ∙ rd,
    a.version v,
    All-map (ImageData K s) (ImageData L s') services (λ i. ImageData-map K L s s' i a f) all,
  )

-- ===== src/Docker/Fetched.antt =====
-- Whether an app is fetched: `isAppFetched` and `areAppImagesFetched` of
-- src/docker/restorableappengine.cc. They read the files of an app, and remove what is broken.
use aktualizr_lite.Prelude.{
  Bool, List, Option, String, [], false, if◌then◌else◌, int_eq, nat_eq, none, some, string_eq, true,
  ℕ, ℤ, ◌<>◌, ◌==◌, ◌>>=◌, ◌||◌, ◌∷◌,
}
use aktualizr_lite.Docker.Uri.{HashedDigest, Uri, hashed_digest, parse_uri}
use aktualizr_lite.Docker.Sizes.{to_uint64}

-- How a check ends: with what it has read, with something missing, or with an exception.
pub data Verdict (A : Type 0) : Type 0 where
  passed : A → Verdict A
  lacking : Verdict A
  throws : Verdict A

abbrev pub require : {A : Type 0} → Bool → Verdict A → Verdict A
require true v = v
require false v = Verdict.lacking

abbrev pub given : {A B : Type 0} → Option A → (A → Verdict B) → Verdict B
given none f = Verdict.throws
given (some a) f = f a

-- An element of `layers` of the manifest of an image: an object with a digest and a size, which may
-- be no text and no number, or something else.
pub data LayerEntry : Type 0 where
  described : Option String → Option ℤ → LayerEntry
  undescribed : LayerEntry

pub record ImageManifest : Type 0 where
  pub config_digest : Option String
  pub layers : List LayerEntry

-- The services of a compose file with their images, which may be no texts.
abbrev pub ComposeInfo : Type 0
ComposeInfo = List (String × Option String)

abbrev pub under : String → String → String
under path name = path <> ("/" <> name)

-- The files of the device. What may throw gives none.
pub record AppFiles (S : Type 0) : Type 0 where
  pub to_lower : String → String
  pub apps_root : String
  pub blobs_root : String
  pub exists : String → S → Bool
  pub is_symlink : String → S → Bool
  -- The lower-case hexadecimal digits of the hash of a file.
  pub content_hash : String → S → Option String
  pub file_size : String → S → Option ℕ
  -- `Manifest` of a file, and its `archiveDigest`.
  pub archive_digest : String → S → Option String
  -- `extractComposeFile`
  pub extract_compose : String → S → Option String
  pub write_file : String → String → S → Option S
  pub read_compose : String → S → Option ComposeInfo
  -- The first digest in the index of an image, none inside if the index is not valid.
  pub read_index : String → S → Option (Option String)
  pub read_manifest : String → S → Option ImageManifest
  pub remove : String → S → S
  pub remove_all : String → S → S

module _ {S : Type 0} (F : AppFiles S) where
  abbrev pub blob_path : String → String
  blob_path hash = under (under F.blobs_root "sha256") hash

  abbrev pub digest_of : Option String → Option HashedDigest
  digest_of text = text >>= λ t. hashed_digest F.to_lower t

  -- A file that must be there and have a hash.
  unfoldable pub with_hash : {A : Type 0} → String → String → S → Verdict A → Verdict A
  with_hash path hash s next =
      require (F.exists path s) (given (F.content_hash path s) (λ h. require (h == hash) next))

  -- The loop over the layers, which ends with the path of a blob of a wrong size, if there is one.
  unfoldable pub check_layers : List LayerEntry → S → Verdict (Option String)
  check_layers [] s = Verdict.passed none
  check_layers (LayerEntry.undescribed ∷ ls) s = Verdict.lacking
  check_layers (LayerEntry.described digest size ∷ ls) s =
      let rest = check_layers ls s in
      given (digest_of digest) (λ d. given size (λ n.
        let blob = blob_path d.hash in
        require (F.exists blob s) (
          given (F.file_size blob s)
            (λ m. if m == to_uint64 n then rest else Verdict.passed (some blob)))))

  -- The manifest of an image, its configuration and its layers.
  unfoldable pub check_manifest : String → S → Verdict (Option String)
  unfolding with_hash check_layers
  check_manifest digest s = given (digest_of (some digest)) (λ d.
      with_hash (blob_path d.hash) d.hash s (
        given (F.read_manifest (blob_path d.hash) s) (λ m.
          given (digest_of m.config_digest)
            (λ c. with_hash (blob_path c.hash) c.hash s (check_layers m.layers s)))))

  -- The index of an image and what it refers to; an index that is not valid is to be removed.
  unfoldable pub check_image : String → S → Verdict (Option String)
  unfolding check_manifest
  check_image root s =
      let index = under root "index.json" in
      require (F.exists index s) (
        given (F.read_index index s) (λ o. elim o [
          | none ↦ Verdict.passed (some index)
          | some digest ↦ check_manifest digest s
        ]))

  -- What follows from the check of an image. An exception makes the image be removed.
  abbrev pub after_image : String → Verdict (Option String) → S → Option Bool × S → Option Bool × S
  after_image root (Verdict.passed none) s rest = rest
  after_image root (Verdict.passed (some path)) s rest = (some false, F.remove path s)
  after_image root Verdict.lacking s rest = (some false, s)
  after_image root Verdict.throws s rest = (some false, F.remove_all root s)

  abbrev pub image_root : String → Uri → String
  image_root app_dir u =
      under (under (under (under app_dir "images") u.registry_hostname) u.repo) u.digest.hash

  abbrev pub image_uri : Option String → Option Uri
  image_uri image = image >>= λ text. parse_uri F.to_lower false text

  -- A service whose image has a URI, or an exception.
  abbrev pub after_uri : String → Option Uri → S → Option Bool × S → Option Bool × S
  after_uri app_dir none s rest = (none, s)
  after_uri app_dir (some u) s rest =
      let root = image_root app_dir u in after_image root (check_image root s) s rest

  -- The loop of `areAppImagesFetched`
  unfoldable pub are_images_fetched : String → ComposeInfo → S → Option Bool × S
  unfolding check_image
  are_images_fetched app_dir [] s = (some true, s)
  are_images_fetched app_dir ((service, image) ∷ services) s =
      after_uri app_dir (image_uri image) s (are_images_fetched app_dir services s)

  abbrev pub app_dir_of : Uri → String
  app_dir_of u = under (under F.apps_root u.app) u.digest.hash

  abbrev pub after_compose : Uri → Option ComposeInfo → S → Option Bool × S
  after_compose u none s = (none, s)
  after_compose u (some services) s = are_images_fetched (app_dir_of u) services s

  -- `areAppImagesFetched`
  unfoldable pub are_app_images_fetched : Uri → S → Option Bool × S
  unfolding are_images_fetched
  are_app_images_fetched u s =
      after_compose u (F.read_compose (under (app_dir_of u) "docker-compose.yml") s) s

  -- The manifest of an app and its archive, which gives the compose file.
  unfoldable pub check_archive : Uri → S → Verdict String
  unfolding with_hash
  check_archive u s =
      let dir = app_dir_of u in
      let manifest = under dir "manifest.json" in
      require (F.exists dir s) (
        require (F.exists manifest s || F.is_symlink manifest s) (
          given (F.content_hash manifest s) (λ h. require (h == u.digest.hash) (
            given (digest_of (F.archive_digest manifest s)) (λ a.
              let archive = under dir (a.hash <> ".tgz") in
              with_hash archive a.hash s (given (F.extract_compose archive s) Verdict.passed))))))

  abbrev pub after_write : Uri → Option S → S → Option Bool × S
  after_write u none s = (none, s)
  after_write u (some s') s = are_app_images_fetched u s'

  -- The compose file is written before the images are checked.
  abbrev pub after_archive : Uri → Verdict String → S → Option Bool × S
  after_archive u Verdict.lacking s = (some false, s)
  after_archive u Verdict.throws s = (none, s)
  after_archive u (Verdict.passed compose) s =
      after_write u (F.write_file (under (app_dir_of u) "docker-compose.yml") compose s) s

  abbrev pub after_parse : Option Uri → S → Option Bool × S
  after_parse none s = (none, s)
  after_parse (some u) s = after_archive u (check_archive u s) s

  -- `isAppFetched`
  unfoldable pub is_app_fetched : String → S → Option Bool × S
  unfolding check_archive are_app_images_fetched
  is_app_fetched uri s = after_parse (parse_uri F.to_lower true uri) s

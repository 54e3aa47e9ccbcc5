-- ===== src/Docker/Prune.antt =====
-- `prune` of src/docker/restorableappengine.cc: apps and versions that are not in the shortlist are
-- removed, then the blobs that no app of the shortlist refers to. A directory is listed before its
-- entries are gone through.

use aktualizr_lite.Docker.Fetched.{
  AppFiles, ComposeInfo, app_dir_of, blob_path, digest_of, image_root, image_uri, under,
}
use aktualizr_lite.Docker.Uri.{HashedDigest, Uri, parse_uri}
use aktualizr_lite.Prelude.{
  Bool, List, Option, String, [], any, false, if◌then◌else◌, int_eq, nat_eq, none, some, string_eq,
  true, ◌==◌, ◌>>=◌, ◌∷◌,
}

-- An element of a list of blobs in a JSON document: an object with a digest, which may be no text,
-- an object or null without one, or something else.
pub data BlobRef : Type 0 where
  named : Option String → BlobRef
  unnamed : BlobRef
  not_object : BlobRef

-- The manifest of an image: the digest of its configuration, and its layers.
pub record ImageRefs : Type 0 where
  pub config : Option String
  pub layers : List BlobRef

-- The device with the store of the apps. What may throw gives none.
pub record AppStore (S : Type 0) : Type 0 where
  pub files : AppFiles S
  -- The names in a directory, and whether they are directories.
  pub entries : String → S → Option (List (String × Bool))
  -- The arrays `manifests` and `layers` of an app's manifest, where they are there.
  pub app_refs : String → S → Option (List (List BlobRef))
  -- The first digest in the index of an image.
  pub index_digest : String → S → Option String
  pub image_refs : String → S → Option ImageRefs
  -- `pruneContainers` and `pruneImages`, with whether they succeeded.
  pub prune_containers : S → Bool × S
  pub prune_images : S → Bool × S

-- The blobs that are kept, whether docker's store is to be pruned, and the device.
pub record Pruning (S : Type 0) : Type 0 where
  pub blobs : List String
  pub prunes_docker : Bool
  pub device : S

abbrev pub is_shortlisted : String → List String → Bool
is_shortlisted blob blobs = any (λ b. b == blob) blobs

-- The first app of a name.
unfoldable pub find_app : String → List (String × String) → Option String
find_app name [] = none
find_app name ((n, uri) ∷ apps) =
    let rest = find_app name apps in if name == n then some uri else rest

-- A list of blobs, and whether it ended without an exception.
abbrev pub Listed : Type 0
Listed = List String × Bool

abbrev pub then_list : Listed → (List String → Listed) → Listed
then_list (l, true) f = f l
then_list (l, false) f = (l, false)

module _ {S : Type 0} (A : AppStore S) where
  abbrev store_files : AppFiles S
  store_files = A.files

  abbrev pub add_hash : Option HashedDigest → List String → Listed
  add_hash none l = (l, false)
  add_hash (some d) l = (d.hash ∷ l, true)

  -- The digests of a list. What is not an object throws in the manifest of an app.
  unfoldable pub list_refs : Bool → List BlobRef → List String → Listed
  list_refs strict [] l = (l, true)
  list_refs strict (BlobRef.named digest ∷ rs) l =
      then_list (add_hash (digest_of store_files digest) l) (list_refs strict rs)
  list_refs strict (BlobRef.unnamed ∷ rs) l = list_refs strict rs l
  list_refs strict (BlobRef.not_object ∷ rs) l =
      let rest = list_refs strict rs l in if strict then (l, false) else rest

  unfoldable pub list_arrays : List (List BlobRef) → List String → Listed
  unfolding list_refs
  list_arrays [] l = (l, true)
  list_arrays (rs ∷ arrays) l = then_list (list_refs true rs l) (list_arrays arrays)

  -- The blobs of an app's manifest; an exception ends the list.
  abbrev pub list_app : Option (List (List BlobRef)) → List String → List String
  list_app none l = l
  list_app (some arrays) l = (list_arrays arrays l).0

  abbrev pub list_manifest : Option ImageRefs → List String → Listed
  list_manifest none l = (l, false)
  list_manifest (some m) l =
      then_list (add_hash (digest_of store_files m.config) l) (list_refs false m.layers)

  abbrev pub list_index : Option HashedDigest → S → List String → Listed
  list_index none s l = (l, false)
  list_index (some d) s l =
      list_manifest (A.image_refs (blob_path store_files d.hash) s) (d.hash ∷ l)

  -- An image whose index or manifest is not valid is removed.
  abbrev pub after_list : String → Listed → S → List String × S
  after_list root (l, true) s = (l, s)
  after_list root (l, false) s = (l, store_files.remove_all root s)

  -- The blobs of an image of an app of the shortlist.
  unfoldable pub keep_image : String → Uri → List String → S → List String × S
  unfolding list_refs
  keep_image app_dir u l s =
      let root = image_root store_files app_dir u in
      let index = under root "index.json" in
      let l1 = u.digest.hash ∷ l in
      if store_files.exists index s
      then after_list root (list_index (digest_of store_files (A.index_digest index s)) s l1) s
      else (l1, store_files.remove_all root s)

  unfoldable pub keep_images : String → ComposeInfo → List String × S → Option (List String × S)
  unfolding keep_image
  keep_images app_dir [] (l, s) = some (l, s)
  keep_images app_dir ((service, image) ∷ services) (l, s) =
      image_uri store_files image >>= λ u. keep_images app_dir services (keep_image app_dir u l s)

  -- The version of an app that is in the shortlist.
  unfoldable pub keep_version : Uri → Pruning S → Option (Pruning S)
  unfolding keep_images list_arrays
  keep_version u p =
      let dir = app_dir_of store_files u in
      let manifest = under dir "manifest.json" in
      let l =
        if store_files.exists manifest p.device
        then list_app (A.app_refs manifest p.device) (u.digest.hash ∷ p.blobs)
        else p.blobs in
      store_files.read_compose (under dir "docker-compose.yml") p.device >>= λ services.
      keep_images dir services (l, p.device) >>= λ r. some (record p { blobs = r.0; device = r.1 })

  -- A directory or a blob is removed, and docker's store is to be pruned.
  abbrev pub removed : String → Pruning S → Pruning S
  removed path p = record p { prunes_docker = true; device = store_files.remove_all path p.device }

  abbrev pub app_root : String → String
  app_root app = under store_files.apps_root app

  unfoldable pub prune_version : Uri → String × Bool → Pruning S → Option (Pruning S)
  unfolding keep_version
  prune_version u (name, false) p = some p
  prune_version u (name, true) p =
      if name == u.digest.hash
      then keep_version u p
      else some (removed (under (app_root u.app) name) p)

  unfoldable pub prune_versions : Uri → List (String × Bool) → Pruning S → Option (Pruning S)
  unfolding prune_version
  prune_versions u [] p = some p
  prune_versions u (e ∷ es) p = prune_version u e p >>= prune_versions u es

  -- A directory of the apps: its app is in the shortlist, with a URI, or not.
  unfoldable pub prune_app : String → Option String → Pruning S → Option (Pruning S)
  unfolding prune_versions
  prune_app name none p = some (removed (app_root name) p)
  prune_app name (some uri) p = parse_uri store_files.to_lower true uri >>= λ u.
      A.entries (app_root u.app) p.device >>= λ es. prune_versions u es p

  unfoldable pub prune_apps :
      List (String × String) → List (String × Bool) → Pruning S → Option (Pruning S)
  unfolding prune_app find_app
  prune_apps shortlist [] p = some p
  prune_apps shortlist ((name, false) ∷ es) p = prune_apps shortlist es p
  prune_apps shortlist ((name, true) ∷ es) p =
      prune_app name (find_app name shortlist) p >>= prune_apps shortlist es

  unfoldable pub prune_blobs : List (String × Bool) → Pruning S → Pruning S
  prune_blobs [] p = p
  prune_blobs ((name, true) ∷ es) p = prune_blobs es p
  prune_blobs ((name, false) ∷ es) p =
      if is_shortlisted name p.blobs
      then prune_blobs es p
      else prune_blobs es (removed (blob_path store_files name) p)

  -- `pruneDockerStore` of src/docker/composeappengine.cc
  abbrev pub prune_docker_store : S → S
  prune_docker_store s =
      let (done, s1) = A.prune_containers s in if done then (A.prune_images s1).1 else s1

  abbrev pub prune_docker : Pruning S → S
  prune_docker p = if p.prunes_docker then prune_docker_store p.device else p.device

  abbrev pub prune_listed : Option (List (String × Bool)) → Pruning S → Option S
  prune_listed none p = none
  prune_listed (some es) p = some (prune_docker (prune_blobs es p))

  -- Where there is no directory of blobs, docker's store is not pruned either.
  unfoldable pub prune_store : Pruning S → Option S
  prune_store p =
      let root = under store_files.blobs_root "sha256" in
      if store_files.exists root p.device
      then prune_listed (A.entries root p.device) p
      else some p.device

  -- `prune`
  unfoldable pub prune : List (String × String) → S → Option S
  unfolding prune_apps prune_store
  prune shortlist s = A.entries store_files.apps_root s >>= λ es.
      prune_apps shortlist es (record { blobs = []; prunes_docker = false; device = s })
      >>= prune_store

-- ===== src/Docker/UpdateSize.antt =====
-- The check of the size of an update of an app: `checkAppUpdateSize` of
-- src/docker/restorableappengine.cc, and `Descriptor` of src/docker/docker.h.
use aktualizr_lite.Prelude.{
  Bool, List, Option, String, false, if◌then◌else◌, int_eq, is_empty, nat_eq, negsuc, none, not,
  pos, some, string_eq, ℕ, ℤ, ◌&&◌, ◌==◌, ◌>>=◌,
}
use aktualizr_lite.Docker.Fetched.{under}
use aktualizr_lite.Docker.Pull.{Outcome, Read, Registry}
use aktualizr_lite.Docker.Room.{ImageStores, RoomCheck, check_available_storage}
use aktualizr_lite.Docker.Sizes.{
  Layer, LayerMeta, get_app_update_size, get_docker_store_size, get_precise_update_size, to_uint64,
}
use aktualizr_lite.Docker.Uri.{HashedDigest, Uri, create_uri, hashed_digest}

-- `Descriptor`, as far as it is used.
pub record Descriptor : Type 0 where
  pub digest : HashedDigest
  pub size : ℤ

abbrev is_zero : ℤ → Bool
is_zero (pos n) = n == 0
is_zero (negsuc n) = false

-- `Descriptor::operator bool`
unfoldable pub is_described : Descriptor → Bool
is_described d = not (is_empty d.digest.digest && is_zero d.size)

-- `layersManifest`: an object with a digest if that is a text and a size if that is an `int64_t`, or
-- something else.
pub data LayersManifest : Type 0 where
  layers_object : Option String → Option ℤ → LayersManifest
  layers_missing : LayersManifest

-- What the manifest of an app tells of its layers.
pub record AppLayers : Type 0 where
  pub layers_meta_descr : Read Descriptor
  pub layers_manifest : String → Read LayersManifest

-- What the check takes from the device beside the registry and the stores.
pub record Sizing (S : Type 0) : Type 0 where
  pub to_lower : String → String
  pub registry : Registry S
  pub stores : ImageStores S
  -- `arch` of the client of docker.
  pub arch : S → String
  -- The names in the directory of blobs.
  pub store_blobs : S → List String
  pub read_app_layers : String → S → Read AppLayers
  -- The metadata of layers for an architecture, none if the file lacks it or cannot be read.
  pub layers_meta : String → String → S → Option (List LayerMeta)
  -- `getAppManifest` of a size, in the format of an index.
  pub get_layers_manifest : Uri → ℤ → S → Read String
  pub parse_layers : String → Read (List Layer)

module _ {S : Type 0} (Z : Sizing S) where
  abbrev hash_of : String → Option String
  hash_of text = hashed_digest Z.to_lower text >>= λ d. some d.hash

  -- The `try` block: the precise sizes, none after an exception.
  unfoldable pub precise_update_size : Uri → String → String → Descriptor → S → Option (ℕ × ℕ) × S
  unfolding get_precise_update_size create_uri hashed_digest
  precise_update_size u dir arch d s =
      let path = under dir d.digest.hash in
      let (o, s1) = Z.registry.download_blob (create_uri d.digest u) path (to_uint64 d.size) s in
      let sizes = Z.layers_meta path arch s1 >>= λ ls.
      get_precise_update_size hash_of (Z.store_blobs s1) ls in
      elim o [ Outcome.done ↦ (sizes, s1) | _ ↦ (none, s1) ]

  abbrev or_throws : {A : Type 0} → String → Option A → Read A
  or_throws text none = Read.failed (Z.registry.what text)
  or_throws text (some a) = Read.got a

  abbrev and_read : {A B : Type 0} → Read A → (A → Read B) → Read B
  and_read (Read.got a) f = f a
  and_read (Read.failed e) f = Read.failed e

  -- The sizes by the compressed sizes of the layers, none inside where the check is skipped.
  abbrev estimate_by : Uri → S → LayersManifest → Read (Option (ℕ × ℕ))
  estimate_by u s LayersManifest.layers_missing = Read.got none
  estimate_by u s (LayersManifest.layers_object digest size) =
      and_read (or_throws "digest" digest) (λ text. and_read (or_throws "size" size) (λ n.
        and_read (or_throws text (hashed_digest Z.to_lower text)) (λ d.
          and_read (Z.get_layers_manifest (create_uri d u) n s) (λ body.
            and_read (Z.parse_layers body) (λ ls.
              and_read (or_throws "layers" (get_app_update_size hash_of (Z.store_blobs s) ls))
                (λ skopeo.
                  and_read (or_throws "docker" (get_docker_store_size skopeo 5))
                    (λ docker. Read.got (some (skopeo, docker)))))))))

  unfoldable pub estimated_update_size : Uri → String → AppLayers → S → Read (Option (ℕ × ℕ))
  unfolding get_app_update_size get_docker_store_size create_uri hashed_digest
  estimated_update_size u arch m s = and_read (m.layers_manifest arch) (estimate_by u s)

  -- The check of the stores, whose failures are exceptions.
  abbrev room_outcome : RoomCheck × S → Outcome × S
  room_outcome (RoomCheck.fits, s) = (Outcome.done, s)
  room_outcome (RoomCheck.lacks name usage, s) =
      (Outcome.no_room (Z.registry.room_text name usage) usage, s)
  room_outcome (RoomCheck.overflows, s) = (Outcome.thrown (Z.registry.what "overflow"), s)

  abbrev check_sizes : Read (Option (ℕ × ℕ)) → S → Outcome × S
  check_sizes (Read.failed e) s = (Outcome.thrown e, s)
  check_sizes (Read.got none) s = (Outcome.done, s)
  check_sizes (Read.got (some (skopeo, docker))) s =
      room_outcome (check_available_storage Z.stores skopeo docker s)

  -- The precise sizes where there are some, and else the estimated ones.
  abbrev by_sizes : Uri → String → AppLayers → Option (ℕ × ℕ) × S → Outcome × S
  by_sizes u arch m (some sizes, s) = check_sizes (Read.got (some sizes)) s
  by_sizes u arch m (none, s) = check_sizes (estimated_update_size u arch m s) s

  abbrev with_layers : Uri → String → String → S → Read AppLayers → Outcome × S
  with_layers u dir arch s (Read.failed e) = (Outcome.thrown e, s)
  with_layers u dir arch s (Read.got m) =
      if is_empty arch then (Outcome.done, s) else elim m.layers_meta_descr [
        | Read.failed e ↦ (Outcome.thrown e, s)
        | Read.got d ↦
            by_sizes u arch m
              (if is_described d then precise_update_size u dir arch d s else (none, s))
      ]

  -- `checkAppUpdateSize`
  unfoldable pub check_app_update_size : Uri → String → S → Outcome × S
  unfolding check_available_storage precise_update_size estimated_update_size is_described
  check_app_update_size u dir s =
      with_layers u dir (Z.arch s) s (Z.read_app_layers (under dir "manifest.json") s)

-- ===== src/Docker/Pull.antt =====
-- The download of an app: `pullApp` of src/docker/restorableappengine.cc.
use aktualizr_lite.Prelude.{Option, String, if◌then◌else◌, ltb, none, some, ℕ, ◌%◌, ◌*◌, ◌<>◌, ◌^◌}
use aktualizr_lite.Docker.Fetched.{AppFiles, under}
use aktualizr_lite.Docker.Uri.{HashedDigest, Uri, create_uri, hashed_digest, uri_text}
use aktualizr_lite.Results.Usage.{UsageInfo, is_ok, with_required}

-- How a step ends: done, or with an exception. `no_room` is an `InsufficientSpaceError`, `not_loaded`
-- a `LoadImageException`.
pub data Outcome : Type 0 where
  done : Outcome
  no_room : String → UsageInfo → Outcome
  not_loaded : String → Outcome
  thrown : String → Outcome

-- What is read, or the text of an exception.
pub data Read (A : Type 0) : Type 0 where
  got : A → Read A
  failed : String → Read A

-- The `archiveDigest` and the `archiveSize` of a manifest, which may throw.
pub record AppManifest : Type 0 where
  pub archive_digest : Read String
  pub archive_size : Read ℕ

-- The client of the registry, and what the download takes from the device beside the files of apps.
pub record Registry (S : Type 0) : Type 0 where
  pub get_app_manifest : Uri → S → Read String
  pub download_blob : Uri → String → ℕ → S → Outcome × S
  -- `Manifest` of a text.
  pub parse_manifest : String → Read AppManifest
  pub create_directories : String → S → Outcome × S
  pub storage_space : String → S → UsageInfo
  pub store_root : String
  -- What an `InsufficientSpaceError` of a store tells, and an exception that is about a text or a file.
  pub room_text : String → UsageInfo → String
  pub what : String → String

-- The next step, unless there was an exception.
abbrev pub and_then : {S : Type 0} → Outcome × S → (S → Outcome × S) → Outcome × S
and_then (Outcome.done, s) f = f s
and_then (Outcome.no_room e u, s) f = (Outcome.no_room e u, s)
and_then (Outcome.not_loaded e, s) f = (Outcome.not_loaded e, s)
and_then (Outcome.thrown e, s) f = (Outcome.thrown e, s)

abbrev pub with_read : {A S : Type 0} → Read A → S → (A → Outcome × S) → Outcome × S
with_read (Read.got a) s f = f a
with_read (Read.failed e) s f = (Outcome.thrown e, s)

abbrev pub with_some : {A S : Type 0} → String → Option A → S → (A → Outcome × S) → Outcome × S
with_some what (some a) s f = f a
with_some what none s f = (Outcome.thrown what, s)

module _ {S : Type 0} (F : AppFiles S) (R : Registry S) where
  -- `Utils::writeFile`
  abbrev write : String → String → S → Outcome × S
  write path text s =
      with_some (R.what path) (F.write_file path text s) s (λ s'. (Outcome.done, s'))

  -- The room for the extracted files, which is only checked where the usage is known. The product is
  -- one of `uint64_t`.
  unfoldable pub check_archive_room : Read ℕ → S → Outcome × S
  unfolding with_required
  check_archive_room archive_size s =
      let usage = R.storage_space R.store_root s in
      let room : ℕ → Outcome × S = λ n.
        let need = (n * 3) % 2 ^ 64 in
        let required = with_required need usage in
        if ltb usage.available need
        then (Outcome.no_room (R.room_text "skopeo apps" required) required, s)
        else (Outcome.done, s) in
      if is_ok usage then with_read archive_size s room else (Outcome.done, s)

  -- What is downloaded and written once there is room.
  unfoldable pub download_archive : Uri → String → String → Read ℕ → HashedDigest → S → Outcome × S
  unfolding create_uri uri_text
  download_archive u dir manifest archive_size d s =
      let archive = under dir (d.hash <> ".tgz") in
      with_read archive_size s (λ n. and_then (R.download_blob (create_uri d u) archive n s) (λ s1.
        and_then (write (under dir "manifest.json") manifest s1) (λ s2.
          and_then (write (under dir "uri") (uri_text u) s2) (λ s3.
            with_some (R.what archive) (F.extract_compose archive s3) s3
              (λ compose. write (under dir "docker-compose.yml") compose s3)))))

  -- `pullApp`
  unfoldable pub pull_app : Uri → String → S → Outcome × S
  unfolding check_archive_room download_archive hashed_digest
  pull_app u dir s = and_then (R.create_directories dir s) (λ s1.
      with_read (R.get_app_manifest u s1) s1 (λ text. with_read (R.parse_manifest text) s1 (λ m.
        with_read m.archive_digest s1 (λ digest.
          with_some (R.what digest) (hashed_digest F.to_lower digest) s1 (λ d.
            and_then (check_archive_room m.archive_size s1)
              (λ s2. download_archive u dir text m.archive_size d s2))))))

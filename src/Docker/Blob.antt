-- ===== src/Docker/Blob.antt =====
-- `downloadBlob` and `getAppManifest` of the client of a registry, src/docker/docker.cc.
use aktualizr_lite.Prelude.{
  Bool, List, Option, String, [], if◌then◌else◌, int_eq, leb, len, nat_eq, negsuc, none, not, pos,
  some, string_eq, suc, ℕ, ℤ, ◌-◌, ◌<>◌, ◌==◌, ◌^◌, ◌∷◌,
}
use aktualizr_lite.Docker.Auth.{HttpResponse, Web, answer_challenge}
use aktualizr_lite.Docker.Pull.{Outcome, Read}
use aktualizr_lite.Docker.Stream.{DownloadCtx, fresh_ctx, reset}
use aktualizr_lite.Docker.Uri.{Uri}

-- What the download of a blob takes from the network and from the device.
pub record Downloads (S : Type 0) : Type 0 where
  pub web : Web S
  -- `HttpClient::download` of headers and a URL, which hands bytes to the context.
  pub download : List String → String → DownloadCtx → S → HttpResponse × DownloadCtx
  -- What is left of the stream's contents where `seekp` fails.
  pub seek_fails : DownloadCtx → S → Option (List ℕ)
  -- Whether the file can be opened, what a stream with some contents has written out of them when it
  -- is closed, which may fail and is not told, the file with these bytes, and its removal.
  pub can_open : String → S → Bool
  pub written_out : String → List ℕ → S → List ℕ
  pub put_file : String → List ℕ → S → S
  pub remove_file : String → S → S
  -- The lower-case hexadecimal digits of the hash of bytes, and of a text.
  pub bytes_hash : List ℕ → String
  pub text_hash : String → String

-- `composeBlobUrl` and `composeManifestUrl`
unfoldable pub blob_url : Uri → String
blob_url u =
    "https://" <> (u.registry_hostname <> ("/v2/" <> (u.repo <> ("/blobs/" <> u.digest.digest))))

unfoldable pub manifest_url : Uri → String
manifest_url u =
    "https://"
    <> (u.registry_hostname <> ("/v2/" <> (u.repo <> ("/manifests/" <> u.digest.digest))))

module _ {S : Type 0} (D : Downloads S) where
  -- The stream is closed, by `close` or by its destructor.
  abbrev pub close_file : String → DownloadCtx → S → S
  close_file path c s = D.put_file path (D.written_out path c.file s) s

  -- The checks of what was downloaded. The file is closed, and removed if they fail.
  unfoldable pub finish_blob : Uri → String → ℕ → HttpResponse × DownloadCtx → S → Outcome × S
  finish_blob u path size (response, c) s =
      let s' = close_file path c s in
      if not response.ok
      then (Outcome.thrown "Failed to download App blob", s')
      else if not (c.written_size == size)
      then (
        Outcome.thrown "Size of downloaded App blob does not equal to the expected one",
        D.remove_file path s',
      )
      else if not (D.bytes_hash c.hashed == u.digest.hash)
      then (
        Outcome.thrown "Hash of downloaded App blob does not equal to the expected one",
        D.remove_file path s',
      )
      else (Outcome.done, s')

  -- A response with the status 401 is answered by a second request.
  unfoldable pub second_request :
      Uri → String → ℕ → HttpResponse × DownloadCtx → Read String → S → Outcome × S
  unfolding finish_blob reset blob_url
  second_request u path size (response, c) (Read.failed e) s =
      (Outcome.thrown e, close_file path c s)
  second_request u path size (response, c) (Read.got header) s =
      finish_blob u path size (D.download (header ∷ []) (blob_url u) (reset (D.seek_fails c s) c) s)
        s

  unfoldable pub after_response : Uri → String → ℕ → HttpResponse × DownloadCtx → S → Outcome × S
  unfolding second_request finish_blob answer_challenge
  after_response u path size (response, c) s =
      if response.http_status_code == 401
      then second_request u path size (response, c) (answer_challenge D.web response s) s
      else finish_blob u path size (response, c) s

  -- `downloadBlob`
  unfoldable pub download_blob : Uri → String → ℕ → S → Outcome × S
  unfolding after_response fresh_ctx blob_url
  download_blob u path size s =
      if not (D.can_open path s)
      then (Outcome.thrown "Failed to open a file", s)
      else after_response u path size (D.download [] (blob_url u) (fresh_ctx size) s) s

  abbrev pub default_max_size : ℕ
  default_max_size = 16384

  -- The size of a body as an `int64_t`, compared with a size.
  abbrev fits_size : Option ℤ → ℕ → Bool
  fits_size none size = leb size default_max_size
  fits_size (some (pos n)) size = size == n
  fits_size (some (negsuc n)) size = size == 2 ^ 64 - suc n

  abbrev max_size : Option ℤ → ℤ
  max_size none = pos default_max_size
  max_size (some n) = n

  -- The checks of a manifest.
  unfoldable pub check_manifest_body : Uri → Option ℤ → HttpResponse → Read String
  check_manifest_body u size response =
      if not response.ok
      then Read.failed "Failed to download App manifest"
      else if not (fits_size size (len response.body))
      then Read.failed "Size of received App manifest"
      else if not (D.text_hash response.body == u.digest.hash)
      then Read.failed "Hash of received App manifest"
      else Read.got response.body

  abbrev retry_manifest : Uri → Option ℤ → String → Read String → S → Read String
  retry_manifest u size format (Read.failed e) s = Read.failed e
  retry_manifest u size format (Read.got header) s =
      check_manifest_body u size
        (D.web.get (("accept:" <> format) ∷ header ∷ []) (manifest_url u) (max_size size) s)

  -- `getAppManifest`
  unfoldable pub get_app_manifest : Uri → String → Option ℤ → S → Read String
  unfolding check_manifest_body manifest_url answer_challenge
  get_app_manifest u format size s =
      let response = D.web.get (("accept:" <> format) ∷ []) (manifest_url u) (max_size size) s in
      if response.http_status_code == 401
      then retry_manifest u size format (answer_challenge D.web response s) s
      else check_manifest_body u size response

-- ===== src/Tests/DownloadExamples.antt =====
-- A registry that asks for an authentication, on which the theorems on downloads are applied.
use aktualizr_lite.Prelude.{
  Bool, List, String, [], arith, false, false-ne-true, if◌then◌else◌, int_eq, length, nat_eq, none,
  refl, some, string_eq, true, ℕ, ◌<◌, ◌==◌, ◌^◌, ◌∷◌, ◌≡◌,
}
use Prim.Native.Char.{code}
use aktualizr_lite.Tests.DockerExamples.{digest_text, image}
use aktualizr_lite.Docker.Auth.{
  HttpResponse, Web, after_last, answer_challenge, bearer_auth, bearer_params,
  get_basic_auth_header, get_bearer_auth_header, next_param, quoted_value, split_first, token_uri,
}
use aktualizr_lite.Docker.Blob.{
  Downloads, after_response, blob_url, download_blob, finish_blob, second_request,
}
use aktualizr_lite.Docker.BlobLaws.{Delivers, HasBlob, download_blob-HasBlob, ends_well}
use aktualizr_lite.Docker.Pull.{Read}
use aktualizr_lite.Docker.Stream.{Chunk, DownloadCtx, fresh_ctx, overwrite, reset, store, write}
use aktualizr_lite.Docker.StreamLaws.{Steps}
use aktualizr_lite.Docker.Kept.{IsLeft}

abbrev trim_front : String → String
trim_front String.[] = String.[]
trim_front (String.◌∷◌ c s) = if code c == b' ' then s else String.◌∷◌ c s

abbrev challenge : String
challenge = "bearer realm=\"https://r/token\",service=\"registry\",scope=\"repository:f/a:pull\""

abbrev response : ℕ → Bool → HttpResponse
response status ok = record {
  http_status_code = status;
  ok = ok;
  body = "{}";
  authenticate = some challenge;
}

abbrev web : Web (List ℕ)
web = record {
  get = λ headers url size s. response 200 true;
  get_creds = λ url size s. response 200 true;
  auth_creds_endpoint = "https://creds";
  parse_creds = λ body. Read.got ("user", "secret");
  parse_token = λ body. Read.got "token";
  to_base64 = λ s. s;
  trim = trim_front;
}

-- The refusal has three bytes, the blob five.
abbrev refusal : Chunk
refusal = record { bytes = 1 ∷ 2 ∷ 3 ∷ []; fails_with = none }

abbrev blob : Chunk
blob = record { bytes = 11 ∷ 12 ∷ 13 ∷ 14 ∷ 15 ∷ []; fails_with = none }

abbrev serve : List String → DownloadCtx → HttpResponse × DownloadCtx
serve [] c = (response 401 false, (write refusal c).0)
serve (h ∷ hs) c = (response 200 ((write blob c).1 == 5), (write blob c).0)

abbrev registry : Downloads (List ℕ)
registry = record {
  web = web;
  download = λ headers url c s. serve headers c;
  seek_fails = λ c s. none;
  written_out = λ path bytes s. bytes;
  can_open = λ path s. true;
  put_file = λ path bytes s. bytes;
  remove_file = λ path s. [];
  bytes_hash = λ bytes. digest_text;
  text_hash = λ s. s;
}

one_chunk :
    (b : Bool) (k : Chunk) (c : DownloadCtx)
    → length k.bytes < 2 ^ 63
    → IsLeft k.fails_with (overwrite c.file c.position k.bytes)
    → (b ≡ true → (write k c).1 ≡ length k.bytes)
    → Steps b c (write k c).0
one_chunk b k c short left taken = Steps.next k Steps.start short left refl taken

serve-Steps : (headers : List String) (c : DownloadCtx) → Steps false c (serve headers c).1
serve-Steps [] c = one_chunk false refusal c (omega arith) tt (λ e. elim (false-ne-true e) [ ])
serve-Steps (h ∷ hs) c = one_chunk false blob c (omega arith) tt (λ e. elim (false-ne-true e) [ ])

serve_taken :
    (headers : List String) (c : DownloadCtx)
    → (serve headers c).0.ok ≡ true
    → Steps true c (serve headers c).1
serve_taken [] c e = elim (false-ne-true e) [ ]
serve_taken (h ∷ hs) c e =
    one_chunk true blob c (omega arith) tt (λ t. (nat_eq.decides (write blob c).1 5).0 e)

registry_delivers : Delivers registry
registry_delivers = record {
  seeks = λ c s. tt;
  steps = λ headers url c s. serve-Steps headers c;
  taken = λ headers url c s. serve_taken headers c;
}

blob_done : ends_well registry (download_blob registry image "blob" 5 []).0 ≡ true
unfolding download_blob after_response second_request finish_blob answer_challenge bearer_auth
    bearer_params after_last next_param quoted_value split_first get_bearer_auth_header
    get_basic_auth_header fresh_ctx reset write store overwrite token_uri blob_url
blob_done = refl

download_blob-HasBlob_example :
    HasBlob registry image "blob" 5 [] (download_blob registry image "blob" 5 []).1
download_blob-HasBlob_example =
    download_blob-HasBlob registry image "blob" 5 [] registry_delivers (λ bytes. refl) (omega arith)
      blob_done

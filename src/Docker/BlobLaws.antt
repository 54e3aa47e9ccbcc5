-- ===== src/Docker/BlobLaws.antt =====
-- A blob or a manifest that was downloaded has the size and the hash that were asked for.
use aktualizr_lite.Prelude.{
  Option, Bool, List, String, [], ap, arith, false, false-ne-true, if◌then◌else◌, int_eq, length,
  nat_eq, not, refl, string_eq, sym, true, ℕ, ◌<◌, ◌==◌, ◌^◌, ◌∙◌, ◌∷◌, ◌≡◌,
}
use aktualizr_lite.Docker.Auth.{HttpResponse, answer_challenge}
use aktualizr_lite.Docker.Blob.{
  Downloads, after_response, blob_url, download_blob, finish_blob, second_request,
}
use aktualizr_lite.Docker.Pull.{Outcome, Read}
use aktualizr_lite.Docker.Stream.{DownloadCtx, fresh_ctx, reset}
use aktualizr_lite.Docker.Kept.{reset-expected_size, IsLeft, IsKept, fresh_ctx-IsKept, reset-IsKept}
use aktualizr_lite.Docker.StreamLaws.{Steps, Steps-IsKept, Steps-file}
use aktualizr_lite.Docker.Uri.{Uri}

module _ {S : Type 0} (D : Downloads S) where
  -- What the HTTP client promises: it hands bytes to the context one chunk after the other, and the
  -- response is good only if all of them were taken. A stream that fails where it seeks leaves no more
  -- than its contents.
  pub record Delivers : Type 0 where
    pub seeks : (c : DownloadCtx) (s : S) → IsLeft (D.seek_fails c s) c.file
    pub steps :
        (headers : List String) (url : String) (c : DownloadCtx) (s : S)
        → Steps false c (D.download headers url c s).1
    pub taken :
        (headers : List String) (url : String) (c : DownloadCtx) (s : S)
        → (D.download headers url c s).0.ok ≡ true
        → Steps true c (D.download headers url c s).1

  -- The closing of a file writes out all that the stream has.
  abbrev pub Closes : String → S → Type 0
  Closes path s = (bytes : List ℕ) → D.written_out path bytes s ≡ bytes

  -- The file has some bytes, of a size and with a hash.
  abbrev pub HasBlob : Uri → String → ℕ → S → S → Type 0
  HasBlob u path size s s' =
      (bytes : List ℕ) × (s' ≡ D.put_file path bytes s)
      × (length bytes ≡ size)
      × (D.bytes_hash bytes ≡ u.digest.hash)

  -- A context in which nothing was written and nothing was hashed.
  abbrev Starts : ℕ → DownloadCtx → Type 0
  Starts size c = IsKept c × (c.expected_size ≡ size) × (c.written_size ≡ 0) × (c.hashed ≡ [])

  abbrev pub ends_well : Outcome → Bool
  ends_well Outcome.done = true
  ends_well _ = false

  if_not :
      (b : Bool) (x y : Outcome × S) (P : S → Type 0)
      → ends_well x.0 ≡ false
      → (b ≡ true → ends_well y.0 ≡ true → P y.1)
      → ends_well (if not b then x else y).0 ≡ true
      → P (if not b then x else y).1
  if_not true x y P f k h = k refl h
  if_not false x y P f k h = elim (false-ne-true (sym f ∙ h)) [ ]

  finish_blob-HasBlob :
      (u : Uri) (path : String) (size : ℕ) (response : HttpResponse) (c d : DownloadCtx) (s : S)
      → Closes path s
      → size < 2 ^ 63
      → Starts size c
      → (response.ok ≡ true → Steps true c d)
      → ends_well (finish_blob D u path size (response, d) s).0 ≡ true
      → HasBlob u path size s (finish_blob D u path size (response, d) s).1
  unfolding finish_blob
  finish_blob-HasBlob u path size response c d s closes small (kept, asked, w, h) taken =
      let P = HasBlob u path size s in
      if_not response.ok _ _ P refl (λ ok. if_not (d.written_size == size) _ _ P refl (λ full.
        if_not (D.bytes_hash d.hashed == u.digest.hash) _ _ P refl (λ same done.
          let small' : c.expected_size < 2 ^ 63 = omega (arith, asked, small) in
          let steps = taken ok in
          let (k, e) = Steps-IsKept steps small' kept in
          let (stored, long) =
            Steps-file steps small' kept w h
              ((nat_eq.decides d.written_size size).0 full ∙ sym asked ∙ sym e) in
          (
            d.file,
            ap (λ b. D.put_file path b s) (closes d.file),
            long ∙ asked,
            ap D.bytes_hash stored
                ∙ (string_eq.decides (D.bytes_hash d.hashed) u.digest.hash).0 same,
          ))))

  fresh_ctx-Starts : (size : ℕ) → Starts size (fresh_ctx size)
  unfolding fresh_ctx
  fresh_ctx-Starts size = (fresh_ctx-IsKept size, refl, refl, refl)

  reset-Starts :
      {size : ℕ} {c d : DownloadCtx} (fails : Option (List ℕ))
      → IsLeft fails d.file
      → size < 2 ^ 63
      → Starts size c
      → Steps false c d
      → Starts size (reset fails d)
  unfolding reset
  reset-Starts {size} {c} {d} fails left small (kept, asked, w, h) steps =
      let (k, e) = Steps-IsKept steps (omega (arith, asked, small)) kept in
      (reset-IsKept fails d left k, reset-expected_size fails d ∙ e ∙ asked, refl, refl)

  second_request-HasBlob :
      (u : Uri) (path : String) (size : ℕ) (response : HttpResponse) (d : DownloadCtx)
      (answer : Read String) (s : S)
      → Delivers
      → Closes path s
      → size < 2 ^ 63
      → Starts size (reset (D.seek_fails d s) d)
      → ends_well (second_request D u path size (response, d) answer s).0 ≡ true
      → HasBlob u path size s (second_request D u path size (response, d) answer s).1
  unfolding second_request
  second_request-HasBlob u path size response d (Read.failed e) s web closes small k h =
      elim (false-ne-true h) [ ]
  second_request-HasBlob u path size response d (Read.got header) s web closes small k h =
      let headers = header ∷ [] in
      let d' = reset (D.seek_fails d s) d in
      let (r, e) = D.download headers (blob_url u) d' s in
      finish_blob-HasBlob u path size r d' e s closes small k (web.taken headers (blob_url u) d' s)
        h

  if_done :
      (b : Bool) (x y : Outcome × S) (P : S → Type 0)
      → (ends_well x.0 ≡ true → P x.1)
      → (ends_well y.0 ≡ true → P y.1)
      → ends_well (if b then x else y).0 ≡ true
      → P (if b then x else y).1
  if_done true x y P f g h = f h
  if_done false x y P f g h = g h

  after_response-HasBlob :
      (u : Uri) (path : String) (size : ℕ) (r : HttpResponse) (c d : DownloadCtx) (s : S)
      → Delivers
      → Closes path s
      → size < 2 ^ 63
      → Starts size c
      → Steps false c d
      → (r.ok ≡ true → Steps true c d)
      → ends_well (after_response D u path size (r, d) s).0 ≡ true
      → HasBlob u path size s (after_response D u path size (r, d) s).1
  unfolding after_response
  after_response-HasBlob u path size r c d s web closes small k steps taken =
      if_done (r.http_status_code == 401) _ _ (HasBlob u path size s)
        (second_request-HasBlob u path size r d (answer_challenge D.web r s) s web closes small
          (reset-Starts (D.seek_fails d s) (web.seeks d s) small k steps))
        (finish_blob-HasBlob u path size r c d s closes small k taken)

  -- Where the HTTP client hands over the bytes one chunk after the other, and calls a transfer good
  -- only if all of them were taken, and where the closing of the file writes out all that the stream
  -- has, which the code does not check, a blob whose download ends well has left a file of the size
  -- that was asked for and with the hash of the URI. This holds even if the first request had to be
  -- made again with an authentication after some bytes of its response were written, or if a write or
  -- a seek has failed.
  pub download_blob-HasBlob :
      (u : Uri) (path : String) (size : ℕ) (s : S)
      → Delivers
      → Closes path s
      → size < 2 ^ 63
      → ends_well (download_blob D u path size s).0 ≡ true
      → HasBlob u path size s (download_blob D u path size s).1
  unfolding download_blob
  download_blob-HasBlob u path size s web closes small =
      let c = fresh_ctx size in
      let (r, d) = D.download [] (blob_url u) c s in
      if_not (D.can_open path s) _ _ (HasBlob u path size s) refl (λ o.
        after_response-HasBlob u path size r c d s web closes small (fresh_ctx-Starts size)
          (web.steps [] (blob_url u) c s) (web.taken [] (blob_url u) c s))

-- ===== src/Docker/StreamLaws.antt =====
-- What stays true of a download, whatever bytes arrive and wherever the disk fails.

use aktualizr_lite.Docker.Stream.{overwrite, Chunk, DownloadCtx, store, write}
use aktualizr_lite.Prelude.{
  Bool, List, Option, [], ap, arith, false, false-ne-true, if◌then◌else◌, inl, inr, length, ltb,
  none, not, refl, some, subst, sym, true, ℕ, ◌%◌, ◌++◌, ◌+◌, ◌<◌, ◌^◌, ◌∙◌, ◌∷◌, ◌≡◌, ◌≤◌, ◌⊎◌,
}
use aktualizr_lite.Docker.Kept.{IsKept, IsLeft, Synced, when_good}
use aktualizr_lite.Docker.FileLaws.{
  le-length-overwrite, length-overwrite, take-overwrite, take_self,
}

store-IsKept :
    (bytes : List ℕ) (fails : Option (List ℕ)) (c : DownloadCtx)
    → c.expected_size < 2 ^ 63
    → c.written_size + length bytes ≤ c.expected_size
    → length c.file ≤ c.expected_size
    → Synced c
    → IsLeft fails (overwrite c.file c.position bytes)
    → IsKept (store bytes fails c).0
unfolding store
store-IsKept bytes none c small room fits (at, w, in_file, same) l = record {
  fits = length-overwrite c.file c.position bytes c.expected_size fits (omega (arith, at, room));
  synced = λ g. (
    omega (arith, at, room, small),
    omega (arith, room, small),
    le-length-overwrite c.file c.position bytes in_file,
    take-overwrite c.file c.position bytes (c.position + length bytes) in_file refl
        ∙ ap (λ l. l ++ bytes) same,
  );
}
store-IsKept bytes (some left) c small room fits (at, w, in_file, same) l = record {
  fits =
      let long =
        length-overwrite c.file c.position bytes c.expected_size fits (omega (arith, at, room)) in
      omega (arith, l, long);
  synced = λ g. elim (false-ne-true g) [ ];
}

abbrev Result : Type 0
Result = DownloadCtx × ℕ

if-IsKept :
    (b : Bool) (x y : Result)
    → IsKept x.0
    → (b ≡ false → IsKept y.0)
    → IsKept (if b then x else y).0
if-IsKept true x y h k = h
if-IsKept false x y h k = k refl

write-IsKept :
    (k : Chunk) (c : DownloadCtx)
    → c.expected_size < 2 ^ 63
    → length k.bytes < 2 ^ 63
    → IsLeft k.fails_with (overwrite c.file c.position k.bytes)
    → IsKept c
    → IsKept (write k c).0
unfolding write
write-IsKept k c small short left kept =
    let size = length k.bytes in
    let received = (c.written_size + size) % 2 ^ 64 in
    let c' : DownloadCtx = record c { received_size = received } in
    let kept' : IsKept c' = record { fits = kept.fits; synced = kept.synced } in
    if-IsKept (ltb c.expected_size received) _ _ kept' (λ b. if-IsKept (not c.good) _ _ kept' (λ n.
      let s = kept.synced (when_good _ n) in
      store-IsKept k.bytes k.fails_with c' small (ground (arith, b, small, short, s.1)) kept.fits s
        left))

if-expected_size :
    (b : Bool) (x y : Result) (n : ℕ)
    → x.0.expected_size ≡ n
    → y.0.expected_size ≡ n
    → (if b then x else y).0.expected_size ≡ n
if-expected_size true x y n h k = h
if-expected_size false x y n h k = k

store-expected_size :
    (bytes : List ℕ) (fails : Option (List ℕ)) (c : DownloadCtx)
    → (store bytes fails c).0.expected_size ≡ c.expected_size
unfolding store
store-expected_size bytes none c = refl
store-expected_size bytes (some n) c = refl

write-expected_size : (k : Chunk) (c : DownloadCtx) → (write k c).0.expected_size ≡ c.expected_size
unfolding write
write-expected_size k c = if-expected_size _ _ _ c.expected_size refl (
    if-expected_size (not c.good) _ _ c.expected_size refl
      (store-expected_size k.bytes k.fails_with _))

-- A stream that failed takes nothing, and a failing stream does not say that it took the bytes.
if-size :
    (b : Bool) (x y : Result) (n : ℕ)
    → x.1 ≡ n + 1
    → (if b then x else y).1 ≡ n
    → (b ≡ false) × (y.1 ≡ n)
if-size true x y n h k = absurd (omega (arith, h, k))
if-size false x y n h k = (refl, k)

store-good :
    (bytes : List ℕ) (fails : Option (List ℕ)) (c : DownloadCtx)
    → c.good ≡ true
    → c.position + length bytes < 2 ^ 63
    → (store bytes fails c).1 ≡ length bytes
    → (store bytes fails c).0.good ≡ true
unfolding store
store-good bytes none c g h e = g
store-good bytes (some n) c g h e = absurd (omega (arith, h, e))

if-good :
    (b : Bool) (x y : Result) → b ≡ false → y.0.good ≡ true → (if b then x else y).0.good ≡ true
if-good true x y b h = elim (false-ne-true (sym b)) [ ]
if-good false x y b h = h

no_bytes : (xs : List ℕ) → length xs ≤ 0 → xs ≡ []
no_bytes [] h = refl
no_bytes (x ∷ xs) h = absurd (omega (arith, h))

-- Bytes that are taken were offered to a good stream, which stays good.
write-good :
    (k : Chunk) (c : DownloadCtx)
    → c.expected_size < 2 ^ 63
    → length k.bytes < 2 ^ 63
    → IsKept c
    → (write k c).1 ≡ length k.bytes
    → (c.good ≡ true) × ((write k c).0.good ≡ true)
unfolding write
write-good k c small short kept e =
    let size = length k.bytes in
    let received = (c.written_size + size) % 2 ^ 64 in
    let c' : DownloadCtx = record c { received_size = received } in
    let refused : Result = (c', size + 1) in
    let stored : Result = store k.bytes k.fails_with c' in
    let offered : Result = if not c.good then refused else stored in
    let (b, e1) = if-size (ltb c.expected_size received) refused offered size refl e in
    let (n, e2) = if-size (not c.good) refused stored size refl e1 in
    let good = when_good c.good n in
    let s = kept.synced good in
    let g =
      store-good k.bytes k.fails_with c' good (ground (arith, b, small, short, s.0, s.1)) e2 in
    (good, if-good _ refused offered b (if-good _ refused stored n g))

-- The bytes that a transfer hands over one after the other. If the transfer goes well, all of them
-- are taken.
pub data Steps (all_taken : Bool) (c : DownloadCtx) : DownloadCtx → Type 0 where
  start : Steps all_taken c c
  next :
      {d e : DownloadCtx} (k : Chunk)
      → Steps all_taken c d
      → length k.bytes < 2 ^ 63
      → IsLeft k.fails_with (overwrite d.file d.position k.bytes)
      → e ≡ (write k d).0
      → (all_taken ≡ true → (write k d).1 ≡ length k.bytes)
      → Steps all_taken c e

-- Whatever is handed over, the file stays no longer than the blob may be, and, while the stream is
-- good, begins with the bytes that were hashed.
pub Steps-IsKept :
    {b : Bool} {c d : DownloadCtx}
    → Steps b c d
    → c.expected_size < 2 ^ 63
    → IsKept c
    → IsKept d × (d.expected_size ≡ c.expected_size)
Steps-IsKept start small kept = (kept, refl)
Steps-IsKept (next {d} k r short left e t) small kept =
    let (kd, same) = Steps-IsKept r small kept in
    let small' : d.expected_size < 2 ^ 63 = omega (arith, same, small) in
    (
      subst IsKept (sym e) (write-IsKept k d small' short left kd),
      ap (λ x. x.expected_size) e ∙ write-expected_size k d ∙ same,
    )

-- Where all bytes are taken, the stream is good in the end, or there were none.
taken_cases :
    {b : Bool} {c d : DownloadCtx}
    → Steps b c d
    → b ≡ true
    → c.expected_size < 2 ^ 63
    → IsKept c
    → (d ≡ c) ⊎ (d.good ≡ true)
taken_cases start all small kept = inl refl
taken_cases (next {d} k r short left e t) all small kept =
    let (kd, same) = Steps-IsKept r small kept in
    let (g, g') = write-good k d (omega (arith, same, small)) short kd (t all) in
    inr (ap (λ x. x.good) e ∙ g')

-- A transfer that went well, into a context without hashed bytes, of as many bytes as expected has
-- left the hashed bytes in the file.
pub Steps-file :
    {c d : DownloadCtx}
    → Steps true c d
    → c.expected_size < 2 ^ 63
    → IsKept c
    → c.written_size ≡ 0
    → c.hashed ≡ []
    → d.written_size ≡ d.expected_size
    → (d.file ≡ d.hashed) × (length d.file ≡ c.expected_size)
Steps-file {c} {d} r small kept w h full =
    let (kd, same) = Steps-IsKept r small kept in
    elim (taken_cases r refl small kept) [
      | inl e ↦
          let none_expected : d.expected_size ≡ 0 = sym full ∙ ap (λ x. x.written_size) e ∙ w in
          let empty = no_bytes d.file (omega (arith, kd.fits, none_expected)) in
          (
            empty ∙ sym h ∙ sym (ap (λ x. x.hashed) e),
            ap (λ l. length l) empty ∙ sym none_expected ∙ same,
          )
      | inr g ↦
          let (at, le, in_file, first) = kd.synced g in
          let whole = take_self d.file d.position (omega (arith, at, full, kd.fits)) in
          (sym whole ∙ first, omega (arith, at, full, kd.fits, in_file, same))
    ]

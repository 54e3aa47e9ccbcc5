-- ===== src/Docker/Kept.antt =====
-- What a context of a download keeps, at its start and where it is reset.
use aktualizr_lite.Docker.Stream.{seek, reset, fresh_ctx, DownloadCtx}
use aktualizr_lite.Prelude.{
  ◌∙◌, ap, take, false-ne-true, false, if◌then◌else◌, ◌≤◌, length, ℕ, not, ◌≡◌, Bool, List, Option,
  arith, refl, sym, true, some, none,
}

-- The file begins with the bytes that were hashed, as far as was written.
abbrev pub Synced : DownloadCtx → Type 0
Synced c =
    (c.position ≡ c.written_size)
    × (c.written_size ≤ c.expected_size)
    × (c.position ≤ length c.file)
    × (take c.position c.file ≡ c.hashed)

-- The file is never longer than the blob may be, and in step while the stream is good.
pub record IsKept (c : DownloadCtx) : Type 0 where
  pub fits : length c.file ≤ c.expected_size
  pub synced : c.good ≡ true → Synced c

pub when_good : (b : Bool) → not b ≡ false → b ≡ true
when_good true h = refl
when_good false h = elim (false-ne-true (sym h)) [ ]

pub fresh_ctx-IsKept : (size : ℕ) → IsKept (fresh_ctx size)
unfolding fresh_ctx
fresh_ctx-IsKept size = record {
  fits = omega arith;
  synced = λ g. (refl, omega arith, omega arith, refl);
}

-- What a stream that fails leaves of its contents is no longer than these.
abbrev pub IsLeft : Option (List ℕ) → List ℕ → Type 0
IsLeft none file = Unit
IsLeft (some left) file = length left ≤ length file

if-left :
    (b : Bool) (left : List ℕ) (c : DownloadCtx)
    → length left ≤ length c.file
    → IsKept c
    → length (if b then record c { good = false; file = left } else c).file ≤ c.expected_size
if-left true left c h k = omega (arith, h, k.fits)
if-left false left c h k = k.fits

not_left :
    (b : Bool) (left : List ℕ) (c : DownloadCtx)
    → c.good ≡ b
    → (if b then record c { good = false; file = left } else c).good ≡ false
not_left true left c e = refl
not_left false left c e = e

if-expected :
    (b : Bool) (left : List ℕ) (c : DownloadCtx)
    → (if b then record c { good = false; file = left } else c).expected_size ≡ c.expected_size
if-expected true left c = refl
if-expected false left c = refl

pub reset-expected_size :
    (fails : Option (List ℕ)) (c : DownloadCtx) → (reset fails c).expected_size ≡ c.expected_size
unfolding reset seek
reset-expected_size none c = refl
reset-expected_size (some left) c = if-expected c.good left c

pub reset-IsKept :
    (fails : Option (List ℕ)) (c : DownloadCtx)
    → IsLeft fails c.file
    → IsKept c
    → IsKept (reset fails c)
unfolding reset seek
reset-IsKept none c l k = record {
  fits = k.fits;
  synced = λ g.
      let start : (reset none c).position ≡ 0 = ap (λ b. if b then 0 else c.position) g in
      (start, omega arith, omega (arith, start), ap (λ n. take n c.file) start);
}
reset-IsKept (some left) c l k = record {
  fits = let same = if-expected c.good left c in omega (arith, if-left c.good left c l k, same);
  synced = λ g. elim (false-ne-true (sym (not_left c.good left c refl) ∙ g)) [ ];
}

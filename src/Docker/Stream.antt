-- ===== src/Docker/Stream.antt =====
-- What a downloaded blob goes through: `DownloadCtx` of src/docker/docker.cc, with the contents of
-- its stream, those in its buffer included, as a list of bytes.
use aktualizr_lite.Prelude.{
  Bool, List, Option, [], false, if◌then◌else◌, length, ltb, none, not, some, suc, true, zero, ℕ,
  ◌%◌, ◌++◌, ◌+◌, ◌-◌, ◌^◌, ◌∷◌,
}

-- `std::ostream::write` into a file at a position; what lies beyond the end is filled with zeros.
unfoldable pub overwrite : List ℕ → ℕ → List ℕ → List ℕ
overwrite file at [] = file
overwrite [] zero (y ∷ ys) = y ∷ ys
overwrite [] (suc n) (y ∷ ys) = 0 ∷ overwrite [] n (y ∷ ys)
overwrite (x ∷ file) zero (y ∷ ys) = y ∷ overwrite file zero ys
overwrite (x ∷ file) (suc n) (y ∷ ys) = x ∷ overwrite file n (y ∷ ys)

-- The bytes that were hashed since the hasher was reset stand for its state.
pub record DownloadCtx : Type 0 where
  pub file : List ℕ
  pub position : ℕ
  pub good : Bool
  pub hashed : List ℕ
  pub expected_size : ℕ
  pub written_size : ℕ
  pub received_size : ℕ

-- Some received bytes. The stream holds bytes back in its buffer: a write may fail when it writes them
-- out, be they from this write or from those before it, and then these contents are left.
pub record Chunk : Type 0 where
  pub bytes : List ℕ
  pub fails_with : Option (List ℕ)

-- The context of a download into a file that was just opened.
unfoldable pub fresh_ctx : ℕ → DownloadCtx
fresh_ctx size = record {
  file = [];
  position = 0;
  good = true;
  hashed = [];
  expected_size = size;
  written_size = 0;
  received_size = 0;
}

-- What the stream takes, and how far its position moves: a stream that failed tells -1.
unfoldable pub store : List ℕ → Option (List ℕ) → DownloadCtx → DownloadCtx × ℕ
unfolding overwrite
store bytes none c =
    let moved = length bytes in
    (
      record c {
        file = overwrite c.file c.position bytes;
        position = c.position + moved;
        hashed = c.hashed ++ bytes;
        written_size = (c.written_size + moved) % 2 ^ 64;
      },
      moved,
    )
store bytes (some left) c =
    let moved = 2 ^ 64 - 1 - c.position in
    (
      record c {
        file = left;
        good = false;
        hashed = c.hashed ++ bytes;
        written_size = (c.written_size + moved) % 2 ^ 64;
      },
      moved,
    )

-- `DownloadCtx::write`: the number that it returns tells curl whether the bytes were taken.
unfoldable pub write : Chunk → DownloadCtx → DownloadCtx × ℕ
unfolding store
write k c =
    let size = length k.bytes in
    let received = (c.written_size + size) % 2 ^ 64 in
    let c' = record c { received_size = received } in
    if ltb c.expected_size received
    then (c', size + 1)
    else if not c.good
    then (c', size + 1)
    else store k.bytes k.fails_with c'

-- `std::ostream::seekp` to the start.
unfoldable pub seek : Option (List ℕ) → DownloadCtx → DownloadCtx
seek none c = record c { position = if c.good then 0 else c.position }
seek (some left) c = if c.good then record c { good = false; file = left } else c

-- `DownloadCtx::reset`: the position of a stream that failed stays. To seek makes the stream write out
-- its buffer, which may fail: then the contents that are given are left.
unfoldable pub reset : Option (List ℕ) → DownloadCtx → DownloadCtx
unfolding seek
reset fails c = record (seek fails c) { hashed = []; written_size = 0; received_size = 0 }

-- ===== src/Docker/Sizes.antt =====
-- The size of an update of an app: `getAppUpdateSize`, `getDockerStoreSizeForAppUpdate` and
-- `getPreciseAppUpdateSize` of src/docker/restorableappengine.cc. None is an exception.
use aktualizr_lite.Prelude.{
  Bool, List, Option, String, [], contains, if◌then◌else◌, int_eq, ltb, nat_eq, negsuc, none, pos,
  some, string_eq, suc, ℕ, ℤ, ◌%◌, ◌*◌, ◌+◌, ◌-◌, ◌>>=◌, ◌^◌, ◌||◌, ◌∷◌,
}

-- An element of `layers`: its digest, and its size if that is an integer.
pub record Layer : Type 0 where
  pub digest : String
  pub size : Option ℤ

-- An element of the metadata of layers, by its digest: `usage` if that is an integer, and what
-- `asInt64`, which may throw, gives of the other members.
pub record LayerMeta : Type 0 where
  pub digest : String
  pub usage : Option ℤ
  pub size : Option ℤ
  pub archive_size : Option ℤ

-- `isInt64` of an integer that is not negative.
abbrev pub is_int64 : ℕ → Bool
is_int64 n = ltb n (2 ^ 63)

-- The sum of two `uint64_t`, none if it is found to have wrapped around.
unfoldable pub add_checked : ℕ → ℕ → Option ℕ
add_checked total size =
    let sum = (total + size) % 2 ^ 64 in if ltb sum total || ltb sum size then none else some sum

-- An `int64_t` as a `uint64_t`.
abbrev pub to_uint64 : ℤ → ℕ
to_uint64 (pos n) = n
to_uint64 (negsuc n) = 2 ^ 64 - suc n

-- The size of a layer, which must be an `int64_t` and not negative.
unfoldable pub layer_size : Option ℤ → Option ℕ
layer_size none = none
layer_size (some (pos n)) = if is_int64 n then some n else none
layer_size (some (negsuc n)) = none

-- A usage, which must be an `int64_t`.
unfoldable pub usage_value : Option ℤ → Option ℕ
usage_value none = none
usage_value (some (pos n)) = if is_int64 n then some n else none
usage_value (some (negsuc n)) = if is_int64 n then some (to_uint64 (negsuc n)) else none

-- `hash_of` is `HashedDigest{…}.hash()`, which may throw.
module _ (hash_of : String → Option String) (store_blobs : List String) where
  -- The loop of `getAppUpdateSize`, with the sum so far.
  unfoldable pub update_size : List Layer → ℕ → Option ℕ
  unfolding add_checked layer_size
  update_size [] total = some total
  update_size (l ∷ ls) total = hash_of l.digest >>= λ hash.
      if contains store_blobs hash
      then update_size ls total
      else layer_size l.size >>= λ size. add_checked total size >>= λ sum. update_size ls sum

  -- `getAppUpdateSize`
  unfoldable pub get_app_update_size : List Layer → Option ℕ
  unfolding update_size
  get_app_update_size layers = update_size layers 0

  -- The loop of `getPreciseAppUpdateSize`, with the sums for the two stores so far.
  unfoldable pub precise_sizes : List LayerMeta → ℕ → ℕ → Option (ℕ × ℕ)
  unfolding add_checked usage_value
  precise_sizes [] skopeo docker = some (skopeo, docker)
  precise_sizes (l ∷ ls) skopeo docker = hash_of l.digest >>= λ hash.
      if contains store_blobs hash
      then precise_sizes ls skopeo docker
      else usage_value l.usage >>= λ usage. l.size >>= λ size. l.archive_size >>= λ archive_size.
          add_checked skopeo (to_uint64 archive_size) >>= λ skopeo'.
          add_checked docker usage >>= λ docker'. precise_sizes ls skopeo' docker'

  -- `getPreciseAppUpdateSize`
  unfoldable pub get_precise_update_size : List LayerMeta → Option (ℕ × ℕ)
  unfolding precise_sizes
  get_precise_update_size layers = precise_sizes layers 0 0

-- `getDockerStoreSizeForAppUpdate`: the product, if it does not overflow.
unfoldable pub get_docker_store_size : ℕ → ℕ → Option ℕ
get_docker_store_size compressed ratio =
    let product = compressed * ratio in if ltb product (2 ^ 64) then some product else none

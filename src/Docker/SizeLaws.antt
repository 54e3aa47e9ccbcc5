-- ===== src/Docker/SizeLaws.antt =====
-- The sizes that are summed up do not wrap around.
use mathlib.Core.Option.{some-injective}
use aktualizr_lite.Docker.Sizes.{
  Layer, add_checked, get_app_update_size, is_int64, layer_size, update_size,
}
use aktualizr_lite.Prelude.{
  Bool-cases, List, Option, String, [], ap, arith, contains, if_false, if_true, if◌then◌else◌, inl,
  inr, int_eq, nat_eq, negsuc, none, none_not_some, pos, refl, some, some_of_bind, string_eq, subst,
  sym, ℕ, ℤ, ◌+◌, ◌<◌, ◌^◌, ◌∙◌, ◌∷◌, ◌≡◌,
}

pub add_checked-exact :
    (total size sum : ℕ)
    → total < 2 ^ 64
    → size < 2 ^ 64
    → add_checked total size ≡ some sum
    → (sum ≡ total + size) × (sum < 2 ^ 64)
unfolding add_checked
add_checked-exact total size sum h k e = ground (arith, h, k, e)

layer_size-int64 :
    (size : Option ℤ) (n : ℕ) → layer_size size ≡ some n → (size ≡ some (pos n)) × (n < 2 ^ 63)
unfolding layer_size
layer_size-int64 none n e = none_not_some e
layer_size-int64 (some (negsuc k)) n e = none_not_some e
layer_size-int64 (some (pos k)) n e =
    let small : k ≡ n → k < 2 ^ 63 → (some (pos k) ≡ some (pos n)) × (n < 2 ^ 63) =
      λ q h. (ap (λ m. some (pos m)) q, subst (λ m. m < 2 ^ 63) q h) in
    elim (Bool-cases (is_int64 k)) [
      | inl b ↦
          let f : layer_size (some (pos k)) ≡ some k = rw (layer_size, b) refl in
          small (some-injective _ _ (sym f ∙ e)) (ground (arith, b))
      | inr b ↦
          let f : layer_size (some (pos k)) ≡ none = rw (layer_size, b) refl in
          none_not_some (sym f ∙ e)
    ]

abbrev size_or_zero : Option ℤ → ℕ
size_or_zero (some (pos n)) = n
size_or_zero _ = 0

module _ (hash_of : String → Option String) (store_blobs : List String) where
  -- The size of a layer if the store lacks it, as a number without a bound.
  abbrev pub missing_size : Layer → ℕ
  missing_size l = elim (hash_of l.digest) [
    | none ↦ 0
    | some hash ↦ if contains store_blobs hash then 0 else size_or_zero l.size
  ]

  -- The sum of these sizes.
  abbrev pub missing_sizes : List Layer → ℕ
  missing_sizes [] = 0
  missing_sizes (l ∷ ls) = missing_size l + missing_sizes ls

  update_size-missing_sizes :
      (ls : List Layer) (total n : ℕ)
      → total < 2 ^ 64
      → update_size hash_of store_blobs ls total ≡ some n
      → (n ≡ total + missing_sizes ls) × (n < 2 ^ 64)
  unfolding update_size
  update_size-missing_sizes [] total n h e = let q = some-injective _ _ e in omega (arith, q, h)
  update_size-missing_sizes (l ∷ ls) total n h e =
      let (hash, p, e1) = some_of_bind (hash_of l.digest) _ n e in
      elim (Bool-cases (contains store_blobs hash)) [
        | inl b ↦
            let z : missing_size l ≡ 0 = rw (missing_size, p, b) refl in
            let (q, k) = update_size-missing_sizes ls total n h (if_true _ _ _ _ b e1) in
            omega (arith, q, k, z)
        | inr b ↦
            let (size, r, e2) = some_of_bind (layer_size l.size) _ n (if_false _ _ _ _ b e1) in
            let (sum, a, e3) = some_of_bind (add_checked total size) _ n e2 in
            let (s, small) = layer_size-int64 l.size size r in
            let z : missing_size l ≡ size = rw (missing_size, p, b, s) refl in
            let (exact, k) = add_checked-exact total size sum h (omega arith) a in
            let (q, k') = update_size-missing_sizes ls sum n k e3 in omega (arith, q, k', z, exact)
      ]

  -- The size of an update is the exact sum of the sizes of the layers that the store lacks, which has
  -- not wrapped around.
  pub get_app_update_size-exact :
      (ls : List Layer) (n : ℕ)
      → get_app_update_size hash_of store_blobs ls ≡ some n
      → (n ≡ missing_sizes ls) × (n < 2 ^ 64)
  unfolding get_app_update_size
  get_app_update_size-exact ls n e =
      let (q, k) = update_size-missing_sizes ls 0 n (omega arith) e in (omega (arith, q), k)

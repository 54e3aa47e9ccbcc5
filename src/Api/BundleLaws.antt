-- ===== src/Api/BundleLaws.antt =====
-- What an offline check-in (`CheckInLocal` of src/api.cc) promises about the targets it gives.
use aktualizr_lite.Prelude.{
  All, Bool, List, String, [], ap, arith, false, int_ltb, length, pos, refl, true, ℕ, ◌+◌, ◌∷◌, ◌≡◌,
}
use aktualizr_lite.Api.Bundle.{
  Bundle, Checked, ClientType, Root, Signature, check_bundle, check_found, check_kind,
  check_signatures, is_tag_wrong, is_target_key, is_type_wrong, passed, refused,
}

-- The signature is by a key of the role and verifies.
abbrev pub IsValid : (String → String → Bool) → Root → Signature → Type 0
IsValid verify root s =
    (s.is_well_formed ≡ true)
    × (is_target_key root s.key_id ≡ true)
    × (verify s.key_id s.sig ≡ true)

check_signatures-passed :
    (verify : String → String → Bool) (root : Root) (signatures : List Signature) (found n : ℕ)
    → check_signatures verify root signatures found ≡ passed n
    → All (IsValid verify root) signatures × (n ≡ found + length signatures)
unfolding check_signatures
check_signatures-passed verify root [] found n e = (tt, ground (arith, e))
check_signatures-passed verify root (s ∷ signatures) found n e =
    let ih = check_signatures-passed verify root signatures (found + 1) n (ground (arith, e)) in
    ((ground (arith, e), ih.0), omega (arith, ih.1))

-- What the checks of a bundle establish, given what the search of the root found.
abbrev pub IsTrusted :
    (String → String → Bool) → ClientType → List String → Checked Root → Bundle → Type 0
IsTrusted verify type tags checked b =
    (b.is_expired ≡ false)
    × (is_type_wrong type b ≡ false)
    × (is_tag_wrong tags b ≡ false)
    × ((root : Root) × (checked ≡ passed root)
        × All (IsValid verify root) b.signatures
        × (int_ltb (pos (length b.signatures)) root.threshold ≡ false))

-- A bundle passes its checks only if the root was found, each of its signatures is by a key of the
-- role and verifies, there are at least as many as the threshold, the bundle has not expired, and
-- neither its type nor its tag is called wrong for the client.
pub check_bundle-passed :
    (verify : String → String → Bool) (type : ClientType) (tags : List String)
    (checked : Checked Root) (b b' : Bundle)
    → check_kind type tags (check_bundle verify checked b) ≡ passed b'
    → (b' ≡ b) × IsTrusted verify type tags checked b
unfolding check_kind check_bundle check_found
check_bundle-passed verify type tags (refused e) b b' h = ground (arith, h)
check_bundle-passed verify type tags (passed root) b b' h =
    go (check_signatures verify root b.signatures 0) refl
  where
    go :
        (c : Checked ℕ)
        → check_signatures verify root b.signatures 0 ≡ c
        → (b' ≡ b) × IsTrusted verify type tags (passed root) b
    go (refused e) c = ground (arith, c, h)
    go (passed n) c =
        let (valid, count) = check_signatures-passed verify root b.signatures 0 n c in
        (
          ground (arith, c, h),
          (
            ground (arith, c, h),
            ground (arith, c, h),
            ground (arith, c, h),
            (root, refl, valid, ground (arith, c, h, count)),
          ),
        )

signatures_twice :
    (verify : String → String → Bool) (root : Root) (s : Signature)
    → IsValid verify root s
    → check_signatures verify root (s ∷ s ∷ []) 0 ≡ passed 2
unfolding check_signatures
signatures_twice verify root s (formed, key, good) = ground (arith, formed, key, good)

-- The threshold counts signatures and not keys: where it is 2, a bundle that has its parts and has
-- not expired passes with one valid signature that is listed twice.
pub check_bundle_counts_twice :
    (verify : String → String → Bool) (root : Root) (s : Signature) (b : Bundle)
    → IsValid verify root s
    → root.threshold ≡ pos 2
    → b.has_body ≡ true
    → b.is_expired ≡ false
    → b.signatures ≡ s ∷ s ∷ []
    → check_bundle verify (passed root) b ≡ passed b
unfolding check_bundle check_found check_signatures
check_bundle_counts_twice verify root s b valid two body fresh twice =
    let counted = signatures_twice verify root s valid in
    ground (arith, two, body, fresh, ap (λ l. check_signatures verify root l 0) twice, counted)

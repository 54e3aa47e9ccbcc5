-- ===== src/Api/Bundle.antt =====
-- The metadata of an offline update bundle: `checkAndGetBundleMeta`, `checkBundleType`,
-- `checkBundleTag`, `getTrustedBundleTargets` and `getTrustedTargets` of src/api.cc.
use aktualizr_lite.Target.{TufTarget}
use aktualizr_lite.Prelude.{
  Bool, List, Option, String, [], contains, false, if◌then◌else◌, int_eq, int_ltb, is_nil, keep,
  nat_eq, none, not, pos, some, string_eq, ℕ, ℤ, ◌&&◌, ◌++◌, ◌+◌, ◌==◌, ◌∷◌,
}

-- An entry of `signatures`; one without the strings `keyid`, `sig` and `method` is not well-formed.
pub record Signature : Type 0 where
  pub is_well_formed : Bool
  pub key_id : String
  pub sig : String

-- The bundle's file, as far as the code reads it: `has_body` if it is JSON with `signed` and with an
-- array `signatures`.
pub record Bundle : Type 0 where
  pub has_body : Bool
  pub signatures : List Signature
  pub is_expired : Bool
  pub type_name : String
  pub tag : String
  pub targets : List String

-- The root role: the key ids of the role targets, the ids of all keys, and the role's threshold.
pub record Root : Type 0 where
  pub target_key_ids : List String
  pub key_ids : List String
  pub threshold : ℤ

-- `BundleMetaError::Type`
pub data BundleError : Type 0 where
  meta_not_found root_meta_not_found invalid_metadata bad_signature unmet_signature_threshold
        expired incorrect_type incorrect_tag_type :
      BundleError

-- `LiteClient::Type`
pub data ClientType : Type 0 where
  dev prod undefined : ClientType

pub data Checked (A : Type 0) : Type 0 where
  passed : A → Checked A
  refused : BundleError → Checked A

-- The keys of the root by which a target is signed.
unfoldable pub is_target_key : Root → String → Bool
is_target_key root id = contains root.target_key_ids id && contains root.key_ids id

-- The loop over the signatures, with the number of those found valid. `verify` is
-- `PublicKey::VerifySignature` of the key of an id, on the body.
unfoldable pub check_signatures : (String → String → Bool) → Root → List Signature → ℕ → Checked ℕ
unfolding is_target_key
check_signatures verify root [] found = passed found
check_signatures verify root (s ∷ signatures) found =
    let rest = check_signatures verify root signatures (found + 1) in
    if not s.is_well_formed
    then refused BundleError.invalid_metadata
    else if not (is_target_key root s.key_id)
    then refused BundleError.bad_signature
    else if not (verify s.key_id s.sig)
    then refused BundleError.bad_signature
    else rest

-- What follows the loop.
unfoldable pub check_found : Root → Bundle → Checked ℕ → Checked Bundle
check_found root b (refused e) = refused e
check_found root b (passed found) =
    if int_ltb (pos found) root.threshold
    then refused BundleError.unmet_signature_threshold
    else if b.is_expired
    then refused BundleError.expired
    else passed b

-- `checkAndGetBundleMeta`, of the root that `checkAndGetRootMeta` finds and of a file that is there.
unfoldable pub check_bundle : (String → String → Bool) → Checked Root → Bundle → Checked Bundle
unfolding check_signatures check_found
check_bundle verify (refused e) b = refused e
check_bundle verify (passed root) b =
    if not b.has_body
    then refused BundleError.invalid_metadata
    else check_found root b (check_signatures verify root b.signatures 0)

-- `checkBundleType`: whether it throws.
unfoldable pub is_type_wrong : ClientType → Bundle → Bool
is_type_wrong ClientType.undefined b = false
is_type_wrong ClientType.dev b = b.type_name == "prod"
is_type_wrong ClientType.prod b = b.type_name == "ci"

-- `checkBundleTag`: whether it throws.
unfoldable pub is_tag_wrong : List String → Bundle → Bool
is_tag_wrong tags b = not (is_nil tags) && not (contains tags b.tag)

-- The checks of `getBundleMeta` after the metadata.
unfoldable pub check_kind : ClientType → List String → Checked Bundle → Checked Bundle
unfolding is_type_wrong is_tag_wrong
check_kind type tags (refused e) = refused e
check_kind type tags (passed b) =
    if is_type_wrong type b
    then refused BundleError.incorrect_type
    else if is_tag_wrong tags b
    then refused BundleError.incorrect_tag_type
    else passed b

-- The inner loop of `getTrustedBundleTargets`, and the outer one.
unfoldable pub trusted_bundle_targets : List TufTarget → List String → List TufTarget
trusted_bundle_targets tuf_targets [] = []
trusted_bundle_targets tuf_targets (name ∷ names) =
    keep (λ t. name == t.name) tuf_targets ++ trusted_bundle_targets tuf_targets names

-- `getTrustedTargets`, with the bundle if its file is there.
unfoldable pub trusted_targets : List TufTarget → Option Bundle → List TufTarget
unfolding trusted_bundle_targets
trusted_targets tuf_targets none = tuf_targets
trusted_targets tuf_targets (some b) = trusted_bundle_targets tuf_targets b.targets

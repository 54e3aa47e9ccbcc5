-- ===== src/Docker/Stored.antt =====
-- What it means that the files of an app and of its images are stored, and that the checks find it.
use aktualizr_lite.Prelude.{
  All, Bool, Bool-cases, List, Option, String, [], ap, false, if◌then◌else◌, inl, inr, int_eq,
  nat_eq, none, none_not_some, refl, some, string_eq, subst, sym, true, ℕ, ℤ, ◌<>◌, ◌==◌, ◌∙◌, ◌∷◌,
  ◌≡◌,
}
use aktualizr_lite.Docker.Uri.{HashedDigest, Uri, parse_uri}
use aktualizr_lite.Docker.Sizes.{to_uint64}
use aktualizr_lite.Docker.Fetched.{
  AppFiles, ComposeInfo, ImageManifest, LayerEntry, Verdict, app_dir_of, blob_path, check_image,
  check_layers, check_manifest, digest_of, given, image_root, image_uri, require, under, with_hash,
}

-- Whether a check has passed and what it gave.
abbrev pub Passes : {A : Type 0} → Verdict A → A → Type 0
Passes (Verdict.passed a) b = a ≡ b
Passes Verdict.lacking b = ⊥
Passes Verdict.throws b = ⊥

pub require-Passes :
    {A : Type 0} (b : Bool) (v : Verdict A) (a : A)
    → Passes (require b v) a
    → (b ≡ true) × Passes v a
require-Passes true v a h = (refl, h)
require-Passes false v a h = elim h [ ]

pub given-Passes :
    {A B : Type 0} (o : Option A) (f : A → Verdict B) (b : B)
    → Passes (given o f) b
    → (a : A) × (o ≡ some a) × Passes (f a) b
given-Passes none f b h = elim h [ ]
given-Passes (some a) f b h = (a, refl, h)

module _ {S : Type 0} (F : AppFiles S) where
  -- A file that is there, with a hash.
  abbrev pub HasContent : String → String → S → Type 0
  HasContent path hash s = (F.exists path s ≡ true) × (F.content_hash path s ≡ some hash)

  -- The blob of a layer is there and has the layer's size.
  abbrev pub LayerStored : S → LayerEntry → Type 0
  LayerStored s LayerEntry.undescribed = ⊥
  LayerStored s (LayerEntry.described digest size) =
      (d : HashedDigest) × (n : ℤ) × (digest_of F digest ≡ some d)
      × (size ≡ some n)
      × (F.exists (blob_path F d.hash) s ≡ true)
      × (F.file_size (blob_path F d.hash) s ≡ some (to_uint64 n))

  -- The blob of a manifest has its hash, and so has that of the configuration that it names; all of
  -- the layers that it lists are stored.
  abbrev pub ManifestStored : S → String → Type 0
  ManifestStored s digest =
      (d : HashedDigest) × (m : ImageManifest) × (c : HashedDigest) × (digest_of F (some digest)
        ≡ some d)
      × HasContent (blob_path F d.hash) d.hash s
      × (F.read_manifest (blob_path F d.hash) s ≡ some m)
      × (digest_of F m.config_digest ≡ some c)
      × HasContent (blob_path F c.hash) c.hash s
      × All (LayerStored s) m.layers

  abbrev pub ImageStored : String → S → String × Option String → Type 0
  ImageStored app_dir s (service, image) =
      (u : Uri) × (digest : String) × (image_uri F image ≡ some u)
      × (F.read_index (under (image_root F app_dir u) "index.json") s ≡ some (some digest))
      × ManifestStored s digest

  -- The manifest of an app has the hash of its URI and the archive that of the manifest; the compose
  -- file, which is written, is that of the archive, and the images of its services are stored.
  abbrev pub AppStored : String → S → S → Type 0
  AppStored uri s s' =
      (u : Uri) × (a : HashedDigest) × (compose : String) × (services : ComposeInfo) × (parse_uri
          F.to_lower true uri
        ≡ some u)
      × (F.content_hash (under (app_dir_of F u) "manifest.json") s ≡ some u.digest.hash)
      × (digest_of F (F.archive_digest (under (app_dir_of F u) "manifest.json") s) ≡ some a)
      × HasContent (under (app_dir_of F u) (a.hash <> ".tgz")) a.hash s
      × (F.extract_compose (under (app_dir_of F u) (a.hash <> ".tgz")) s ≡ some compose)
      × (F.write_file (under (app_dir_of F u) "docker-compose.yml") compose s ≡ some s')
      × (F.read_compose (under (app_dir_of F u) "docker-compose.yml") s' ≡ some services)
      × All (ImageStored (app_dir_of F u) s') services

  pub with_hash-HasContent :
      {A : Type 0} (path hash : String) (s : S) (next : Verdict A) (a : A)
      → Passes (with_hash F path hash s next) a
      → HasContent path hash s × Passes next a
  unfolding with_hash
  with_hash-HasContent path hash s next a p =
      let (e, q) = require-Passes (F.exists path s) _ a p in
      let (h, k, r) = given-Passes (F.content_hash path s) _ a q in
      let (same, n) = require-Passes (h == hash) next a r in
      ((e, k ∙ ap some ((string_eq.decides h hash).0 same)), n)

  some_path : {path : String} {C : Type 0} → some path ≡ none → C
  some_path e = none_not_some (sym e)

  layer_size-fits :
      (m : ℕ) (n : ℤ) (rest : Verdict (Option String)) (blob : String)
      → Passes (if m == to_uint64 n then rest else Verdict.passed (some blob)) none
      → (m ≡ to_uint64 n) × Passes rest none
  layer_size-fits m n rest blob p = elim (Bool-cases (m == to_uint64 n)) [
    | inl b ↦ (
      (nat_eq.decides m (to_uint64 n)).0 b,
      subst (λ t. Passes (if t then rest else Verdict.passed (some blob)) none) b p,
    )
    | inr b ↦
        some_path (subst (λ t. Passes (if t then rest else Verdict.passed (some blob)) none) b p)
  ]

  check_layers-LayerStored :
      (ls : List LayerEntry) (s : S) → Passes (check_layers F ls s) none → All (LayerStored s) ls
  unfolding check_layers
  check_layers-LayerStored [] s p = tt
  check_layers-LayerStored (LayerEntry.undescribed ∷ ls) s p = elim p [ ]
  check_layers-LayerStored (LayerEntry.described digest size ∷ ls) s p =
      let (d, dg, p1) = given-Passes (digest_of F digest) _ none p in
      let (n, sz, p2) = given-Passes size _ none p1 in
      let (there, p3) = require-Passes (F.exists (blob_path F d.hash) s) _ none p2 in
      let (m, fs, p4) = given-Passes (F.file_size (blob_path F d.hash) s) _ none p3 in
      let (fit, p5) = layer_size-fits m n (check_layers F ls s) (blob_path F d.hash) p4 in
      ((d, n, dg, sz, there, fs ∙ ap some fit), check_layers-LayerStored ls s p5)

  check_manifest-ManifestStored :
      (digest : String) (s : S) → Passes (check_manifest F digest s) none → ManifestStored s digest
  unfolding check_manifest
  check_manifest-ManifestStored digest s p =
      let (d, dg, p1) = given-Passes (digest_of F (some digest)) _ none p in
      let (content, p2) = with_hash-HasContent (blob_path F d.hash) d.hash s _ none p1 in
      let (m, rd, p3) = given-Passes (F.read_manifest (blob_path F d.hash) s) _ none p2 in
      let (c, cg, p4) = given-Passes (digest_of F m.config_digest) _ none p3 in
      let (config, p5) = with_hash-HasContent (blob_path F c.hash) c.hash s _ none p4 in
      (d, m, c, dg, content, rd, cg, config, check_layers-LayerStored m.layers s p5)

  valid_index :
      (index : String) (o : Option String) (s : S)
      → Passes
          (elim o [ none ↦ Verdict.passed (some index) | some digest ↦ check_manifest F digest s ])
          none
      → (digest : String) × (o ≡ some digest) × Passes (check_manifest F digest s) none
  valid_index index none s p = some_path p
  valid_index index (some digest) s p = (digest, refl, p)

  pub check_image-ImageStored :
      (app_dir service : String) (image : Option String) (u : Uri) (s : S)
      → image_uri F image ≡ some u
      → Passes (check_image F (image_root F app_dir u) s) none
      → ImageStored app_dir s (service, image)
  unfolding check_image
  check_image-ImageStored app_dir service image u s k p =
      let index = under (image_root F app_dir u) "index.json" in
      let (there, p1) = require-Passes (F.exists index s) _ none p in
      let (o, rd, p2) = given-Passes (F.read_index index s) _ none p1 in
      let (digest, some_digest, p3) = valid_index index o s p2 in
      (u, digest, k, rd ∙ ap some some_digest, check_manifest-ManifestStored digest s p3)

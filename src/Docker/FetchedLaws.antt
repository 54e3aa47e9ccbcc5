-- ===== src/Docker/FetchedLaws.antt =====
-- What the check of a fetched app has found where it says that the app is fetched.
use aktualizr_lite.Prelude.{
  All, Bool, Option, String, [], ap, false, false-ne-true, int_eq, nat_eq, none, none_not_some,
  refl, some, string_eq, subst, sym, true, ◌<>◌, ◌==◌, ◌||◌, ◌∙◌, ◌∷◌, ◌≡◌,
}
use aktualizr_lite.Docker.Uri.{HashedDigest, Uri, parse_uri}
use mathlib.Core.Option.{some-injective}
use aktualizr_lite.Docker.Fetched.{
  AppFiles, ComposeInfo, Verdict, after_archive, after_compose, after_image, after_parse, after_uri,
  after_write, app_dir_of, are_app_images_fetched, are_images_fetched, check_archive, check_image,
  digest_of, image_root, image_uri, is_app_fetched, under,
}
use aktualizr_lite.Docker.Stored.{
  AppStored, HasContent, ImageStored, Passes, check_image-ImageStored, given-Passes, require-Passes,
  with_hash-HasContent,
}

module _ {S : Type 0} (F : AppFiles S) where
  abbrev with_false : S → Option Bool × S
  with_false s = (some false, s)

  abbrev with_true : S → Option Bool × S
  with_true s = (some true, s)

  abbrev with_none : S → Option Bool × S
  with_none s = (none, s)

  false_result : {s s' : S} {C : Type 0} → with_false s ≡ with_true s' → C
  false_result e = elim (false-ne-true (some-injective _ _ (ap (λ r. r.0) e))) [ ]

  no_result : {s s' : S} {C : Type 0} → with_none s ≡ with_true s' → C
  no_result e = none_not_some (ap (λ r. r.0) e)

  after_image-Passes :
      (root : String) (v : Verdict (Option String)) (s s' : S) (rest : Option Bool × S)
      → after_image F root v s rest ≡ (some true, s')
      → Passes v none × (rest ≡ (some true, s'))
  after_image-Passes root (Verdict.passed none) s s' rest e = (refl, e)
  after_image-Passes root (Verdict.passed (some path)) s s' rest e = false_result e
  after_image-Passes root Verdict.lacking s s' rest e = false_result e
  after_image-Passes root Verdict.throws s s' rest e = false_result e

  after_uri-ImageStored :
      (app_dir service : String) (image : Option String) (o : Option Uri) (s s' : S)
      (rest : Option Bool × S)
      → image_uri F image ≡ o
      → after_uri F app_dir o s rest ≡ (some true, s')
      → ImageStored F app_dir s (service, image) × (rest ≡ (some true, s'))
  after_uri-ImageStored app_dir service image none s s' rest k e = no_result e
  after_uri-ImageStored app_dir service image (some u) s s' rest k e =
      let root = image_root F app_dir u in
      let (p, q) = after_image-Passes root (check_image F root s) s s' rest e in
      (check_image-ImageStored F app_dir service image u s k p, q)

  are_images_fetched-ImageStored :
      (app_dir : String) (services : ComposeInfo) (s s' : S)
      → are_images_fetched F app_dir services s ≡ (some true, s')
      → (s ≡ s') × All (ImageStored F app_dir s) services
  unfolding are_images_fetched
  are_images_fetched-ImageStored app_dir [] s s' e = (ap (λ r. r.1) e, tt)
  are_images_fetched-ImageStored app_dir ((service, image) ∷ services) s s' e =
      let (stored, q) =
        after_uri-ImageStored app_dir service image (image_uri F image) s s'
          (are_images_fetched F app_dir services s) refl e in
      let (same, all) = are_images_fetched-ImageStored app_dir services s s' q in
      (same, (stored, all))

  after_compose-ImageStored :
      (u : Uri) (o : Option ComposeInfo) (s s' : S)
      → after_compose F u o s ≡ (some true, s')
      → (services : ComposeInfo) × (o ≡ some services)
        × (s ≡ s')
        × All (ImageStored F (app_dir_of F u) s) services
  after_compose-ImageStored u none s s' e = no_result e
  after_compose-ImageStored u (some services) s s' e =
      let (same, all) = are_images_fetched-ImageStored (app_dir_of F u) services s s' e in
      (services, refl, same, all)

  check_archive-HasContent :
      (u : Uri) (s : S) (compose : String)
      → Passes (check_archive F u s) compose
      → (a : HashedDigest) × (F.content_hash (under (app_dir_of F u) "manifest.json") s
          ≡ some u.digest.hash)
        × (digest_of F (F.archive_digest (under (app_dir_of F u) "manifest.json") s) ≡ some a)
        × HasContent F (under (app_dir_of F u) (a.hash <> ".tgz")) a.hash s
        × (F.extract_compose (under (app_dir_of F u) (a.hash <> ".tgz")) s ≡ some compose)
  unfolding check_archive
  check_archive-HasContent u s compose p =
      let dir = app_dir_of F u in
      let manifest = under dir "manifest.json" in
      let (there, p1) = require-Passes (F.exists dir s) _ compose p in
      let (found, p2) =
        require-Passes (F.exists manifest s || F.is_symlink manifest s) _ compose p1 in
      let (h, ch, p3) = given-Passes (F.content_hash manifest s) _ compose p2 in
      let (same, p4) = require-Passes (h == u.digest.hash) _ compose p3 in
      let (a, ad, p5) = given-Passes (digest_of F (F.archive_digest manifest s)) _ compose p4 in
      let archive = under dir (a.hash <> ".tgz") in
      let (content, p6) = with_hash-HasContent F archive a.hash s _ compose p5 in
      let (text, ex, p7) = given-Passes (F.extract_compose archive s) _ compose p6 in
      (a, ch ∙ ap some ((string_eq.decides h u.digest.hash).0 same), ad, content, ex ∙ ap some p7)

  -- What `AppStored` says of the compose file and the images, with the state that it was written in.
  abbrev WrittenAndStored : Uri → Option S → S → Type 0
  WrittenAndStored u o s' =
      (services : ComposeInfo) × (o ≡ some s')
      × (F.read_compose (under (app_dir_of F u) "docker-compose.yml") s' ≡ some services)
      × All (ImageStored F (app_dir_of F u) s') services

  after_write-ImageStored :
      (u : Uri) (o : Option S) (s s' : S)
      → after_write F u o s ≡ (some true, s')
      → WrittenAndStored u o s'
  unfolding are_app_images_fetched
  after_write-ImageStored u none s s' e = no_result e
  after_write-ImageStored u (some s1) s s' e =
      let path = under (app_dir_of F u) "docker-compose.yml" in
      let (services, r, same, all) = after_compose-ImageStored u (F.read_compose path s1) s1 s' e in
      subst (WrittenAndStored u (some s1)) same (services, refl, r, all)

  after_archive-AppStored :
      (uri : String) (u : Uri) (v : Verdict String) (s s' : S)
      → parse_uri F.to_lower true uri ≡ some u
      → check_archive F u s ≡ v
      → after_archive F u v s ≡ (some true, s')
      → AppStored F uri s s'
  after_archive-AppStored uri u Verdict.lacking s s' k c e = false_result e
  after_archive-AppStored uri u Verdict.throws s s' k c e = no_result e
  after_archive-AppStored uri u (Verdict.passed compose) s s' k c e =
      let path = under (app_dir_of F u) "docker-compose.yml" in
      let (a, ch, ad, content, ex) =
        check_archive-HasContent u s compose (subst (λ v. Passes v compose) (sym c) refl) in
      let (services, w, r, all) = after_write-ImageStored u (F.write_file path compose s) s s' e in
      (u, a, compose, services, k, ch, ad, content, ex, w, r, all)

  after_parse-AppStored :
      (uri : String) (o : Option Uri) (s s' : S)
      → parse_uri F.to_lower true uri ≡ o
      → after_parse F o s ≡ (some true, s')
      → AppStored F uri s s'
  after_parse-AppStored uri none s s' k e = no_result e
  after_parse-AppStored uri (some u) s s' k e =
      after_archive-AppStored uri u (check_archive F u s) s s' k refl e

  -- Where an app is found to be fetched, its manifest has the hash of the app's URI, its archive has
  -- the hash of the manifest, and the compose file that is then written is that of the archive. The
  -- manifest and the configuration of each image of its services have their hashes, and the blob of
  -- each layer has the layer's size; nothing of the images is removed.
  pub is_app_fetched-AppStored :
      (uri : String) (s s' : S) → is_app_fetched F uri s ≡ (some true, s') → AppStored F uri s s'
  unfolding is_app_fetched
  is_app_fetched-AppStored uri s s' e =
      after_parse-AppStored uri (parse_uri F.to_lower true uri) s s' refl e

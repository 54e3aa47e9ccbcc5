-- ===== src/Tests/PruneExamples.antt =====
-- The theorem on the pruning of the store, applied to a store with an app and a blob that no app
-- refers to.
use aktualizr_lite.Docker.Fetched.{app_dir_of, blob_path, image_root, under}
use aktualizr_lite.Docker.Prune.{
  AppStore, BlobRef, app_root, find_app, keep_image, keep_images, keep_version, list_arrays,
  list_refs, prune, prune_app, prune_apps, prune_blobs, prune_store, prune_version, prune_versions,
}
use aktualizr_lite.Docker.PruneLaws.{NamesAgree}
use aktualizr_lite.Docker.Spared.{
  AppData, HasBlobIn, SameApp, SameBlob, SameView, SameView-refl, Spares, index_path,
}
use Prim.Native.String.{count}
use text.Mathlib.TextLemmas.{append_cancel_left, length-append}
use mathlib.Core.Option.{some-injective}
use aktualizr_lite.Docker.StoreLaws.{prune-AppData}
use aktualizr_lite.Docker.Uri.{
  Uri, hashed_digest, parse_uri, rfind_slash, split_name, uri_of_parts, uri_text,
}
use aktualizr_lite.Prelude.{
  Bool, Bool-cases, List, Memᴰ, Option, String, [], ap, arith, false, if_false, if_true,
  if◌then◌else◌, inl, inr, int_eq, nat_eq, none, none_not_some, not, refl, some, string_eq, subst,
  sym, true, ◌<>◌, ◌<◌, ◌==◌, ◌∙◌, ◌∷◌, ◌≡◌, ◌≢◌,
}
use aktualizr_lite.Tests.DockerExamples.{digest_text, image}

abbrev root_path : String
root_path = "/var/sota/reset-apps/apps"

abbrev junk_path : String
junk_path = "/blobs/sha256/junk"

abbrev digest_value : Option String
digest_value = some ("sha256:" <> digest_text)

-- The state says whether the blob `junk` was removed; other removals change nothing.
abbrev store : AppStore Bool
store = record {
  files = record {
    to_lower = λ s. s;
    apps_root = root_path;
    blobs_root = "/blobs";
    exists = λ path gone. if path == junk_path then not gone else true;
    is_symlink = λ path gone. false;
    content_hash = λ path gone. some digest_text;
    file_size = λ path gone. some 5;
    archive_digest = λ path gone. digest_value;
    extract_compose = λ path gone. some "services:";
    write_file = λ path text gone. some gone;
    read_compose = λ path gone. some (("web", some (uri_text image)) ∷ []);
    read_index = λ path gone. none;
    read_manifest = λ path gone. none;
    remove = λ path gone. gone;
    remove_all = λ path gone. if path == junk_path then true else gone;
  };
  entries = λ path gone.
      if path == root_path
      then some (("old", true) ∷ ("app", true) ∷ [])
      else if path == under root_path "app"
      then some ((digest_text, true) ∷ [])
      else some (("junk", false) ∷ (digest_text, false) ∷ []);
  app_refs = λ path gone. some [];
  index_digest = λ path gone. digest_value;
  image_refs = λ path gone.
      some (record { config = digest_value; layers = BlobRef.named digest_value ∷ [] });
  prune_containers = λ gone. (true, gone);
  prune_images = λ gone. (true, gone);
}

-- A path that is longer than that of the blob.
abbrev Long : String → Type 0
Long path = 18 < count path

under-Long : (path name : String) → Long path → Long (under path name)
under-Long path name l = omega (arith, l, length-append path ("/" <> name))

Long-ne-junk : (path : String) → Long path → path == junk_path ≡ false
Long-ne-junk path l = elim (Bool-cases (path == junk_path)) [
  | inl b ↦
      let n = ap count ((string_eq.decides path junk_path).0 b) in
      let m : count junk_path ≡ 18 = refl in let bad : ⊥ = omega (arith, l, n, m) in elim bad [ ]
  | inr b ↦ b
]

app_root-Long : (name : String) → Long (app_root store name)
app_root-Long name = under-Long root_path name (omega arith)

image_root-Long : (w x : Uri) → Long (image_root store.files (app_dir_of store.files w) x)
image_root-Long w x = under-Long _ x.digest.hash (
    under-Long _ x.repo (
      under-Long _ x.registry_hostname
        (under-Long _ "images" (under-Long _ w.digest.hash (app_root-Long w.app)))))

Long-SameView :
    (path : String) (s : Bool) → Long path → SameView store image s (store.files.remove_all path s)
Long-SameView path s l =
    subst (λ t. SameView store image s (if t then true else s)) (sym (Long-ne-junk path l))
      (SameView-refl store image s)

all-SameApp : (s t : Bool) → SameApp store image s t
all-SameApp s t = record {
  compose = refl;
  index_exists = λ x.
      let no =
        Long-ne-junk (index_path store image x)
          (under-Long _ "index.json" (image_root-Long image x)) in
      ap (λ b. if b then not t else true) no ∙ sym (ap (λ b. if b then not s else true) no);
  index_same = λ x. refl;
  version = λ v. v;
}

blob_path-injective : (a b : String) → blob_path store.files a ≡ blob_path store.files b → a ≡ b
blob_path-injective a b e =
    append_cancel_left "/" a b (append_cancel_left "/blobs/sha256" ("/" <> a) ("/" <> b) e)

blob-SameBlob :
    (a h : String) (s : Bool)
    → a ≢ h
    → SameBlob store image h s (store.files.remove_all (blob_path store.files a) s)
blob-SameBlob a h s ne = elim (Bool-cases (blob_path store.files a == junk_path)) [
  | inr b ↦
      subst (λ t. SameBlob store image h s (if t then true else s)) (sym b)
        ((SameView-refl store image s).1 h)
  | inl b ↦ elim (Bool-cases (blob_path store.files h == junk_path)) [
    | inl c ↦
        elim (ne (
          blob_path-injective a h
            ((string_eq.decides _ junk_path).0 b ∙ sym ((string_eq.decides _ junk_path).0 c)))) [ ]
    | inr c ↦
        subst (λ t. SameBlob store image h s (if t then true else s)) (sym b)
          (record {
            blob_exists =
                ap (λ t. if t then not true else true) c
                ∙ sym (ap (λ t. if t then not s else true) c);
            refs = refl;
          })
  ]
]

store-Spares : Spares store image
store-Spares = record {
  app_dir = λ a s ne. Long-SameView (app_root store a) s (app_root-Long a);
  version_dir =
      λ a v s ne. Long-SameView (under (app_root store a) v) s (under-Long _ v (app_root-Long a));
  image_dir = λ w x s ne.
      Long-SameView (image_root store.files (app_dir_of store.files w) x) s (image_root-Long w x);
  blob_app = λ b s. all-SameApp s (store.files.remove_all (blob_path store.files b) s);
  other_blob = blob-SameBlob;
  containers = λ s. SameView-refl store image s;
  images = λ s. SameView-refl store image s;
}

abbrev shortlist : List (String × String)
shortlist = ("app", uri_text image) ∷ []

image_read : parse_uri store.files.to_lower true (uri_text image) ≡ some image
unfolding hashed_digest split_name rfind_slash parse_uri uri_of_parts uri_text
image_read = refl

store-NamesAgree : NamesAgree store shortlist
unfolding find_app
store-NamesAgree name uri w f p = elim (Bool-cases (name == "app")) [
  | inl b ↦
      let same = some-injective _ _ (if_true _ _ _ _ b f) in
      let read = subst (λ t. parse_uri store.files.to_lower true t ≡ some w) (sym same) p in
      ap (λ v. v.app) (some-injective _ _ (sym read ∙ image_read))
      ∙ sym ((string_eq.decides name "app").0 b)
  | inr b ↦ none_not_some (if_false _ _ _ _ b f)
]

image_stored : AppData store image (HasBlobIn store image false) false
unfolding hashed_digest split_name rfind_slash parse_uri uri_of_parts uri_text
image_stored = (
  ("web", some (uri_text image)) ∷ [],
  refl,
  ((digest_text, true) ∷ [], refl, Memᴰ.head refl),
  (
    (
      image,
      image.digest,
      record { config = digest_value; layers = BlobRef.named digest_value ∷ [] },
      image.digest,
      refl,
      refl,
      refl,
      refl,
      refl,
      refl,
      refl,
      ((image.digest, refl, refl), tt),
    ),
    tt,
  ),
)

junk_pruned : prune store shortlist false ≡ some true
unfolding prune prune_apps prune_app prune_versions prune_version keep_version keep_images
    keep_image list_refs list_arrays prune_store prune_blobs find_app hashed_digest split_name
    rfind_slash parse_uri uri_of_parts uri_text
junk_pruned = refl

prune-AppData_example : AppData store image (HasBlobIn store image true) true
unfolding find_app
prune-AppData_example =
    prune-AppData store image store-Spares shortlist (uri_text image)
      (("old", true) ∷ ("app", true) ∷ []) false true store-NamesAgree refl image_read refl
      (Memᴰ.tail (Memᴰ.head refl)) image_stored junk_pruned

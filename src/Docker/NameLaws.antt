-- ===== src/Docker/NameLaws.antt =====
-- What the names and digests of images are divided into by src/docker/docker.cc.
use aktualizr_lite.Prelude.{
  if◌then◌else◌, ◌+◌, nat_eq, string_eq, int_eq, inl, inr, ◌==◌, ◌⊎◌, ◌∙◌, not, ◌<>◌, none, ◌≡◌,
  String, ap, arith, false, true, refl, some, sym,
}
use aktualizr_lite.Docker.Uri.{
  HashedDigest, hashed_digest, rfind_slash, split_name, substr, substr_from,
}
use aktualizr_lite.Docker.Find.{one, and_parts, lacks_char, slice_between}
use Prim.Native.Char.{Char, code, len_utf8}
use Prim.Native.String.append
use Prim.Native.String.len
use Prim.Native.String.{len, slice}
use text.Mathlib.TextLemmas.{append_assoc}
use text.Mathlib.TextPositions.{len-append, slice-append_left, slice-append_right}

-- A text that lacks slashes has no last one.
rfind_slash-none : (a : String) → lacks_char b'/' a ≡ true → rfind_slash a ≡ none
unfolding rfind_slash
rfind_slash-none String.[] h = refl
rfind_slash-none (String.◌∷◌ c s) h =
    let (n, r) = and_parts (not (code c == b'/')) (lacks_char b'/' s) h in
    let none_here : (code c == b'/') ≡ false = ground (arith, n) in
    rw (rfind_slash-none s r, none_here) refl

-- The last slash is the one before a text that lacks them.
rfind_slash-last :
    (d : Char) (f a : String)
    → (code d == b'/') ≡ true
    → lacks_char b'/' a ≡ true
    → rfind_slash (f <> (one d <> a)) ≡ some (len f)
unfolding rfind_slash
rfind_slash-last d String.[] a e h =
    ap rfind_slash (append.nil (one d <> a))
    ∙ ap rfind_slash (append.cons d String.[] a)
    ∙ ap (λ s. rfind_slash (String.◌∷◌ d s)) (append.nil a)
    ∙ rw (rfind_slash-none a h, e) refl
    ∙ ap some (sym len.nil)
rfind_slash-last d (String.◌∷◌ c f) a e h =
    ap rfind_slash (append.cons c f (one d <> a))
    ∙ ap
        (λ o. elim o [
          | some n ↦ some (len_utf8 c + n)
          | none ↦ if code c == b'/' then some 0 else none
        ])
        (rfind_slash-last d f a e h)
    ∙ ap some (sym (len.cons c f))

-- A name is a factory and an app with a slash between them, or an app alone; an app has no slash.
abbrev pub IsName : String → String → String → Type 0
IsName name factory app =
    (lacks_char b'/' app ≡ true)
    × ((name ≡ factory <> ("/" <> app)) ⊎ (factory ≡ "") × (name ≡ app))

pub split_name-IsName :
    (name factory app : String) → IsName name factory app → split_name name ≡ (factory, app)
unfolding split_name
split_name-IsName name factory app (h, inr (f, n)) =
    ap (λ o. elim o [ none ↦ ("", name) | some k ↦ (substr name 0 k, substr_from name (k + 1)) ])
      (ap rfind_slash n ∙ rfind_slash-none app h)
    ∙ ap (λ x. ("", x)) n
    ∙ ap (λ x. (x, app)) (sym f)
split_name-IsName name factory app (h, inl n) =
    let t = factory <> ("/" <> app) in
    let at : rfind_slash t ≡ some (len factory) = rfind_slash-last "/" factory app refl h in
    let front : substr t 0 (len factory) ≡ factory =
      slice_between t refl (omega arith) ∙ slice-append_left factory ("/" <> app) in
    let l = len-append factory "/" in
    let m = len-append (factory <> "/") app in
    let e = append_assoc factory "/" app in
    let k = ap len e in
    let back : substr_from t (len factory + 1) ≡ app =
      slice_between t (omega (arith, l)) (omega (arith, m, k))
      ∙ ap (λ x. slice x (len (factory <> "/")) (len (factory <> "/") + len app)) (sym e)
      ∙ slice-append_right (factory <> "/") app in
    ap split_name n
    ∙ ap (λ o. elim o [ none ↦ ("", t) | some k ↦ (substr t 0 k, substr_from t (k + 1)) ]) at
    ∙ ap (λ x. (x, substr_from t (len factory + 1))) front
    ∙ ap (λ x. (factory, x)) back

module _ (to_lower : String → String) where
  -- A digest is of `sha256`, in lower case, with a hash of 64 characters, of which the first seven
  -- are the short hash.
  abbrev pub IsDigest : HashedDigest → Type 0
  IsDigest d =
      (d.digest ≡ "sha256:" <> d.hash)
      × (to_lower d.digest ≡ d.digest)
      × (len d.hash ≡ 64)
      × (d.short_hash ≡ substr d.hash 0 7)

  pub hashed_digest-IsDigest :
      (d : HashedDigest) → IsDigest d → hashed_digest to_lower d.digest ≡ some d
  unfolding hashed_digest
  hashed_digest-IsDigest d (text, low, long, short) =
      let w = "sha256:" <> d.hash in
      let l = len-append "sha256:" d.hash in
      let front : substr w 0 7 ≡ "sha256:" = slice-append_left "sha256:" d.hash in
      let back : substr_from w 7 ≡ d.hash =
        slice_between w refl (omega (arith, l)) ∙ slice-append_right "sha256:" d.hash in
      let first : substr (to_lower d.digest) 0 7 ≡ "sha256:" =
        ap (λ t. substr t 0 7) (low ∙ text) ∙ front in
      let rest : substr_from (to_lower d.digest) 7 ≡ d.hash =
        ap (λ t. substr_from t 7) (low ∙ text) ∙ back in
      rw (first, rest, long, low, sym short) refl

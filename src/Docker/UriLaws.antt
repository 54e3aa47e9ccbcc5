-- ===== src/Docker/UriLaws.antt =====
-- What is read from the text of a URI, as the engine writes it, is the URI.

use aktualizr_lite.Docker.NameLaws.{IsDigest, IsName, hashed_digest-IsDigest, split_name-IsName}
use aktualizr_lite.Docker.Find.{slice_between, find?-one, lacks_char, lacks_char-append}
use aktualizr_lite.Docker.Uri.{
  Uri, is_bad_factory, parse_uri, substr, substr_from, uri_of_parts, uri_text,
}
use Prim.Native.String.{slice}
use text.Mathlib.TextPositions.{slice-append_left, slice-append_middle, slice-append_right}
use text.Mathlib.Text.{find?}
use text.Mathlib.TextLemmas.{append_assoc}
use text.Mathlib.TextPositions.{len-append}
use aktualizr_lite.Prelude.{
  Bool, String, ap, arith, false, leb, len, refl, some, sym, true, ◌&&◌, ◌+◌, ◌-◌, ◌<>◌, ◌∙◌, ◌≡◌,
  ◌≤◌,
}

module _ (h r d : String) where
  at_position : len (h <> ("/" <> r)) ≡ len h + 1 + len r
  at_position = let a = len-append h ("/" <> r) in let b = len-append "/" r in omega (arith, a, b)

  whole_length : len (h <> ("/" <> (r <> ("@" <> d)))) ≡ len h + 1 + len r + 1 + len d
  whole_length =
      let a = len-append h ("/" <> (r <> ("@" <> d))) in
      let b = len-append "/" (r <> ("@" <> d)) in
      let e = len-append r ("@" <> d) in let f = len-append "@" d in omega (arith, a, b, e, f)

  regroup : h <> ("/" <> (r <> ("@" <> d))) ≡ (h <> ("/" <> r)) <> ("@" <> d)
  regroup =
      ap (λ x. h <> x) (sym (append_assoc "/" r ("@" <> d)))
      ∙ sym (append_assoc h ("/" <> r) ("@" <> d))

  name_of_text :
      substr (h <> ("/" <> (r <> ("@" <> d)))) (len h + 1) (len h + 1 + len r - len h - 1) ≡ r
  name_of_text =
      let l = len-append h "/" in
      ap (λ x. substr x (len h + 1) (len h + 1 + len r - len h - 1))
        (sym (append_assoc h "/" (r <> ("@" <> d))))
      ∙ slice_between _ (omega (arith, l)) (omega (arith, l))
      ∙ slice-append_middle (h <> "/") r ("@" <> d)

  host_of_text : substr (h <> ("/" <> (r <> ("@" <> d)))) 0 (len h) ≡ h
  host_of_text = slice_between _ refl (omega arith) ∙ slice-append_left h ("/" <> (r <> ("@" <> d)))

  digest_of_text : substr_from (h <> ("/" <> (r <> ("@" <> d)))) (len h + 1 + len r + 1) ≡ d
  digest_of_text =
      let u = (h <> ("/" <> r)) <> "@" in
      let a = at_position in
      let w = whole_length in
      let l = len-append (h <> ("/" <> r)) "@" in
      slice_between (h <> ("/" <> (r <> ("@" <> d)))) (omega (arith, a, l)) (omega (arith, a, l, w))
      ∙ ap (λ x. slice x (len u) (len u + len d))
          (regroup ∙ sym (append_assoc (h <> ("/" <> r)) "@" d))
      ∙ slice-append_right u d

-- What `parseUri` needs of a URI, to read it back from its text: the host ends at the first slash and
-- the name at the first `@`, the factory and the app are those of the name, and the digest is one of
-- `sha256`.
module _ (to_lower : String → String) where
  abbrev pub IsUri : Bool → Uri → Type 0
  IsUri factory_app u =
      (lacks_char b'/' u.registry_hostname ≡ true)
      × (lacks_char b'@' u.registry_hostname ≡ true)
      × (lacks_char b'@' u.repo ≡ true)
      × (1 ≤ len u.repo)
      × IsName u.repo u.factory u.app
      × ((factory_app && is_bad_factory u.factory) ≡ false)
      × IsDigest to_lower u.digest

  parts_of_text :
      (f : Bool) (u : Uri)
      → IsUri f u
      → uri_of_parts to_lower f
          (uri_text u)
          (len u.registry_hostname + 1 + len u.repo)
          (len u.registry_hostname)
        ≡ some u
  unfolding uri_of_parts uri_text
  parts_of_text f u (hs, ha, ra, long, sp, ok, dg) =
      let h = u.registry_hostname in
      let r = u.repo in
      let d = u.digest.digest in
      let sp' = split_name-IsName r u.factory u.app sp in
      let dg' = hashed_digest-IsDigest to_lower u.digest dg in
      let g : leb (len h + 1 + len r) (len h + 1) ≡ false = ground (arith, long) in
      rw (g, name_of_text h r d, host_of_text h r d, digest_of_text h r d, sp', ok, dg') refl

  -- Reading the text of a URI gives this URI, if its host has no slash and no `@`, its name is not
  -- empty and has no `@`, it is a factory and an app with a slash between them or an app alone, the
  -- app has no slash, the factory is one that a factory's image may have if this is asked for, and the
  -- digest is of `sha256`, in lower case, with a hash of 64 characters.
  pub parse_uri-uri_text :
      (f : Bool) (u : Uri) → IsUri f u → parse_uri to_lower f (uri_text u) ≡ some u
  unfolding parse_uri uri_text
  parse_uri-uri_text f u h =
      let (hs, ha, ra, long, sp, ok, dg) = h in
      let x = u.registry_hostname in
      let r = u.repo in
      let d = u.digest.digest in
      let lacks = lacks_char-append b'@' x ("/" <> r) ha (lacks_char-append b'@' "/" r refl ra) in
      let at = ap (λ t. find? t "@") (regroup x r d) ∙ find?-one "@" (x <> ("/" <> r)) d lacks in
      let slash = find?-one "/" x (r <> ("@" <> d)) hs in
      rw (at, slash, at_position x r d) (parts_of_text f u h)

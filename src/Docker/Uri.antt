-- ===== src/Docker/Uri.antt =====
-- Digests and URIs of images: `HashedDigest` and `Uri` of src/docker/docker.cc. None is an exception.
use aktualizr_lite.Prelude.{
  Bool, Option, String, false, if◌then◌else◌, int_eq, is_empty, leb, len, nat_eq, none, not, some,
  string_eq, true, ℕ, ◌&&◌, ◌+◌, ◌-◌, ◌<>◌, ◌==◌, ◌>>=◌, ◌||◌,
}
use Prim.Native.Char.{code, len_utf8}
use Prim.Native.String.{slice}
use text.Mathlib.Text.{find?}

-- `HashedDigest`
pub record HashedDigest : Type 0 where
  pub digest : String
  pub hash : String
  pub short_hash : String

pub record Uri : Type 0 where
  pub digest : HashedDigest
  pub app : String
  pub factory : String
  pub repo : String
  pub registry_hostname : String

-- `substr` from a position, and of a length.
abbrev pub substr_from : String → ℕ → String
substr_from s at = slice s at (len s)

abbrev pub substr : String → ℕ → ℕ → String
substr s at n = slice s at (at + n)

-- `rfind('/')`: the position of the last slash.
unfoldable pub rfind_slash : String → Option ℕ
rfind_slash String.[] = none
rfind_slash (String.◌∷◌ c s) =
    let rest = rfind_slash s in
    elim rest [ some n ↦ some (len_utf8 c + n) | none ↦ if code c == b'/' then some 0 else none ]

-- The factory and the app of a name, which its last slash divides.
unfoldable pub split_name : String → String × String
unfolding rfind_slash
split_name name = elim (rfind_slash name) [
  | none ↦ ("", name)
  | some at ↦ (substr name 0 at, substr_from name (at + 1))
]

-- Whether the factory is not one of a factory's image.
abbrev pub is_bad_factory : String → Bool
is_bad_factory factory =
    is_empty factory || elim (find? factory "/") [ none ↦ false | some at ↦ true ]

-- `to_lower` is `boost::algorithm::to_lower_copy`.
module _ (to_lower : String → String) where
  -- `HashedDigest::HashedDigest`
  unfoldable pub hashed_digest : String → Option HashedDigest
  hashed_digest text =
      let digest = to_lower text in
      let hash = substr_from digest 7 in
      if not (substr digest 0 7 == "sha256:")
      then none
      else if not (len hash == 64)
      then none
      else some (record { digest = digest; hash = hash; short_hash = substr hash 0 7 })

  -- The parts of a URI by the positions of `@` and of the first slash.
  unfoldable pub uri_of_parts : Bool → String → ℕ → ℕ → Option Uri
  unfolding split_name hashed_digest
  uri_of_parts factory_app uri at slash =
      let name = substr uri (slash + 1) (at - slash - 1) in
      let (factory, app) = split_name name in
      if leb at (slash + 1)
      then none
      else if factory_app && is_bad_factory factory
      then none
      else hashed_digest (substr_from uri (at + 1)) >>= λ d. some (record {
        digest = d;
        app = app;
        factory = factory;
        repo = name;
        registry_hostname = substr uri 0 slash;
      })

  -- `Uri::parseUri`
  unfoldable pub parse_uri : Bool → String → Option Uri
  unfolding uri_of_parts
  parse_uri factory_app uri =
      find? uri "@" >>= λ at. find? uri "/" >>= λ slash. uri_of_parts factory_app uri at slash

-- `Uri::createUri`
unfoldable pub create_uri : HashedDigest → Uri → Uri
create_uri d u = record u { digest = d }

-- The text of the file `uri` of an app, which `pullApp` writes.
unfoldable pub uri_text : Uri → String
uri_text u = u.registry_hostname <> ("/" <> (u.repo <> ("@" <> u.digest.digest)))

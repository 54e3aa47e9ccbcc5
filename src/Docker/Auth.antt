-- ===== src/Docker/Auth.antt =====
-- How a registry is authenticated to: `BearerAuth`, `getBasicAuthHeader` and `getBearerAuthHeader` of
-- src/docker/docker.cc.

use Prim.Native.Char.{Char, code}
use mathlib.Core.Option
use aktualizr_lite.Prelude.{
  Bool, List, Option, String, [], if◌then◌else◌, int_eq, is_empty, len, nat_eq, none, not, pos,
  some, string_eq, suc, true, zero, ℕ, ℤ, ◌&&◌, ◌<>◌, ◌==◌, ◌>>=◌, ◌||◌, ◌∷◌,
}
use text.Mathlib.Text.{starts_with}
use aktualizr_lite.Docker.Pull.{Read}
use aktualizr_lite.Docker.Uri.{substr_from}

-- The number of characters.
abbrev pub chars : String → ℕ
chars String.[] = 0
chars (String.◌∷◌ c s) = suc (chars s)

abbrev pub with_char : Char → Option (String × String) → Option (String × String)
with_char c none = none
with_char c (some (a, b)) = some (String.◌∷◌ c a, b)

-- What stands before the first character of a code, and what stands after it.
unfoldable pub split_first : ℕ → String → Option (String × String)
split_first n String.[] = none
split_first n (String.◌∷◌ c s) =
    let rest = split_first n s in if code c == n then some (String.[], s) else with_char c rest

-- What stands after the last place of a text.
unfoldable pub after_last : String → String → Option String
after_last part String.[] = none
after_last part (String.◌∷◌ c s) =
    let here = String.◌∷◌ c s in
    elim (after_last part s) [
      | some rest ↦ some rest
      | none ↦ if starts_with here part then some (substr_from here (len part)) else none
    ]

-- Whether there are but spaces.
abbrev pub all_spaces : String → Bool
all_spaces String.[] = true
all_spaces (String.◌∷◌ c s) = code c == b' ' && all_spaces s

pub record BearerAuth : Type 0 where
  pub realm : String
  pub service : String
  pub scope : String

-- `BearerAuth::uri`
unfoldable pub token_uri : BearerAuth → String
token_uri b = b.realm <> ("?service=" <> (b.service <> ("&scope=" <> b.scope)))

abbrev pub Params : Type 0
Params = List (String × String)

-- The value of a parameter, from behind its opening quote, and what follows the comma behind it, if
-- there is one.
unfoldable pub quoted_value : String → Option (String × Option String)
unfolding split_first
quoted_value quoted =
    split_first b'"' quoted >>= λ p. some (p.0, Option.map (λ q. q.1) (split_first b',' p.1))

abbrev pub unless_some : {A B : Type 0} → Option A → Option B → Option B
unless_some none o = o
unless_some (some a) o = none

-- Anything but spaces before the opening quote is refused, and so is such a quote in the name.
unfoldable pub next_param : String → String → Option (String × Option String)
unfolding split_first quoted_value
next_param name after_eq =
    unless_some (split_first b'"' name)
      (split_first b'"' after_eq >>= λ p. if not (all_spaces p.0) then none else quoted_value p.1)

module _ (trim : String → String) where
  -- The loop over the parameters: none without fuel, and `failed` after an exception.
  unfoldable pub bearer_params : ℕ → String → Params → Option (Read Params)
  unfolding split_first next_param
  bearer_params zero text params = none
  bearer_params (suc fuel) text params = elim (split_first b'=' text) [
    | none ↦ some (Read.got params)
    | some (name, after_eq) ↦ elim (next_param name after_eq) [
      | none ↦ some (Read.failed "Invalid value of Bearer auth parameters")
      | some (value, behind) ↦
          let params' = (trim name, trim value) ∷ params in
          elim behind [
            | none ↦ some (Read.got params')
            | some rest ↦ bearer_params fuel rest params'
          ]
    ]
  ]

-- A parameter that must be given.
abbrev pub param : String → Params → Read String
param key [] = Read.failed "Missing required auth param(s)"
param key ((name, value) ∷ params) =
    let rest = param key params in if name == key then Read.got value else rest

abbrev pub and_read : {A B : Type 0} → Read A → (A → Read B) → Read B
and_read (Read.got a) f = f a
and_read (Read.failed e) f = Read.failed e

abbrev pub required_params : Params → Read BearerAuth
required_params params = and_read (param "realm" params) (λ realm.
    and_read (param "service" params) (λ service.
      and_read (param "scope" params)
        (λ scope. Read.got (record { realm = realm; service = service; scope = scope }))))

-- `BearerAuth::BearerAuth`. The fuel is enough: each round takes some of the text.
unfoldable pub bearer_auth : (String → String) → String → Read BearerAuth
unfolding bearer_params after_last
bearer_auth trim header =
    let text = trim (elim (after_last "bearer" header) [ some rest ↦ rest | none ↦ header ]) in
    if not (starts_with header "bearer")
    then Read.failed "Unsupported authentication type"
    else elim (bearer_params trim (suc (chars text)) text []) [
      | none ↦ Read.failed ""
      | some params ↦ and_read params required_params
    ]

-- A response, with the value of its header `www-authenticate`.
pub record HttpResponse : Type 0 where
  pub http_status_code : ℕ
  pub ok : Bool
  pub body : String
  pub authenticate : Option String

-- What the client of the registry uses of the network and of other libraries. A request depends on
-- its headers and on the state of the world.
pub record Web (S : Type 0) : Type 0 where
  pub get : List String → String → ℤ → S → HttpResponse
  -- `ota_lite_client_->get`
  pub get_creds : String → ℕ → S → HttpResponse
  pub auth_creds_endpoint : String
  -- The members `Username` and `Secret`, and `token`, of a body, as texts.
  pub parse_creds : String → Read (String × String)
  pub parse_token : String → Read String
  pub to_base64 : String → String
  pub trim : String → String

module _ {S : Type 0} (W : Web S) where
  -- `getBasicAuthHeader`
  unfoldable pub get_basic_auth_header : S → Read String
  get_basic_auth_header s =
      let creds = W.get_creds W.auth_creds_endpoint 1024 s in
      if not creds.ok
      then Read.failed "Failed to get Docker Registry credentials"
      else and_read (W.parse_creds creds.body) (λ p.
        if is_empty p.0 || is_empty p.1
        then Read.failed "Got invalid Docker Registry credentials"
        else Read.got ("authorization: basic " <> W.to_base64 (p.0 <> (":" <> p.1))))

  -- `getBearerAuthHeader`
  unfoldable pub get_bearer_auth_header : BearerAuth → S → Read String
  unfolding get_basic_auth_header token_uri
  get_bearer_auth_header bearer s = and_read (get_basic_auth_header s) (λ basic.
      let response = W.get (basic ∷ []) (token_uri bearer) (pos 1024) s in
      if not response.ok
      then Read.failed "Failed to get Auth Token at Docker Registry"
      else and_read (W.parse_token response.body) (λ token.
        if is_empty token
        then Read.failed "Got invalid token from Docker Registry"
        else Read.got ("authorization: bearer " <> token)))

  -- What is sent again after a response with the status 401: the header for its challenge.
  unfoldable pub answer_challenge : HttpResponse → S → Read String
  unfolding bearer_auth get_bearer_auth_header
  answer_challenge response s = elim response.authenticate [
    | none ↦ Read.failed "No `www-authenticate` header found in the 401 response"
    | some header ↦ and_read (bearer_auth W.trim header) (λ bearer. get_bearer_auth_header bearer s)
  ]

-- ===== src/Docker/RunningLaws.antt =====
-- What the engine has found where it says that an app is running.
use aktualizr_lite.Prelude.{
  ◌≢◌, ◌&&◌, eq_iff, Memᴰ, sym, All, Bool, Bool-cases, List, Option, String, [], ap, false,
  false-ne-true, if_false, if_true, if◌then◌else◌, inl, inr, int_eq, is_nil, nat_eq, none,
  none_not_some, not, refl, some, some_of_bind, some_unless, string_eq, true, ◌<>◌, ◌==◌, ◌∙◌, ◌∷◌,
  ◌≡◌,
}
use mathlib.Core.Option.{some-injective}
use aktualizr_lite.Docker.Containers.{
  Container, Containers, check_app_containers, check_services, compose_file_of, get_container_state,
  is_app_installed, is_running, is_up,
}
use aktualizr_lite.Docker.Fetched.{app_dir_of, digest_of, under}
use aktualizr_lite.Docker.Uri.{HashedDigest, Uri, parse_uri}

-- A service has a container: one of the list with the labels of the app, of the service and of the
-- hash of the service's configuration, in a state other than `created`.
abbrev pub IsUp : String → List Container → String × Option String → Type 0
IsUp app containers (service, hash) =
    (h : String) × (c : Container) × (hash ≡ some h)
    × Memᴰ c containers
    × (c.project ≡ app)
    × (c.service ≡ service)
    × (c.config_hash ≡ h)
    × (c.state ≢ "created")

-- The container whose state is found.
abbrev Found : List Container → String → String → String → String → Type 0
Found containers app service h state =
    (c : Container) × Memᴰ c containers
    × (c.project ≡ app)
    × (c.service ≡ service)
    × (c.config_hash ≡ h)
    × (c.state ≡ state)

all_three : (a b c : Bool) → (a && b && c) ≡ true → (a ≡ true) × (b ≡ true) × (c ≡ true)
all_three true true c e = (refl, refl, e)
all_three true false c e = elim (false-ne-true e) [ ]
all_three false b c e = elim (false-ne-true e) [ ]

get_container_state-Found :
    (containers : List Container) (app service h state : String)
    → get_container_state containers app service h ≡ some state
    → Found containers app service h state
unfolding get_container_state
get_container_state-Found [] app service h state e = none_not_some e
get_container_state-Found (c ∷ cs) app service h state e =
    elim (Bool-cases (c.project == app && c.service == service && c.config_hash == h)) [
      | inl b ↦
          let (p, q, r) =
            all_three (c.project == app) (c.service == service) (c.config_hash == h) b in
          (
            c,
            Memᴰ.head refl,
            (string_eq.decides c.project app).0 p,
            (string_eq.decides c.service service).0 q,
            (string_eq.decides c.config_hash h).0 r,
            some-injective _ _ (if_true _ _ _ _ b e),
          )
      | inr b ↦
          let (d, m, p, q, r, k) =
            get_container_state-Found cs app service h state (if_false _ _ _ _ b e) in
          (d, Memᴰ.tail m, p, q, r, k)
    ]

when_not : (b : Bool) → not b ≡ true → b ≡ false
when_not true h = elim (false-ne-true h) [ ]
when_not false h = refl

is_up-some :
    (o : Option String)
    → is_up true o ≡ true
    → (state : String) × (o ≡ some state) × ((state == "created") ≡ false)
is_up-some none h = elim (false-ne-true h) [ ]
is_up-some (some state) h = (state, refl, when_not _ h)

check_services-IsUp :
    (app : String) (containers : List Container) (services : List (String × Option String))
    → check_services true app containers services ≡ some true
    → All (IsUp app containers) services
unfolding check_services
check_services-IsUp app containers [] e = tt
check_services-IsUp app containers ((service, none) ∷ services) e = none_not_some e
check_services-IsUp app containers ((service, some hash) ∷ services) e =
    let state = get_container_state containers app service hash in
    elim (Bool-cases (is_up true state)) [
      | inl b ↦
          let (st, k, n) = is_up-some state b in
          let (c, m, p, q, r, same) = get_container_state-Found containers app service hash st k in
          (
            (
              hash,
              c,
              refl,
              m,
              p,
              q,
              r,
              λ y. false-ne-true (sym n ∙ (eq_iff st "created").1 (sym same ∙ y)),
            ),
            check_services-IsUp app containers services (if_true _ _ _ _ b e),
          )
      | inr b ↦ elim (false-ne-true (some-injective _ _ (if_false _ _ _ _ b e))) [ ]
    ]

module _ {S : Type 0} (D : Containers S) where
  -- The compose file that is installed has the hash of that of the fetched archive.
  abbrev pub HasComposeOf : String × String → S → Type 0
  HasComposeOf (app, uri) s =
      (u : Uri) × (a : HashedDigest) × (fetched : String) × (installed : String) × (parse_uri
          D.files.to_lower true uri
        ≡ some u)
      × (digest_of D.files (D.files.archive_digest (under (app_dir_of D.files u) "manifest.json") s)
          ≡ some a)
      × (D.files.extract_compose (under (app_dir_of D.files u) (a.hash <> ".tgz")) s ≡ some fetched)
      × (D.read_file (compose_file_of D app) s ≡ some installed)
      × (D.sha256_hex fetched ≡ D.sha256_hex installed)

  -- The compose file has services, and each of them is up.
  abbrev pub AllUp : String → S → Type 0
  AllUp app s =
      (services : List (String × Option String)) × (containers : List Container) × (D.read_services
          (compose_file_of D app) s
        ≡ some services)
      × (is_nil services ≡ false)
      × (D.get_containers s ≡ some containers)
      × All (IsUp app containers) services

  is_app_installed-HasComposeOf :
      (app uri : String) (s : S)
      → is_app_installed D (app, uri) s ≡ some true
      → HasComposeOf (app, uri) s
  unfolding is_app_installed
  is_app_installed-HasComposeOf app uri s e =
      let (u, k, e1) = some_of_bind (parse_uri D.files.to_lower true uri) _ true e in
      let dir = app_dir_of D.files u in
      let (a, l, e2) =
        some_of_bind (digest_of D.files (D.files.archive_digest (under dir "manifest.json") s)) _
          true e1 in
      let (fetched, m, e3) =
        some_of_bind (D.files.extract_compose (under dir (a.hash <> ".tgz")) s) _ true e2 in
      let (installed, n, e4) = some_of_bind (D.read_file (compose_file_of D app) s) _ true e3 in
      (
        u,
        a,
        fetched,
        installed,
        k,
        l,
        m,
        n,
        (string_eq.decides (D.sha256_hex fetched) (D.sha256_hex installed)).0
            (some-injective _ _ e4),
      )

  check_app_containers-AllUp :
      (app : String) (s : S)
      → check_app_containers D true app (compose_file_of D app) s ≡ some true
      → AllUp app s
  unfolding check_app_containers
  check_app_containers-AllUp app s e =
      let (services, k, e1) = some_of_bind (D.read_services (compose_file_of D app) s) _ true e in
      let (some_service, e2) = some_unless (is_nil services) _ true e1 in
      let (containers, c, e3) = some_of_bind (D.get_containers s) _ true e2 in
      (services, containers, k, some_service, c, check_services-IsUp app containers services e3)

  or_false : (o : Option Bool) → (elim o [ none ↦ false | some b ↦ b ]) ≡ true → o ≡ some true
  or_false none e = elim (false-ne-true e) [ ]
  or_false (some b) e = ap some e

  both :
      (b : Bool) (o : Option Bool)
      → (if b then o else some false) ≡ some true
      → (b ≡ true) × (o ≡ some true)
  both true o e = (refl, e)
  both false o e = elim (false-ne-true (some-injective _ _ e)) [ ]

  -- An app is said to be running only if the compose file that is installed has the hash of that of
  -- the fetched archive, it has services, and each of them has a container that is of the hash of the
  -- service's configuration and in a state other than `created`.
  pub is_running-AllUp :
      (app uri : String) (s : S)
      → is_running D (app, uri) s ≡ true
      → HasComposeOf (app, uri) s × AllUp app s
  unfolding is_running
  is_running-AllUp app uri s e =
      let (installed, k, r) =
        some_of_bind (is_app_installed D (app, uri) s) _ true (or_false _ e) in
      let (i, up) = both installed (check_app_containers D true app (compose_file_of D app) s) r in
      (is_app_installed-HasComposeOf app uri s (k ∙ ap some i), check_app_containers-AllUp app s up)

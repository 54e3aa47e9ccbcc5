-- ===== src/Docker/ComposeLaws.antt =====
-- What the recorded state of an app tells after a download of another version.
use aktualizr_lite.Prelude.{
  String, ap, eq_refl, false, int_eq, is_empty, nat_eq, none, refl, some, string_eq, true, ℕ, ◌==◌,
  ◌≡◌,
}
use aktualizr_lite.Apps.Engine.{ResultId, result_of}
use aktualizr_lite.Docker.ComposeApps.{
  ComposeHost, Step, after_step, app_state, fetch_app, fetch_compose_app, k_downloaded, k_pulled,
  k_verified, recorded,
}
use aktualizr_lite.Docker.ComposeRuns.{is_compose_app_fetched, is_fetched_state}

module _ {S : Type 0} (H : ComposeHost S) where
  -- The files of apps hold what is written: here of the version of an app, whose state is left alone.
  pub record Holds (app : String × String) : Type 0 where
    pub version_written :
        (s s' : S)
        → H.write_version app.0 app.1 s ≡ some s'
        → (H.read_version app.0 s' ≡ some app.1)
          × (H.read_state app.0 s' ≡ H.read_state app.0 s)
          × (H.exists app.0 s' ≡ H.exists app.0 s)
    -- The directory for the state is there, and making it changes nothing.
    pub meta_made : (s : S) → H.create_meta_dir app.0 s ≡ some s

  fetch_app_failure :
      (app : String × String) (e : String) (s : S)
      → H.step Step.download app s ≡ (some e, s)
      → fetch_app H app s ≡ (some e, s)
  unfolding fetch_app
  fetch_app_failure app e s d =
      ap
        (after_step H k_downloaded app (
          recorded H Step.config k_verified app
            (recorded H Step.pull k_pulled app (λ s'. (none, s')))))
        d

  -- A download of a new version that fails, on a device that has another version whose images were
  -- pulled: `fetch` fails, and yet the new version is said to be fetched, since its name is recorded
  -- before the download and the state is still the one of the other version.
  pub is_compose_app_fetched-after_failure :
      (name uri old e : String) (state : ℕ) (s s' : S)
      → Holds (name, uri)
      → H.exists name s ≡ true
      → H.read_version name s ≡ some old
      → (old == uri) ≡ false
      → is_empty uri ≡ false
      → H.read_state name s ≡ some state
      → is_fetched_state H state ≡ true
      → H.write_version name uri s ≡ some s'
      → H.step Step.download (name, uri) s' ≡ (some e, s')
      → (fetch_compose_app H (name, uri) s ≡ some (result_of ResultId.failed e, s'))
        × (is_compose_app_fetched H (name, uri) s' ≡ true)
  unfolding fetch_compose_app app_state is_compose_app_fetched
  is_compose_app_fetched-after_failure name uri old e state s s' holds here rv other some_uri rs ok
        w d =
      let (rv', rs', here') = holds.version_written s s' w in
      (
        rw (holds.meta_made s, rv, other, some_uri, w, d) refl,
        rw (here', here, rv', rs', rs, some_uri, eq_refl uri, ok) refl,
      )

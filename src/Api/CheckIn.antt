-- ===== src/Api/CheckIn.antt =====
-- `updateMeta`, `checkInFailure`, `CheckIn`, `CheckInLocal` and `CheckInCurrent` of src/api.cc.
use aktualizr_lite.Results.{CheckInResult, CheckInStatus, LocalUpdateSource}
use aktualizr_lite.Target.{TufTarget, UptaneTarget, from_tuf_target, to_tuf_target}
use aktualizr_lite.Prelude.{
  Bool, List, Option, String, [], false, if◌then◌else◌, is_nil, map, none, not, some, true, ◌&&◌,
  ◌>>=◌, ◌||◌,
}
use aktualizr_lite.Api.Bundle.{
  Bundle, BundleError, Checked, ClientType, Root, check_bundle, check_kind, trusted_targets, passed,
  refused,
}
use aktualizr_lite.Api.Available.{Content, available_targets}
use aktualizr_lite.Api.Select.{filter_targets}

-- How `Repo::UpdateMeta` ends: well, or by an exception with its text.
pub data Update : Type 0 where
  updated : Update
  security_exception expired_metadata metadata_fetch_failure metadata_not_found other_exception :
      String → Update

-- What a client has and does at a check-in, over the state `S` of the rest.
pub record CheckInEnv (S : Type 0) : Type 0 where
  pub hw_id : String
  pub tags : List String
  pub secondary_hwids : List String
  pub client_type : ClientType
  pub invoke_post_cb_at_checkin : Bool
  -- `notifyTufUpdateStarted`, the reports of a check-in, and `notifyTufUpdateFinished` with or
  -- without an error, whose text is left out.
  pub notify_started : S → S
  pub report : S → S
  pub notify_finished : Bool → S → S
  -- `UpdateMeta` of the repository source, `CheckMeta` and `GetTargets`.
  pub update_meta : Option LocalUpdateSource → S → Update × S
  pub is_meta_valid : S → Bool
  pub tuf_targets : S → List TufTarget
  -- The bundle of a source, if its file is there, the root that `checkAndGetRootMeta` finds for it,
  -- and the content of its directories.
  pub bundle : LocalUpdateSource → S → Option Bundle
  pub root : LocalUpdateSource → S → Checked Root
  pub verify : String → String → Bool
  pub content : LocalUpdateSource → S → Content
  -- `std::sort` by version, and whether a text has another in it.
  pub sort : List TufTarget → List TufTarget
  pub has_text : String → String → Bool

-- The status for the end of an update.
unfoldable pub update_status : Update → CheckInStatus
update_status updated = CheckInStatus.ok
update_status (security_exception err) = CheckInStatus.security_error
update_status (expired_metadata err) = CheckInStatus.expired_metadata
update_status (metadata_fetch_failure err) = CheckInStatus.metadata_fetch_failure
update_status (metadata_not_found err) = CheckInStatus.metadata_not_found
update_status (other_exception err) = CheckInStatus.failed

-- Whether an offline update may go on with the stored metadata.
abbrev is_rollback_attempt : (String → String → Bool) → Update → Bool
is_rollback_attempt has_text (security_exception err) = has_text "Rollback attempt" err
is_rollback_attempt has_text _ = false

-- `fallback_to_current`
unfoldable pub allows_fallback : (String → String → Bool) → Option LocalUpdateSource → Update → Bool
allows_fallback has_text none u = true
allows_fallback has_text (some src) u = is_rollback_attempt has_text u

-- The status for an error of the bundle's metadata.
unfoldable pub bundle_status : BundleError → CheckInStatus
bundle_status BundleError.expired = CheckInStatus.expired_metadata
bundle_status BundleError.meta_not_found = CheckInStatus.metadata_not_found
bundle_status BundleError.root_meta_not_found = CheckInStatus.metadata_not_found
bundle_status _ = CheckInStatus.bundle_metadata_error

abbrev pub is_usable : CheckInStatus → Bool
is_usable CheckInStatus.ok = true
is_usable CheckInStatus.ok_cached = true
is_usable _ = false

module _ {S : Type 0} (E : CheckInEnv S) where
  -- `updateMeta`
  unfoldable pub update_meta : Option LocalUpdateSource → S → CheckInStatus × S
  unfolding update_status allows_fallback
  update_meta src s =
      let (u, s') = E.update_meta src s in
      (
        if not (is_usable (update_status u))
              && allows_fallback E.has_text src u
              && E.is_meta_valid s'
            then CheckInStatus.ok_cached
            else update_status u,
        s',
      )

  -- `checkInFailure`
  unfoldable pub check_in_failure : CheckInStatus → S → CheckInResult × S
  check_in_failure status s =
      (record { status = status; primary_hwid = E.hw_id; targets = [] }, E.notify_finished true s)

  abbrev post_callback : S → S
  post_callback s = if E.invoke_post_cb_at_checkin then E.notify_finished false s else s

  abbrev matching : List TufTarget → List TufTarget
  matching ts = filter_targets E.sort ts E.hw_id E.tags E.secondary_hwids

  -- `CheckIn`
  unfoldable pub check_in : S → CheckInResult × S
  unfolding update_meta check_in_failure
  check_in s =
      let (status, s1) = update_meta none (E.report (E.notify_started s)) in
      let found = matching (E.tuf_targets s1) in
      if not (is_usable status)
      then check_in_failure status s1
      else if is_nil found
      then check_in_failure CheckInStatus.no_matching_targets s1
      else (
        record { status = CheckInStatus.ok; primary_hwid = E.hw_id; targets = found },
        post_callback s1,
      )

  -- `getBundleMeta`: nothing where there is no file.
  unfoldable pub get_bundle : LocalUpdateSource → S → Checked (Option Bundle)
  get_bundle src s = elim (E.bundle src s) [
    | none ↦ passed none
    | some b ↦ elim (check_kind E.client_type E.tags (check_bundle E.verify (E.root src s) b)) [
      | refused e ↦ refused e
      | passed b' ↦ passed (some b')
    ]
  ]

  -- The end of `CheckInLocal`, with the targets that the content was found for.
  unfoldable pub offer : CheckInStatus → List UptaneTarget → S → CheckInResult × S
  unfolding check_in_failure
  offer status found s =
      if is_nil found then check_in_failure CheckInStatus.no_target_content s else (
        record { status = status; primary_hwid = E.hw_id; targets = map to_tuf_target found },
        post_callback s,
      )

  -- `CheckInLocal` after the checks of the bundle; an app without a uri may throw.
  unfoldable pub check_in_content :
      Option Bundle → LocalUpdateSource → S → Option (CheckInResult × S)
  unfolding update_meta check_in_failure offer
  check_in_content bundle src s =
      let (status, s1) = update_meta (some src) s in
      let trusted = trusted_targets (E.tuf_targets s1) bundle in
      let found = matching trusted in
      if not (is_usable status)
      then some (check_in_failure status s1)
      else if is_nil trusted || is_nil found
      then some (check_in_failure CheckInStatus.no_matching_targets s1)
      else available_targets (E.content src s1) (map from_tuf_target found)
        >>= (λ offered. some (offer status offered s1))

  -- `CheckInLocal`
  unfoldable pub check_in_local : LocalUpdateSource → S → Option (CheckInResult × S)
  unfolding get_bundle check_in_content
  check_in_local src s =
      let s1 = E.notify_started s in
      elim (get_bundle src s1) [
        | refused e ↦ some (check_in_failure (bundle_status e) s1)
        | passed bundle ↦ check_in_content bundle src s1
      ]

  -- `CheckInCurrent`, which reports nothing.
  unfoldable pub check_in_current : Option LocalUpdateSource → S → Option CheckInResult
  check_in_current src s =
      let found = matching (E.tuf_targets s) in
      let give : CheckInStatus → List TufTarget → CheckInResult =
        λ status targets. record { status = status; primary_hwid = E.hw_id; targets = targets } in
      if not (E.is_meta_valid s)
      then some (give CheckInStatus.security_error [])
      else if is_nil found
      then some (give CheckInStatus.no_matching_targets [])
      else elim src [
        | none ↦ some (give CheckInStatus.ok_cached found)
        | some source ↦
            available_targets (E.content source s) (map from_tuf_target found) >>= (λ offered.
              some (
                if is_nil offered
                then give CheckInStatus.no_target_content []
                else give CheckInStatus.ok_cached (map to_tuf_target offered)))
      ]

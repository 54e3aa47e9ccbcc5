-- ===== src/ClientExt/Selection.antt =====
-- What `GetTargetToInstall` of src/aklite_client_ext.cc promises about the target that it selects.
use aktualizr_lite.Api.Installer.{
  AkClient, check_and_set_apps, get_current_target, is_rollback_target,
}
use aktualizr_lite.Api.Lite.{Lite}
use aktualizr_lite.Api.Select.{select_target}
use aktualizr_lite.ClientExt.TargetToInstall.{
  SelectArgs, choose, choose_rollback, finish, get_target_to_install, select_sync, select_update,
}
use aktualizr_lite.Target.{TufTarget, is_unknown, to_tuf_or_unknown}
use aktualizr_lite.Prelude.{
  Bool, ap, arith, false, inl, int_eq, int_ltb, is_nil, nat_eq, no_version, not, string_eq, true, ℤ,
  ◌==◌, ◌||◌, ◌≡◌, ◌≢◌, ◌⊎◌,
}
use aktualizr_lite.Results.{CheckInResult, SelectResult, SelectStatus, check_in_good}

abbrev pub IsUpdate : SelectStatus → Type 0
IsUpdate s = (s ≡ SelectStatus.update_new_version) ⊎ (s ≡ SelectStatus.update_rollback)

-- The arguments by which the newest target is looked for, as the daemon and `check` do.
abbrev pub latest : Bool → Bool → Bool → Bool → SelectArgs
latest allow_bad force_sync offline auto = record {
  version = no_version;
  target_name = "";
  allow_bad_target = allow_bad;
  force_apps_sync = force_sync;
  is_offline_mode = offline;
  auto_downgrade = auto;
}

-- What an update selects, given whether it is a rollback.
abbrev Chosen :
    (L : Lite)
    → SelectArgs
    → Bool
    → TufTarget
    → TufTarget
    → AkClient L.State
    → SelectResult
    → Type 0
Chosen L args rollback current candidate c res =
    (res.selected_target ≡ candidate)
    × ((candidate.name == current.name) ≡ false)
    × ((args.allow_bad_target ≡ true) ⊎ (is_rollback_target L c candidate ≡ false))
    × ((rollback ≡ false) × (res.status ≡ SelectStatus.update_new_version)
        ⊎ (rollback ≡ true)
          × (res.status ≡ SelectStatus.update_rollback)
          × (is_rollback_target L c candidate ≡ false))

module _ (L : Lite) where
  choose-Chosen :
      (args : SelectArgs) (ci : CheckInResult) (rollback : Bool) (current candidate : TufTarget)
      (c : AkClient L.State)
      → IsUpdate (choose L args ci rollback current candidate c).0.status
      → Chosen L args rollback current candidate c (choose L args ci rollback current candidate c).0
  unfolding choose select_update select_sync finish
  choose-Chosen args ci rollback current candidate c u = ground arith

  choose_rollback-Chosen :
      (args : SelectArgs) (ci : CheckInResult) (current : TufTarget) (c : AkClient L.State)
      → IsUpdate (choose_rollback L args ci current c).0.status
      → Chosen L args true current
          (to_tuf_or_unknown (L.get_rollback_target true c.lite))
          c
          (choose_rollback L args ci current c).0
  unfolding choose_rollback finish
  choose_rollback-Chosen args ci current c u = ground (
    arith,
    choose-Chosen args ci true current (to_tuf_or_unknown (L.get_rollback_target true c.lite)) c,
  )

  -- A target that is selected for an update or a rollback does not have the name of the current
  -- one, and is no failing target unless the caller allows one. A rollback is never to a failing
  -- target; it is made only if the current target is a failing one and has the name of the target
  -- that the arguments select from the check-in, and it is to the rollback target of the client.
  pub get_target_to_install_not_bad :
      (ci : CheckInResult) (args : SelectArgs) (c : AkClient L.State)
      → IsUpdate (get_target_to_install L ci args c).0.status
      → let res = (get_target_to_install L ci args c).0 in
        let current = get_current_target L c in
        ((res.selected_target.name == current.name) ≡ false)
        × ((args.allow_bad_target ≡ true) ⊎ (is_rollback_target L c res.selected_target ≡ false))
        × ((res.status ≡ SelectStatus.update_new_version)
            ⊎ (is_rollback_target L c res.selected_target ≡ false)
              × (is_rollback_target L c current ≡ true)
              × ((current.name == (select_target ci args.version args.target_name "").name) ≡ true)
              × (res.selected_target ≡ to_tuf_or_unknown (L.get_rollback_target true c.lite)))
  unfolding get_target_to_install finish
  get_target_to_install_not_bad ci args c u = ground (
    arith,
    choose_rollback-Chosen args ci (get_current_target L c) c,
    choose-Chosen args ci false (get_current_target L c)
        (select_target ci args.version args.target_name "") c,
  )

  choose_rollback-ne-new :
      (args : SelectArgs) (ci : CheckInResult) (current : TufTarget) (c : AkClient L.State)
      → (choose_rollback L args ci current c).0.status ≢ SelectStatus.update_new_version
  choose_rollback-ne-new args ci current c u =
      let chosen = choose_rollback-Chosen args ci current c (inl u) in ground arith

  choose_new :
      (args : SelectArgs) (ci : CheckInResult) (current candidate : TufTarget)
      (c : AkClient L.State)
      → (choose L args ci false current candidate c).0.status ≡ SelectStatus.update_new_version
      → (choose L args ci false current candidate c).0.selected_target ≡ candidate
  choose_new args ci current candidate c u =
      (choose-Chosen args ci false current candidate c (inl u)).0

  -- Unless downgrades are automatic, the target selected by default for an update is not older than
  -- the current one.
  pub get_target_to_install_no_downgrade :
      (ci : CheckInResult) (allow_bad force_sync offline : Bool) (c : AkClient L.State)
      → (get_target_to_install L ci (latest allow_bad force_sync offline false) c).0.status
        ≡ SelectStatus.update_new_version
      → let res = (get_target_to_install L ci (latest allow_bad force_sync offline false) c).0 in
        int_ltb res.selected_target.version (get_current_target L c).version ≡ false
  unfolding get_target_to_install finish
  get_target_to_install_no_downgrade ci allow_bad force_sync offline c u =
      let args = latest allow_bad force_sync offline false in
      let current = get_current_target L c in
      ground (
        arith,
        choose_rollback-ne-new args ci current c,
        choose_new args ci current (select_target ci no_version "" "") c,
      )

  -- A device on a target without a version, such as the initial target, whose apps are out of sync
  -- (or which forces a sync): if the newest target is a failing one, the sync of the current apps
  -- selects that failing target, although the caller allows no bad target.
  pub get_target_to_install_selects_bad :
      (ci : CheckInResult) (force_sync offline auto : Bool) (c : AkClient L.State)
      → check_in_good ci.status ≡ true
      → is_unknown (select_target ci no_version "" "") ≡ false
      → int_ltb (select_target ci no_version "" "").version no_version ≡ false
      → is_rollback_target L c (select_target ci no_version "" "") ≡ true
      → is_rollback_target L c (get_current_target L c) ≡ false
      → (get_current_target L c).version ≡ no_version
      → (force_sync
          || not (
              is_nil
                (check_and_set_apps L (get_current_target L c) "Syncing Active Target Apps" c).0))
        ≡ true
      → let res = (get_target_to_install L ci (latest false force_sync offline auto) c).0 in
        (res.status ≡ SelectStatus.update_sync_apps)
        × (res.selected_target ≡ select_target ci no_version "" "")
  unfolding get_target_to_install finish choose select_sync
  get_target_to_install_selects_bad ci force_sync offline auto c good known order bad fine cv sync =
      ground (
        arith,
        ap (λ (v : ℤ). select_target ci v "" "") cv,
        ap (λ (v : ℤ). int_ltb (select_target ci no_version "" "").version v) cv,
      )

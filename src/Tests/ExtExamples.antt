-- ===== src/Tests/ExtExamples.antt =====
-- The theorems on `AkliteClientExt`, applied to a device that is simulated.

use aktualizr_lite.Api.SelectLaws.{checked_in}
use aktualizr_lite.Api.Select.{select_target}
use aktualizr_lite.Results.{CheckInResult, CheckInStatus, InstallMode, SelectStatus, check_in_good}
use aktualizr_lite.Target.{
  TufTarget, from_tuf_target, hardware_id, initial_target, is_unknown, to_tuf_or_unknown,
  to_tuf_target,
}
use aktualizr_lite.Prelude.{
  List, [], false, inl, int_eq, int_ltb, nat_eq, no_version, none, pos, refl, stoi, string_eq, true,
  ◌==◌, ◌∷◌, ◌≡◌, ◌⊎◌,
}
use aktualizr_lite.ClientExt.Selection.{
  get_target_to_install_no_downgrade, get_target_to_install_not_bad,
  get_target_to_install_selects_bad, latest,
}
use aktualizr_lite.Tests.Devices.{Device, booted, client, lite, small_volume, target_of}
use aktualizr_lite.Api.Installer.{
  AkClient, check_and_set_apps, get_current_target, is_rollback_target,
}
use aktualizr_lite.ClientExt.TargetToInstall.{
  choose, choose_rollback, finish, get_target_to_install, select_update,
}
use aktualizr_lite.ClientExt.PullAndInstall.{PullArgs}

abbrev found : List TufTarget → CheckInResult
found ts = checked_in CheckInStatus.ok "board" ts

abbrev newer : TufTarget
newer = target_of "7" (pos 7)

abbrev older : TufTarget
older = target_of "5" (pos 5)

abbrev at_older : AkClient Device
at_older = client (booted older [])

updates :
    (get_target_to_install lite
      (found (newer ∷ []))
      (latest false false false false)
      at_older).0.status
    ≡ SelectStatus.update_new_version
unfolding get_target_to_install choose choose_rollback select_update finish select_target
    check_in_good is_unknown hardware_id get_current_target to_tuf_target from_tuf_target stoi
    is_rollback_target
updates = refl

get_target_to_install_not_bad_example :
    let res =
      (get_target_to_install lite
        (found (newer ∷ []))
        (latest false false false false)
        at_older).0 in
    let current = get_current_target lite at_older in
    ((res.selected_target.name == current.name) ≡ false)
    × ((false ≡ true) ⊎ (is_rollback_target lite at_older res.selected_target ≡ false))
    × ((res.status ≡ SelectStatus.update_new_version)
        ⊎ (is_rollback_target lite at_older res.selected_target ≡ false)
          × (is_rollback_target lite at_older current ≡ true)
          × ((current.name == (select_target (found (newer ∷ [])) no_version "" "").name) ≡ true)
          × (res.selected_target ≡ to_tuf_or_unknown (lite.get_rollback_target true at_older.lite)))
get_target_to_install_not_bad_example =
    get_target_to_install_not_bad lite (found (newer ∷ [])) (latest false false false false)
      at_older (inl updates)

get_target_to_install_no_downgrade_example :
    int_ltb
      (get_target_to_install lite
        (found (newer ∷ []))
        (latest false false false false)
        at_older).0.selected_target.version
      (get_current_target lite at_older).version
    ≡ false
get_target_to_install_no_downgrade_example =
    get_target_to_install_no_downgrade lite (found (newer ∷ [])) false false false at_older updates

-- The initial target, with version 7 known to fail.
abbrev initial : AkClient Device
initial = client (booted (target_of initial_target no_version) ("7" ∷ []))

get_target_to_install_selects_bad_example :
    let res =
      (get_target_to_install lite
        (found (newer ∷ []))
        (latest false false false false)
        initial).0 in
    (res.status ≡ SelectStatus.update_sync_apps)
    × (res.selected_target ≡ select_target (found (newer ∷ [])) no_version "" "")
unfolding check_and_set_apps check_in_good is_unknown select_target hardware_id is_rollback_target
    from_tuf_target get_current_target to_tuf_target
get_target_to_install_selects_bad_example =
    get_target_to_install_selects_bad lite (found (newer ∷ [])) false false false initial refl refl
      refl refl refl refl refl

abbrev args : PullArgs
args = record {
  reason = "";
  correlation_id = "";
  install_mode = InstallMode.all;
  source = none;
  do_download = true;
  do_install = true;
  require_target_in_tuf = true;
}

-- An earlier download of version 7 wanted 9 units.
abbrev full : AkClient Device
full = record at_older {
  download_failed = record {
    ostree_commit_hash = "hash-7";
    cor_id = "id";
    stat = record small_volume { required = 9 };
  };
}

-- ===== src/Tests/BundleExamples.antt =====
-- The theorems on offline bundles, applied to a bundle with one target and one signature.

use aktualizr_lite.Api.Select.{filter_targets}
use aktualizr_lite.Apps.Choice.{get_required_apps}
use aktualizr_lite.Api.BundleLaws.{check_bundle_counts_twice}
use aktualizr_lite.Api.LocalLaws.{IsVouched, check_in_local-IsVouched}
use aktualizr_lite.Results.{CheckInStatus, LocalUpdateSource}
use aktualizr_lite.Target.{TufTarget, from_tuf_target, hardware_id, has_one_of_tags, to_tuf_target}
use aktualizr_lite.Prelude.{
  Bool, Memᴰ, String, [], false, int_eq, nat_eq, none, pos, refl, some, stoi, string_eq, true, ℕ, ℤ,
  ◌+◌, ◌==◌, ◌∷◌, ◌≡◌,
}
use aktualizr_lite.Tests.Devices.{target_of}
use aktualizr_lite.Tests.Sorting.{sort, sort-Sorts}
use aktualizr_lite.Api.Bundle.{
  Bundle, ClientType, Root, Signature, check_bundle, check_kind, is_target_key, trusted_targets,
  passed,
}
use aktualizr_lite.Api.Available.{Content, available_targets}
use aktualizr_lite.Api.CheckIn.{CheckInEnv, check_in_local, updated}
use aktualizr_lite.Apps.Engine.{Config}

abbrev root : Root
root = record { target_key_ids = "key" ∷ []; key_ids = "key" ∷ "other" ∷ []; threshold = pos 1 }

abbrev bundle : Bundle
bundle = record {
  has_body = true;
  signatures = record { is_well_formed = true; key_id = "key"; sig = "good" } ∷ [];
  is_expired = false;
  type_name = "ci";
  tag = "main";
  targets = "7" ∷ [];
}

abbrev verify : String → String → Bool
verify key sig = sig == "good"

abbrev config : Config
config = record {
  apps = none;
  reset_apps = none;
  force_update = false;
  docker_prune = true;
  create_containers_before_reboot = true;
  stop_apps_before_update = true;
}

abbrev content : Content
content = record {
  has_commit = λ hash. hash == "hash-7";
  found_apps = [];
  has_apps = true;
  config = config;
  split = λ text. text ∷ [];
}

abbrev source : LocalUpdateSource
source = record { tuf_repo = "tuf"; ostree_repo = "ostree"; app_store = "apps" }

abbrev tagged : String → ℤ → TufTarget
tagged name version = record (target_of name version) {
  custom = record ((target_of name version).custom) { tags = some ("main" ∷ []) };
}

-- The state counts the reports.
abbrev environment : CheckInEnv ℕ
environment = record {
  hw_id = "board";
  tags = "main" ∷ [];
  secondary_hwids = [];
  client_type = ClientType.dev;
  invoke_post_cb_at_checkin = true;
  notify_started = λ n. n;
  report = λ n. n;
  notify_finished = λ b n. n + 1;
  update_meta = λ src n. (updated, n);
  is_meta_valid = λ n. true;
  tuf_targets = λ n. tagged "7" (pos 7) ∷ tagged "9" (pos 9) ∷ [];
  bundle = λ src n. some bundle;
  root = λ src n. passed root;
  verify = verify;
  content = λ src n. content;
  sort = sort;
  has_text = λ a b. false;
}

abbrev given : TufTarget
given = record (tagged "7" (pos 7)) {
  custom = record ((tagged "7" (pos 7)).custom) { local_src_dir = true };
}

gives :
    check_in_local environment source 0
    ≡ some (record { status = CheckInStatus.ok; primary_hwid = "board"; targets = given ∷ [] }, 1)
unfolding check_in_local check_kind check_bundle trusted_targets filter_targets sort has_one_of_tags
    hardware_id available_targets from_tuf_target get_required_apps to_tuf_target stoi
gives = refl

check_in_local-IsVouched_example : IsVouched environment sort-Sorts source 0 given
check_in_local-IsVouched_example =
    check_in_local-IsVouched environment sort-Sorts source 0 1
      (record { status = CheckInStatus.ok; primary_hwid = "board"; targets = given ∷ [] }) given
      gives (Memᴰ.head refl)

abbrev signature : Signature
signature = record { is_well_formed = true; key_id = "key"; sig = "good" }

check_bundle_counts_twice_example :
    check_bundle verify
      (passed (record root { threshold = pos 2 }))
      (record bundle { signatures = signature ∷ signature ∷ [] })
    ≡ passed (record bundle { signatures = signature ∷ signature ∷ [] })
unfolding is_target_key
check_bundle_counts_twice_example =
    check_bundle_counts_twice verify (record root { threshold = pos 2 }) signature
      (record bundle { signatures = signature ∷ signature ∷ [] }) (refl, refl, refl) refl refl refl
      refl

-- ===== src/Tests/DaemonExamples.antt =====
-- The theorems on the daemon and on the program, applied to simulated devices.
use aktualizr_lite.Cli.Codes.{i2s, res2status_code}
use aktualizr_lite.Api.Context.{
  download_by, download_target, install_by, install_status, install_target, is_pending_target,
  with_install_context,
}
use aktualizr_lite.Api.Select.{filter_targets, find_last, is_admissible, select_target}
use aktualizr_lite.ClientExt.PullAndInstall.{
  carry_out, download_phase, dr2ir, install_phase, pull_and_install, reboot_if_required, roll_back,
  still_no_space,
}
use aktualizr_lite.ClientExt.TargetToInstall.{
  choose, choose_rollback, finish, get_target_to_install, select_sync, select_update,
}
use aktualizr_lite.Results.{check_in_good, download_good, install_good, no_space}
use aktualizr_lite.Results.Usage.{with_required}
use aktualizr_lite.Daemon.LoopLaws.{Installs, Skips, run_cycle-Installs}
use aktualizr_lite.Main.{Options, Program, get_target_id, main, update_source}
use aktualizr_lite.Target.{
  UptaneTarget, from_tuf_target, hardware_id, has_one_of_tags, is_initial, is_unknown, target_beq,
  to_tuf_or_unknown, to_tuf_target,
}
use aktualizr_lite.Api.Installer.{
  AkClient, check_and_set_apps, get_current_target, installer, is_in_progress, is_rollback_target,
  is_trusted, reason_with, target_matches,
}
use aktualizr_lite.Daemon.Loop.{
  DaemonConfig, check_in_cycle, install_cycle, run_cycle, select_cycle,
}
use aktualizr_lite.Prelude.{
  Option, String, [], arith, false, if◌then◌else◌, none, pos, refl, some, stoi, to_string, true, ℕ,
  ◌<>◌, ◌∷◌, ◌≡◌, ◌≤◌, ◌⊎◌,
}
use aktualizr_lite.Api.CheckIn.{
  CheckInEnv, allows_fallback, check_in, check_in_failure, update_status, updated,
}
use aktualizr_lite.Api.Bundle.{BundleError, ClientType, refused}
use aktualizr_lite.Tests.Devices.{Board, Device, board_client, booted, client, lite, target_of}

abbrev environment : CheckInEnv Device
environment = record {
  hw_id = "board";
  tags = [];
  secondary_hwids = [];
  client_type = ClientType.dev;
  invoke_post_cb_at_checkin = false;
  notify_started = λ s. s;
  report = λ s. s;
  notify_finished = λ b s. s;
  update_meta = λ src s. (updated, s);
  is_meta_valid = λ s. true;
  tuf_targets = λ s. target_of "7" (pos 7) ∷ [];
  bundle = λ src s. none;
  root = λ src s. refused BundleError.root_meta_not_found;
  verify = λ k v. false;
  content = λ src s. record {
    has_commit = λ h. false;
    found_apps = [];
    has_apps = false;
    config = record {
      apps = none;
      reset_apps = none;
      force_update = false;
      docker_prune = false;
      create_containers_before_reboot = false;
      stop_apps_before_update = false;
    };
    split = λ text. [];
  };
  sort = λ ts. ts;
  has_text = λ a b. false;
}

abbrev config : DaemonConfig
config = record {
  repo_server = "https://repo";
  is_reboot_executable = true;
  return_on_sleep = true;
  auto_downgrade = true;
}

abbrev board : Board
board = record { version = 5; is_pending = false; finalizes = true }

abbrev device : AkClient Device
device = client (booted (target_of "5" (pos 5)) [])

abbrev name_of : Option UptaneTarget → String
name_of none = ""
name_of (some t) = t.filename

-- Version 7 is installed and waits for a reboot.
installs : name_of (run_cycle lite environment config device).1.lite.pending ≡ "7"
unfolding run_cycle check_in_cycle select_cycle install_cycle check_in_good filter_targets
    hardware_id is_unknown select_target is_rollback_target
    aktualizr_lite.ClientExt.TargetToInstall.choose aktualizr_lite.ClientExt.TargetToInstall.finish
    get_current_target to_tuf_target from_tuf_target select_update is_in_progress check_and_set_apps
    still_no_space carry_out aktualizr_lite.Api.Installer.installer allows_fallback
    aktualizr_lite.Api.CheckIn.check_in aktualizr_lite.Api.CheckIn.update_meta update_status
    check_in_failure download_by download_target install_by install_status install_target
    is_pending_target with_install_context is_trusted reason_with target_matches find_last
    is_admissible download_phase aktualizr_lite.ClientExt.PullAndInstall.dr2ir install_phase
    pull_and_install reboot_if_required roll_back choose_rollback get_target_to_install select_sync
    to_string aktualizr_lite.Prelude.stoi with_required download_good install_good no_space
    has_one_of_tags is_initial target_beq to_tuf_or_unknown
installs = refl

run_cycle-Installs_example :
    Skips lite environment config device ⊎ Installs lite environment config device
run_cycle-Installs_example = run_cycle-Installs lite environment config device

abbrev program : Program board_client
program = record {
  make_client = λ c. if c.read_only_storage then none else some board;
  disable_hw_info = λ s. s;
  join_path = λ a b. a <> "/" <> b;
  auto_downgrade = true;
  polling_sec = 10;
  run_daemon = λ n s. (some 0, s);
  show_status = λ j s. s;
}

abbrev options : Options
options = record {
  update_name = some "7";
  install_mode = none;
  report_hw_info = none;
  src_dir = none;
  json = none;
  interval = none;
}

updates : (main board_client program "update" options).0 ≡ 0
unfolding main get_target_id update_source check_in_good is_unknown
    aktualizr_lite.Cli.Codes.res2status_code aktualizr_lite.Cli.Codes.i2s
updates = refl

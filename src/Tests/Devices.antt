-- ===== src/Tests/Devices.antt =====
-- A simulated device: a state and operations for the parameters of the models.
use aktualizr_lite.Results.{
  CheckInStatus, DownloadResult, DownloadStatus, InstallStatus, ResultCode, SelectStatus,
}
use aktualizr_lite.Target.{Custom, TufTarget, UptaneTarget, from_tuf_target, no_custom}
use aktualizr_lite.Prelude.{
  Bool, List, Option, String, [], contains, false, if◌then◌else◌, int_eq, nat_eq, none, pos, some,
  string_eq, true, ℕ, ℤ, ◌+◌, ◌<>◌, ◌∷◌,
}
use aktualizr_lite.Api.Lite.{Lite}
use aktualizr_lite.Cli.Client.{Client}
use aktualizr_lite.Api.Installer.{AkClient, no_failure}
use aktualizr_lite.Results.Usage.{UsageInfo, failed_usage}

-- What is running, what was installed without a reboot, and the names of the failing targets.
pub record Device : Type 0 where
  pub current : UptaneTarget
  pub pending : Option UptaneTarget
  pub bad : List String
  pub reports : ℕ

abbrev pub ostree_custom : String → Custom
ostree_custom version = record no_custom {
  target_format = "OSTREE";
  custom_version = version;
  hardware_ids = some ("board" ∷ []);
}

-- The target of a version, named by it.
abbrev pub target_of : String → ℤ → TufTarget
target_of name version = record {
  name = name;
  sha256 = "hash-" <> name;
  version = version;
  custom = ostree_custom name;
}

abbrev pub booted : TufTarget → List String → Device
booted t bad = record { current = from_tuf_target t; pending = none; bad = bad; reports = 0 }

abbrev good_download : DownloadResult
good_download = record {
  status = DownloadStatus.ok;
  description = "";
  destination_path = "";
  stat = failed_usage "";
}

-- A volume of which 5 units are available.
abbrev pub small_volume : UsageInfo
small_volume = record (failed_usage "") { path = "/sysroot"; available = 5 }

abbrev pub device_lite : List TufTarget → Bool → Lite
device_lite targets installs = record {
  State = Device;
  get_current = λ s. s.current;
  get_pending_target = λ s. s.pending;
  get_rollback_target = λ p s. none;
  is_rollback = λ t s. contains s.bad t.filename;
  was_target_installed = λ t s. false;
  is_boot_fw_update_in_progress = λ s. false;
  is_reboot_required = λ s. (false, "");
  verify_target = λ t s. true;
  required_apps = λ t. [];
  set_apps_not_checked = λ s. s;
  apps_to_update = λ t b s. (("app", "not running") ∷ [], s);
  download = λ t r s. (good_download, s);
  install = λ t m s.
      if installs
      then (
        record { code = ResultCode.need_completion; description = "" },
        record s { pending = some t },
      )
      else (record { code = ResultCode.install_failed; description = "no" }, s);
  finalize_install =
      λ s. (record { code = ResultCode.ok; description = "" }, record s { pending = none });
  need_completion = λ c. false;
  notify_tuf_update_finished = λ e t s. s;
  notify_download_started = λ t r s. s;
  notify_download_finished = λ t b r s. record s { reports = s.reports + 1 };
  notify_install_finished = λ t r s. s;
  save_installed_version = λ t m s. s;
  check_meta = λ s. none;
  tuf_targets = λ s. targets;
  usage_info = λ p n b s. small_volume;
  usage_text = λ u. "usage";
  offline_download = λ src t s. (good_download, s);
  offline_allowed = true;
  can_setuid = true;
  fresh_uuid = λ s. ("uuid", s);
}

abbrev pub lite : Lite
lite = device_lite (target_of "7" (pos 7) ∷ []) true

abbrev pub client : Device → AkClient Device
client s = record {
  lite = s;
  read_only = false;
  invoke_post_cb_at_checkin = true;
  is_booted_env = true;
  cleanup_removed_apps = false;
  download_failed = no_failure;
}

-- What the commands see of a client: the version installed, and whether its installation is pending.
pub record Board : Type 0 where
  pub version : ℕ
  pub is_pending : Bool
  pub finalizes : Bool

abbrev nth : ℕ → TufTarget
nth n = target_of "t" (pos n)

-- A check-in that finds version 7, which is then installed.
abbrev pub board_client : Client
board_client = record {
  State = Board;
  Context = Unit;
  is_installation_in_progress = λ s. s.is_pending;
  get_pending_target = λ s. nth s.version;
  get_current = λ s. nth s.version;
  get_rollback_target = λ s. nth 3;
  installer = λ t s. (some tt, s);
  check_in =
      λ s. (record { status = CheckInStatus.ok; primary_hwid = "board"; targets = nth 7 ∷ [] }, s);
  check_in_local =
      λ src s. (record { status = CheckInStatus.failed; primary_hwid = ""; targets = [] }, s);
  check_in_current =
      λ src s. (record { status = CheckInStatus.failed; primary_hwid = ""; targets = [] }, s);
  get_target_to_install = λ ci v n a b c d s. (
    record { status = SelectStatus.update_new_version; selected_target = nth 7; reason = "" },
    s,
  );
  pull_and_install = λ t r id m src d i q s.
      (record { status = InstallStatus.ok; description = "" }, record s { version = 7 });
  complete_installation = λ s. (
    record {
      status = if s.finalizes then InstallStatus.ok else InstallStatus.failed;
      description = "";
    },
    record s { is_pending = false },
  );
  check_apps_in_sync = λ s. (none, s);
  install = λ k s. (record { status = InstallStatus.ok; description = "" }, s);
  rollback = λ src s. (record { status = InstallStatus.install_rollback_ok; description = "" }, s);
}

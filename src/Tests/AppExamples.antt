-- ===== src/Tests/AppExamples.antt =====
-- The theorems on the apps of a target, applied to an engine that keeps lists of names.
use aktualizr_lite.Apps.ChoiceLaws.{
  check_for_apps_to_update-fetched, InSync, check_for_apps_to_update-InSync,
}
use aktualizr_lite.Apps.CleanUp.{Keeps, install_target_apps_gates}
use aktualizr_lite.Apps.Finalize.{AllStart, finalize_target_apps-AllStart}
use aktualizr_lite.Apps.Install.{finalize_target_apps, install_commit, install_target_apps}
use aktualizr_lite.Apps.InstallLaws.{attempts, install_target_apps-last_code, last_code}
use aktualizr_lite.Apps.ManagerLaws.{
  Valid, verify_target_apps_iff, FetchRun, download_apps-FetchRun,
}
use aktualizr_lite.Results.{DownloadResult, DownloadStatus, InstallationResult, ResultCode}
use aktualizr_lite.Results.Usage.{failed_usage}
use aktualizr_lite.Target.{AppEntry, UptaneTarget, from_tuf_target, no_custom}
use aktualizr_lite.Prelude.{
  ◌↔◌, ◌⊎◌, ◌≢◌, All, List, String, [], arith, contains, false, if◌then◌else◌, int_eq, nat_eq, none,
  pos, refl, some, string_eq, true, ℕ, ◌+◌, ◌<>◌, ◌==◌, ◌∷◌, ◌≡◌,
}
use aktualizr_lite.Tests.Devices.{booted, target_of}
use aktualizr_lite.Apps.Engine.{
  has_key, AppResult, Config, Engine, ResultId, TargetStatus, is_done, is_pull_failure,
}
use aktualizr_lite.Apps.Choice.{
  Sets, check_for_apps_to_update, get_apps, get_required_apps, with_fetch,
}
use aktualizr_lite.Apps.Manager.{
  verify_target_apps, Manager, all_to_fetch, clean_up, download_apps, install_apps,
  is_need_completion, is_ok_code, no_sets, stop_all, stop_disabled,
}

-- The apps that run and that are fetched, and the number of clean-ups.
record Host : Type 0 where
  running : List String
  fetched : List String
  clean_ups : ℕ

abbrev app_entry : String → AppEntry
app_entry name = record { name = name; uri = some (name <> "@1") }

abbrev target : UptaneTarget
target = record (from_tuf_target (target_of "7" (pos 7))) {
  custom = record no_custom { apps = app_entry "web" ∷ app_entry "db" ∷ [] };
}

abbrev done : AppResult
done = record { status = ResultId.ok; err = ""; stat = failed_usage "undefined" }

abbrev broken : AppResult
broken = record { status = ResultId.failed; err = "exited"; stat = failed_usage "undefined" }

abbrev downloaded : DownloadResult
downloaded = record {
  status = DownloadStatus.ok;
  description = "";
  destination_path = "";
  stat = failed_usage "";
}

-- The app "bad" does not start.
abbrev engine : Engine
engine = record {
  State = Host;
  fetch = λ a s. (done, record s { fetched = a.0 ∷ s.fetched });
  install = λ a s. (done, s);
  run = λ a s. (if a.0 == "bad" then broken else done, record s { running = a.0 ∷ s.running });
  stop = λ a s. s;
  remove = λ a s. record s { clean_ups = s.clean_ups + 1 };
  prune = λ l s. record s { clean_ups = s.clean_ups + 1 };
  verify = λ a s. contains s.fetched a.0;
  is_fetched = λ a s. contains s.fetched a.0;
  is_running = λ a s. contains s.running a.0;
  app_dirs = λ s. [];
  running_report = λ s. "";
  usage_report = λ s. "";
  current = λ s. target;
  ostree_download = λ t s. (downloaded, s);
  ostree_verify = λ t s. TargetStatus.good;
  ostree_install = λ t s. (record { code = ResultCode.ok; description = "" }, s);
  ostree_finalize = λ t s. (record { code = ResultCode.ok; description = "" }, s);
  is_success = λ c. elim c [ ResultCode.ok ↦ true | _ ↦ false ];
}

abbrev config : Config
config = record {
  apps = none;
  reset_apps = some ("*" ∷ []);
  force_update = false;
  docker_prune = true;
  create_containers_before_reboot = true;
  stop_apps_before_update = true;
}

abbrev host : Host
host = record { running = "web" ∷ "db" ∷ []; fetched = "web" ∷ "db" ∷ []; clean_ups = 0 }

abbrev web_and_bad : Sets
web_and_bad = record { fetch_and_update = ("bad", "bad@1") ∷ ("web", "web@1") ∷ []; fetch = [] }

abbrev manager : Host → Manager Host
manager h = record { device = h; sets = web_and_bad; are_apps_checked = false }

quiet :
    check_for_apps_to_update engine config true target.custom.apps web_and_bad host
    ≡ some ([], record { fetch_and_update = []; fetch = [] })
unfolding check_for_apps_to_update with_fetch
quiet = refl

check_for_apps_to_update-InSync_example :
    All (InSync engine config host) (get_apps config target.custom.apps)
check_for_apps_to_update-InSync_example =
    check_for_apps_to_update-InSync engine config true target.custom.apps web_and_bad
      (record { fetch_and_update = []; fetch = [] }) host refl quiet

check_for_apps_to_update-fetched_example :
    All
      (λ (a : String × String).
        (engine.is_fetched a host ≡ true)
        ⊎ (has_key a.0 (get_apps config target.custom.apps) ≡ true))
      (("db", "db@1") ∷ ("web", "web@1") ∷ [])
unfolding get_required_apps
check_for_apps_to_update-fetched_example =
    check_for_apps_to_update-fetched engine config true target.custom.apps web_and_bad
      (record { fetch_and_update = []; fetch = [] }) host refl quiet ("*" ∷ [])
      (("db", "db@1") ∷ ("web", "web@1") ∷ []) refl refl

verify_target_apps_iff_example :
    (verify_target_apps engine config target (manager host) ≡ TargetStatus.good)
    ↔ (engine.ostree_verify target host ≡ TargetStatus.good)
      × All (Valid engine host) (all_to_fetch web_and_bad)
verify_target_apps_iff_example = verify_target_apps_iff engine config target (manager host)

download_apps-FetchRun_example :
    let (ostree, s1) = engine.ostree_download (target_of "7" (pos 7)) host in
    let r = download_apps engine config (target_of "7" (pos 7)) (manager host) in
    (ostree.status ≢ DownloadStatus.ok) × (r ≡ (ostree, record (manager host) { device = s1 }))
    ⊎ (ostree.status ≡ DownloadStatus.ok)
      × FetchRun engine (all_to_fetch web_and_bad) s1 r.0.status r.1.device
download_apps-FetchRun_example =
    download_apps-FetchRun engine config (target_of "7" (pos 7)) (manager host)

-- What remains after the installation: both apps were tried.
abbrev tried : Host
tried = record {
  running = "web" ∷ "bad" ∷ "web" ∷ "db" ∷ [];
  fetched = "web" ∷ "db" ∷ [];
  clean_ups = 0;
}

abbrev failure : InstallationResult
failure = record {
  code = ResultCode.install_failed;
  description =
      "failed to install App; app: bad; uri: bad@1; err: exited\nweb@1\n# Apps running:\n";
}

fails :
    install_target_apps engine config target (manager host)
    ≡ some (failure, record { device = tried; sets = no_sets; are_apps_checked = false })
unfolding install_target_apps install_apps is_done is_pull_failure from_tuf_target stop_all
    stop_disabled
fails = refl

install_target_apps-last_code_example :
    let (ostree, s) = install_commit engine config target (manager host) in
    (failure.code
      ≡ last_code engine config ostree.code
          (attempts engine config (is_need_completion ostree.code) web_and_bad.fetch_and_update s))
    × (no_sets ≡ no_sets)
unfolding install_commit
install_target_apps-last_code_example =
    install_target_apps-last_code engine config target (manager host)
      (record { device = tried; sets = no_sets; are_apps_checked = false }) failure refl refl fails

engine-Keeps : Keeps engine ℕ (λ h. h.clean_ups)
engine-Keeps = record {
  stop_same = λ a s. refl;
  install_same = λ a s. refl;
  run_same = λ a s. refl;
  ostree_install_same = λ t s. refl;
  ostree_finalize_same = λ t s. refl;
}

-- Only the app "web" is updated.
abbrev web_only : Manager Host
web_only = record (manager host) {
  sets = record { fetch_and_update = ("web", "web@1") ∷ []; fetch = [] };
}

abbrev cleaned : Host
cleaned = record { running = "web" ∷ "web" ∷ "db" ∷ []; fetched = "web" ∷ "db" ∷ []; clean_ups = 2 }

abbrev success : InstallationResult
success = record {
  code = ResultCode.ok;
  description = "\n# Apps installed:\nweb@1\n# Apps running:\n";
}

succeeds :
    install_target_apps engine config target web_only
    ≡ some (success, record { device = cleaned; sets = no_sets; are_apps_checked = false })
unfolding install_target_apps install_apps is_done clean_up get_required_apps from_tuf_target
    stop_all stop_disabled
succeeds = refl

install_target_apps_gates_example : engine.is_success success.code ≡ true
install_target_apps_gates_example =
    install_target_apps_gates engine config ℕ (λ h. h.clean_ups) engine-Keeps target web_only
      (record { device = cleaned; sets = no_sets; are_apps_checked = false }) success succeeds
      (λ (e : 2 ≡ 0). omega (arith, e))

abbrev started : Host
started = record {
  running = "db" ∷ "web" ∷ "web" ∷ "db" ∷ [];
  fetched = "web" ∷ "db" ∷ [];
  clean_ups = 2;
}

abbrev finalized : InstallationResult
finalized = record { code = ResultCode.ok; description = "\n# Apps running:\n" }

finalizes : finalize_target_apps engine config target host ≡ some (finalized, started)
unfolding finalize_target_apps get_apps is_done clean_up get_required_apps stop_disabled
finalizes = refl

finalize_target_apps-AllStart_example :
    let (booted, s1) = engine.ostree_finalize target host in
    (is_ok_code booted.code ≡ true)
    × ((s2 : Host) × AllStart engine none
          (get_apps config target.custom.apps)
          (stop_disabled engine config target s1)
          s2)
finalize_target_apps-AllStart_example =
    finalize_target_apps-AllStart engine config target finalized host started finalizes refl

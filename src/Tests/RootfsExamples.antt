-- ===== src/Tests/RootfsExamples.antt =====
-- The theorems on the bootloader and on the OSTree package manager, applied to simulated ones.

use aktualizr_lite.Results.Usage.{get_usage_info}
use aktualizr_lite.Bootloader.Env.{
  Boot, is_update_in_progress, get_current_version, get_env_cmd, is_update_supported, set_env_cmd,
}
use aktualizr_lite.Bootloader.Implements.{bootloader_status}
use aktualizr_lite.Bootloader.Notify.{install_notify}
use aktualizr_lite.Bootloader.NotifyLaws.{IsDue, with_vars, Stores, install_notify-Notified}
use aktualizr_lite.Bootloader.Version.{
  TargetVersion, get_deployment_version, get_target_dir, get_target_version, get_version,
  version_file,
}
use aktualizr_lite.Bootloader.VersionLaws.{written_version_is_read}
use aktualizr_lite.Rootfs.DownloadLaws.{DownloadRun, download_commit-DownloadRun}
use aktualizr_lite.Rootfs.Install.{install_commit_tree, verify_bootloader_update}
use aktualizr_lite.Rootfs.InstallLaws.{
  Decides, Deployed, IsAdmitted, Refused, install_commit_tree-protected,
  verify_bootloader_update-Decides,
}
use aktualizr_lite.Rootfs.RollbackLaws.{install_commit_tree-Refused}
use aktualizr_lite.Tests.Devices.{target_of}
use aktualizr_lite.Tests.Boards.{Flags, boot, firmware, flags, host_with}
use aktualizr_lite.Rootfs.DeltaLaws.{Vouched, get_delta_stat-Vouched}
use aktualizr_lite.Rootfs.Deltas.{
  DeltaStatsRef, find_delta_stat, get_delta_stat, get_delta_stats_ref,
}
use aktualizr_lite.Rootfs.Download.{additional_remote, download_commit, remotes_of}
use aktualizr_lite.Rootfs.Host.{DeltaStatsDoc, Remote, is_file_url}
use aktualizr_lite.Target.{TufTarget, UptaneTarget, from_tuf_target}
use aktualizr_lite.Prelude.{
  String, arith, eq_iff, false, pos, refl, some, stoi, true, ◌≡◌, ◌≢◌, ◌⊎◌,
}

-- A target with a reference to stats of deltas.
abbrev with_stats : TufTarget
with_stats =
    let t = target_of "b" (pos 2) in
    record t {
      custom = record (t.custom) {
        delta_stats = some (record { sha256 = some "sha-stat"; size = some 4 });
      };
    }

abbrev cloud : Remote
cloud = additional_remote (host_with 100) "b" ("https://cloud", "token")

stat_is_found :
    get_delta_stat (host_with 100) with_stats cloud boot
    ≡ some (record { size = 2; uncompressed_size = 50 })
unfolding get_delta_stat
stat_is_found = refl

get_delta_stat-Vouched_example :
    (ref : DeltaStatsRef) × (doc : DeltaStatsDoc) × (is_file_url "https://cloud" ≡ false)
    × (get_delta_stats_ref with_stats.custom ≡ some ref)
    × Vouched (host_with 100) ref doc
    × (find_delta_stat doc "hash-a" "hash-b" ≡ some (record { size = 2; uncompressed_size = 50 }))
get_delta_stat-Vouched_example =
    get_delta_stat-Vouched (host_with 100) with_stats cloud boot
      (record { size = 2; uncompressed_size = 50 }) stat_is_found

download_commit-DownloadRun_example :
    DownloadRun
      (host_with 100)
      with_stats
      (remotes_of (host_with 100) with_stats boot)
      boot
      (download_commit (host_with 100) with_stats boot)
download_commit-DownloadRun_example = download_commit-DownloadRun (host_with 100) with_stats boot

-- Both remotes are pulled from where there is room, and none where there is not.
download_pulls : (download_commit (host_with 100) with_stats boot).1.world.pulls ≡ 2
unfolding download_commit remotes_of get_usage_info
download_pulls = refl

small_download_pulls : (download_commit (host_with 40) with_stats boot).1.world.pulls ≡ 0
unfolding download_commit remotes_of get_usage_info
small_download_pulls = refl

abbrev target_b : UptaneTarget
target_b = from_tuf_target with_stats

hashes_differ : ◌≢◌ {A = String} "hash-a" "hash-b"
hashes_differ e = let b = (eq_iff "hash-a" "hash-b").1 e in ground (arith, b)

verify_bootloader_update-Decides_example :
    Decides
      (host_with 9)
      (verify_bootloader_update (host_with 9) target_b boot)
      (IsAdmitted (host_with 9) target_b boot)
verify_bootloader_update-Decides_example =
    verify_bootloader_update-Decides (host_with 9) target_b boot

install_commit_tree-protected_example :
    Deployed (host_with 9) target_b boot (install_commit_tree (host_with 9) target_b boot)
    ⊎ Refused (host_with 9) target_b boot (install_commit_tree (host_with 9) target_b boot)
unfolding from_tuf_target bootloader_status is_update_supported get_env_cmd
install_commit_tree-protected_example =
    install_commit_tree-protected (host_with 9) target_b boot refl hashes_differ

install_commit_tree-Refused_example :
    Refused (host_with 9) target_b boot (install_commit_tree (host_with 9) target_b boot)
unfolding from_tuf_target bootloader_status is_update_supported get_env_cmd stoi
install_commit_tree-Refused_example =
    install_commit_tree-Refused firmware (host_with 9) target_b boot "4" "5" 4 5 refl refl
      hashes_differ refl refl refl refl refl refl refl (ground arith)

written_version_is_read_example :
    (get_target_version firmware "hash-b" flags ≡ TargetVersion.found "4")
    × (get_version firmware "hash-b" version_file flags ≡ "4")
unfolding get_target_dir
written_version_is_read_example =
    written_version_is_read firmware "4" "hash-b" "/deploy/hash-b.0" flags refl refl refl refl refl

flags-Stores : Stores firmware ""
unfolding get_env_cmd set_env_cmd
flags-Stores = record { reads = λ s. refl; trims = refl }

abbrev notified : Boot Flags
notified = record boot { world = record flags { upgrade = true } }

install_notify-Notified_example :
    let dep = get_deployment_version firmware "hash-b" flags in
    let cur = get_current_version firmware (with_vars "" boot) in
    (IsDue firmware dep cur → is_update_in_progress firmware notified ≡ true)
    × (¬ IsDue firmware dep cur → notified.world ≡ flags)
unfolding install_notify is_update_supported get_env_cmd get_deployment_version get_current_version
install_notify-Notified_example =
    install_notify-Notified firmware (record target_b { sha256 = "hash-b" }) boot notified refl
      flags-Stores refl

-- ===== src/Tests/Boards.antt =====
-- A simulated bootloader and a simulated OSTree package manager on it.
use aktualizr_lite.Tests.Devices.{target_of}
use aktualizr_lite.Bootloader.Env.{Boot, FileRead, Firmware, RollbackMode}
use aktualizr_lite.Bootloader.Implements.{bootloader_status}
use aktualizr_lite.Results.{InstallationResult, ResultCode}
use aktualizr_lite.Results.Usage.{StatResult}
use aktualizr_lite.Rootfs.Host.{Host}
use aktualizr_lite.Target.{from_tuf_target}
use aktualizr_lite.Prelude.{
  Bool, Option, String, [], false, if◌then◌else◌, int_eq, is_empty, nat_eq, none, pos, some, stoi,
  string_eq, suc, true, ℕ, ℤ, ◌&&◌, ◌<>◌, ◌==◌, ◌||◌, ◌∷◌,
}
use Prim.Native.Char.{code}

abbrev is_blank : ℕ → Bool
is_blank c = c == 32 || c == 9 || c == 10 || c == 13

-- A text without the blanks at its end.
abbrev trimmed_end : String → String
trimmed_end String.[] = ""
trimmed_end (String.◌∷◌ c s) =
    let rest = trimmed_end s in if is_blank (code c) && is_empty rest then "" else String.◌∷◌ c rest

abbrev pub trimmed : String → String
trimmed String.[] = ""
trimmed (String.◌∷◌ c s) =
    let rest = trimmed s in if is_blank (code c) then rest else trimmed_end (String.◌∷◌ c s)

-- The version of the firmware, and whether its update is asked for.
pub record Flags : Type 0 where
  pub upgrade : Bool
  pub pulls : ℕ

abbrev pub shell_of : String → Flags → (ℤ × String) × Flags
shell_of cmd s =
    if cmd == " fw_setenv bootupgrade_available 1"
    then ((pos 0, ""), record s { upgrade = true })
    else if cmd == " fw_printenv -n bootupgrade_available"
    then ((pos 0, if s.upgrade then "1" else "0"), s)
    else if cmd == " fw_printenv -n rollback_protection"
    then ((pos 0, "1"), s)
    else if cmd == " fw_printenv -n bootfirmware_version"
    then ((pos 0, "5"), s)
    else ((pos 1, "unknown command"), s)

-- A bootloader at version 5, with a deployment and a commit of version 4.
abbrev pub firmware : Firmware
firmware = record {
  State = Flags;
  mode = RollbackMode.uboot_masked;
  shell = shell_of;
  trim = trimmed;
  mode_name = λ m. "uboot_masked";
  deployments = λ s. some (("/deploy/hash-b.0", true) ∷ []);
  file = λ p s. some "bootfirmware_version=4\n";
  commit_file = λ h p s. FileRead.content "bootfirmware_version=4\n";
}

abbrev pub flags : Flags
flags = record { upgrade = false; pulls = 0 }

abbrev pub boot : Boot Flags
boot = record { world = flags; env_cmd_vars = "" }

abbrev number_of : Option ℤ → Option ℕ
number_of (some (pos n)) = some n
number_of _ = none

abbrev installation : ResultCode → InstallationResult
installation code = record { code = code; description = "" }

-- A volume with `room` blocks of one byte that are free.
abbrev pub host_with : ℕ → Host (Boot Flags)
host_with room = record {
  boot_fw = bootloader_status firmware;
  update_block = true;
  remote_name = "aktualizr-remote";
  ostree_server = "https://ostree";
  repo_path = "/sysroot/ostree/repo";
  reserved_percentage = 0;
  get_stat = λ b p.
      StatResult.stat_ok (record { block_size = 1; free_block_number = room; block_number = 100 });
  reserved_blocks = λ b p. 0;
  usage_text = λ u. "usage";
  logs_info = true;
  download_urls = λ b. some (("https://cloud", "token") ∷ []);
  http_get = λ hs url n b. some "stat";
  sha256_hex = λ body. "sha-" <> body;
  parse_stats = λ body.
      some (("hash-b", ("hash-a", some (record { size = some 2; u_size = some 50 })) ∷ []) ∷ []);
  add_remote = λ n u k b. b;
  pull = λ url t n hs b. (
    installation (if url == "https://cloud" then ResultCode.unknown else ResultCode.ok),
    record b { world = record (b.world) { pulls = suc b.world.pulls } },
  );
  is_success = λ c. elim c [ ResultCode.ok ↦ true | _ ↦ false ];
  current_hash = λ b. "hash-a";
  pending_hash = λ b. "";
  current = λ b. from_tuf_target (target_of "a" (pos 1));
  ostree_install = λ t b. (installation ResultCode.need_completion, b);
  update_notify = λ b. b;
  ostree_install_notify = λ t b. b;
  reload = λ b. b;
  lexical_cast = λ v. number_of (stoi v);
  cast_error = "bad lexical cast";
}

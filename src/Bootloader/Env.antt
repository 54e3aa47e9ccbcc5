-- ===== src/Bootloader/Env.antt =====
-- The environment of the bootloader: the commands that read and set its variables, and the state
-- that they work on (src/bootloader/bootloaderlite.cc).
use aktualizr_lite.Prelude.{
  Bool, List, Option, String, false, if◌then◌else◌, int_eq, is_empty, nat_eq, not, pos, string_eq,
  true, ℤ, ◌<>◌, ◌==◌,
}

-- libaktualizr's `RollbackMode`; `other` is any value that the code does not name.
pub data RollbackMode : Type 0 where
  bootloader_none uboot_generic uboot_masked fio_vb fio_efi other : RollbackMode

-- `setCmds` and `getCmds`, with `noneCmd` for the modes that they do not have.
unfoldable pub set_env_cmd : RollbackMode → String
set_env_cmd RollbackMode.uboot_masked = "fw_setenv"
set_env_cmd RollbackMode.fio_vb = "fiovb_setenv"
set_env_cmd RollbackMode.fio_efi = "fioefi_setenv"
set_env_cmd _ = ""

unfoldable pub get_env_cmd : RollbackMode → String
get_env_cmd RollbackMode.uboot_masked = "fw_printenv -n"
get_env_cmd RollbackMode.fio_vb = "fiovb_printenv"
get_env_cmd RollbackMode.fio_efi = "fioefi_printenv"
get_env_cmd _ = ""

-- What reading a file of a commit gives: its content, or the text of an exception.
pub data FileRead : Type 0 where
  content : String → FileRead
  read_error : String → FileRead

-- What the bootloader takes from the device and from other libraries.
pub record Firmware : Type 1 where
  pub State : Type 0
  pub mode : RollbackMode
  -- `Utils::shell`: the exit code and the output of a command, and the state after it.
  pub shell : String → State → (ℤ × String) × State
  -- `boost::trim_if(…, is_any_of(" \t\r\n"))`
  pub trim : String → String
  -- The name of a mode, in messages.
  pub mode_name : RollbackMode → String
  -- The entries of the deployment directory and whether they are directories; none if it cannot be
  -- read, which throws.
  pub deployments : State → Option (List (String × Bool))
  -- A file, none if it does not exist.
  pub file : String → State → Option String
  -- `OSTree::Repo::readFile` of a commit.
  pub commit_file : String → String → State → FileRead

-- The state with `env_cmd_vars_`.
pub record Boot (S : Type 0) : Type 0 where
  pub world : S
  pub env_cmd_vars : String

-- The value of a variable, or the text of an error, and whether it is a value.
abbrev pub VersionStrRes : Type 0
VersionStrRes = String × Bool

module _ (F : Firmware) where
  open F use {State}

  abbrev none_read : String × Bool
  none_read = (
    "No command to read an environment variable found for the given bootloader type: `"
        <> F.mode_name F.mode
        <> "`",
    false,
  )

  abbrev none_set : String × Bool
  none_set = (
    "No command to set an environment variable found for the given bootloader type: `"
        <> F.mode_name F.mode
        <> "`",
    false,
  )

  abbrev pub get_cmd : String → String → String
  get_cmd vars name = vars <> " " <> get_env_cmd F.mode <> " " <> name

  abbrev pub set_cmd : String → String → String → String
  set_cmd vars name val = vars <> " " <> set_env_cmd F.mode <> " " <> name <> " " <> val

  -- What `getEnvVar` makes of the command's exit code and output.
  unfoldable pub read_result : String → ℤ × String → VersionStrRes
  read_result cmd (code, output) =
      if not (code == pos 0)
      then (
        "Failed to get a bootloader environment variable; cmd: " <> cmd <> ", err: " <> output,
        false,
      )
      else (F.trim output, true)

  -- `getEnvVar`: a command that prints a variable leaves the state as it is.
  unfoldable pub get_env_var : String → Boot State → VersionStrRes
  unfolding read_result get_env_cmd
  get_env_var name b =
      if is_empty (get_env_cmd F.mode)
      then none_read
      else let cmd = get_cmd b.env_cmd_vars name in read_result cmd (F.shell cmd b.world).0

  unfoldable pub set_result : String → ℤ × String → VersionStrRes
  set_result cmd (code, output) =
      if not (code == pos 0)
      then (
        "Failed to set a bootloader environment variable; cmd: " <> cmd <> ", err: " <> output,
        false,
      )
      else ("", true)

  -- `setEnvVar`
  unfoldable pub set_env_var : String → String → Boot State → VersionStrRes × Boot State
  unfolding set_result set_env_cmd
  set_env_var name val b =
      if is_empty (set_env_cmd F.mode)
      then (none_set, b)
      else let cmd = set_cmd b.env_cmd_vars name val in
        let (res, s) = F.shell cmd b.world in (set_result cmd res, record b { world = s })

  -- `isUpdateSupported`
  unfoldable pub is_update_supported : Bool
  unfolding get_env_cmd
  is_update_supported = not (is_empty (get_env_cmd F.mode))

  -- Whether a variable is read and is 1.
  abbrev is_one : VersionStrRes → Bool
  is_one (val, is_read) = if not is_read then false else val == "1"

  -- `isUpdateInProgress`
  unfoldable pub is_update_in_progress : Boot State → Bool
  unfolding is_update_supported get_env_var
  is_update_in_progress b =
      if not is_update_supported then false else is_one (get_env_var "bootupgrade_available" b)

  -- `isRollbackProtectionEnabled`
  unfoldable pub is_rollback_protection_enabled : Boot State → Bool
  unfolding is_update_supported get_env_var
  is_rollback_protection_enabled b =
      if not is_update_supported then false else is_one (get_env_var "rollback_protection" b)

  -- `getCurrentVersion`
  unfoldable pub get_current_version : Boot State → VersionStrRes
  unfolding get_env_var
  get_current_version b = get_env_var "bootfirmware_version" b

-- ===== src/Bootloader/Version.antt =====
-- The version of the boot firmware that a deployment or a commit has
-- (src/bootloader/bootloaderlite.cc).
use aktualizr_lite.Bootloader.Env.{FileRead, Firmware, VersionStrRes}
use aktualizr_lite.Prelude.{
  Bool, List, Option, String, [], if◌then◌else◌, is_empty, len, none, not, some, ℕ, ◌+◌, ◌<>◌, ◌∷◌,
}
use Prim.Native.String.{slice}
use text.Mathlib.Text.{find?}

-- What `extractVersionValue` gives: a version, or the text of `std::invalid_argument`.
pub data Extracted : Type 0 where
  extracted : String → Extracted
  unparsable : String → Extracted

-- What `getTargetVersion` gives: a version, or the text of `std::invalid_argument` or of another
-- exception.
pub data TargetVersion : Type 0 where
  found : String → TargetVersion
  malformed : String → TargetVersion
  unreadable : String → TargetVersion

abbrev pub watermark : String
watermark = "bootfirmware_version"

abbrev pub version_file : String
version_file = "/usr/lib/firmware/version.txt"

-- `std::string::erase`
abbrev pub erase : ℕ → ℕ → String → String
erase at n s = slice s 0 at <> slice s (at + n) (len s)

-- The first directory whose path contains the text, empty if there is none.
dir_with : String → List (String × Bool) → String
dir_with hash [] = ""
dir_with hash ((dir, is_directory) ∷ entries) =
    let rest = dir_with hash entries in
    if not is_directory then rest else elim (find? dir hash) [ none ↦ rest | some at ↦ dir ]

-- `VersionStrRes` of a version.
abbrev extracted_or_empty : Extracted → String
extracted_or_empty (Extracted.extracted v) = v
extracted_or_empty (Extracted.unparsable e) = ""

module _ (F : Firmware) where
  open F use {State}

  -- `extractVersionValue`
  unfoldable pub extract_version_value : String → Extracted
  extract_version_value line = elim (find? line watermark) [
    | none ↦ Extracted.unparsable (
        "Failed to parse the bootloader version line; no `" <> watermark <> "` is found in `"
        <> line <> "`")
    | some at ↦ Extracted.extracted (F.trim (erase at (len watermark + 1) line))
  ]

  -- `getTargetDir`, none if it throws.
  unfoldable pub get_target_dir : String → State → Option String
  unfolding dir_with
  get_target_dir hash s = elim (F.deployments s) [
    | none ↦ none
    | some entries ↦ some (dir_with hash entries)
  ]

  -- `getVersion` of the deployment directory; an exception gives an empty text.
  unfoldable pub get_version : String → String → State → String
  unfolding get_target_dir extract_version_value
  get_version hash ver_file s = elim (get_target_dir hash s) [
    | none ↦ ""
    | some dir ↦ if is_empty dir then "" else elim (F.file (dir <> ver_file) s) [
      | none ↦ ""
      | some line ↦ extracted_or_empty (extract_version_value line)
    ]
  ]

  -- `getDeploymentVersion`
  unfoldable pub get_deployment_version : String → State → VersionStrRes
  unfolding get_version
  get_deployment_version hash s =
      let ver = get_version hash version_file s in (ver, not (is_empty ver))

  -- `getTargetVersion`
  unfoldable pub get_target_version : String → State → TargetVersion
  unfolding extract_version_value
  get_target_version hash s = elim (F.commit_file hash version_file s) [
    | FileRead.read_error e ↦ TargetVersion.unreadable e
    | FileRead.content line ↦ elim (extract_version_value line) [
      | Extracted.extracted v ↦ TargetVersion.found v
      | Extracted.unparsable e ↦ TargetVersion.malformed e
    ]
  ]

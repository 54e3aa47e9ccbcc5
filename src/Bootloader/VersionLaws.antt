-- ===== src/Bootloader/VersionLaws.antt =====
-- The version that a version file states is the one that is read, from a commit and from a deployment.
use text.Mathlib.Text.{find?}
use text.Mathlib.TextLemmas.{append_assoc}
use aktualizr_lite.Bootloader.Env.{FileRead, Firmware}
use aktualizr_lite.Prelude.Texts.{erase-append, find?-append}
use aktualizr_lite.Bootloader.Version.{
  Extracted, TargetVersion, extract_version_value, get_target_dir, get_target_version, get_version,
  version_file, watermark,
}
use aktualizr_lite.Prelude.{String, ap, false, is_empty, refl, some, ◌<>◌, ◌∙◌, ◌≡◌}

-- The text of a version file.
abbrev pub version_line : String → String
version_line v = "bootfirmware_version=" <> (v <> "\n")

found_in_line : (v : String) → find? (version_line v) watermark ≡ some 0
found_in_line v =
    ap (λ u. find? u watermark) (append_assoc watermark "=" (v <> "\n"))
    ∙ find?-append "b" "ootfirmware_version" ("=" <> (v <> "\n"))

extract_version_value-line :
    (F : Firmware) (v : String)
    → extract_version_value F (version_line v) ≡ Extracted.extracted (F.trim (v <> "\n"))
unfolding extract_version_value
extract_version_value-line F v =
    let e = erase-append "bootfirmware_version=" (v <> "\n") 21 refl in
    rw (extract_version_value, found_in_line v) (ap (λ u. Extracted.extracted (F.trim u)) e)

pub get_target_version-line :
    (F : Firmware) (v hash : String) (s : F.State)
    → F.trim (v <> "\n") ≡ v
    → F.commit_file hash version_file s ≡ FileRead.content (version_line v)
    → get_target_version F hash s ≡ TargetVersion.found v
unfolding get_target_version
get_target_version-line F v hash s t c =
    let x = extract_version_value-line F v ∙ ap Extracted.extracted t in
    rw (get_target_version, c, x) refl

-- A version that is written to the version file of a commit and of its deployment is the one that
-- `getTargetVersion` reads from the commit and `getVersion` from the deployment, where `trim` takes
-- away the end of the line.
pub written_version_is_read :
    (F : Firmware) (v hash dir : String) (s : F.State)
    → F.trim (v <> "\n") ≡ v
    → F.commit_file hash version_file s ≡ FileRead.content (version_line v)
    → get_target_dir F hash s ≡ some dir
    → is_empty dir ≡ false
    → F.file (dir <> version_file) s ≡ some (version_line v)
    → (get_target_version F hash s ≡ TargetVersion.found v)
      × (get_version F hash version_file s ≡ v)
unfolding get_version
written_version_is_read F v hash dir s t c d e f =
    let x = extract_version_value-line F v ∙ ap Extracted.extracted t in
    (get_target_version-line F v hash s t c, rw (get_version, d, e, f, x) refl)

-- ===== src/Updates/Reports.antt =====
-- The reports on a download and an installation that src/liteclient.cc sends, with the limit of their
-- details. The details are bytes; the reports have the part of libaktualizr's events that is set here.
use mathlib.Core.Option
use aktualizr_lite.Results.{InstallationResult, ResultCode}
use aktualizr_lite.Target.{UptaneTarget}
use aktualizr_lite.Prelude.{
  Bool, List, Option, String, [], false, if◌then◌else◌, int_eq, length, ltb, nat_eq, none, not,
  some, string_eq, suc, take, true, zero, ℕ, ◌&&◌, ◌++◌, ◌-◌, ◌==◌, ◌∷◌,
}

pub data ReportKind : Type 0 where
  download_started : ReportKind
  download_completed : Bool → ReportKind
  installation_started : ReportKind
  installation_applied : ReportKind
  installation_completed : Bool → ReportKind

pub record Report : Type 0 where
  pub kind : ReportKind
  pub correlation_id : String
  -- `custom["details"]`, where it is set.
  pub details : Option (List ℕ)
  -- `custom["targetName"]` and `custom["version"]`
  pub target_name : String
  pub version : String

pub record Reporter (S : Type 0) : Type 0 where
  -- `config.tls.server`
  pub server : String
  -- The bytes of a text.
  pub bytes : String → List ℕ
  pub callback : String → UptaneTarget → String → S → S
  pub write_current : UptaneTarget → S → S
  pub enqueue : Report → S → S
  -- `InstallationResult::needCompletion`
  pub need_completion : ResultCode → Bool

abbrev pub max_details_size : ℕ
max_details_size = 2048

abbrev pub err_tail_size : ℕ
err_tail_size = 1024

-- `[TRUNCATED]`
abbrev pub truncated : List ℕ
truncated = 91 ∷ 84 ∷ 82 ∷ 85 ∷ 78 ∷ 67 ∷ 65 ∷ 84 ∷ 69 ∷ 68 ∷ 93 ∷ []

-- The same between two ends of lines.
abbrev pub truncated_line : List ℕ
truncated_line = 10 ∷ truncated ++ (10 ∷ [])

-- What is left behind a number of bytes.
abbrev pub drop {ℓ} : {A : Type ℓ} → ℕ → List A → List A
drop zero xs = xs
drop (suc n) [] = []
drop (suc n) (x ∷ xs) = drop n xs

-- `notify` cuts what is too long at its end.
unfoldable pub cut_details : List ℕ → List ℕ
cut_details d =
    if ltb max_details_size (length d)
    then take (max_details_size - length truncated) d ++ truncated
    else d

abbrev pub head_size : ℕ
head_size = max_details_size - err_tail_size - length truncated_line

-- `DetailedInstallCompletedReport` cuts the details of a failure in their middle.
unfoldable pub completed_details : Bool → List ℕ → List ℕ
completed_details success d =
    if not success && ltb max_details_size (length d)
    then take head_size d ++ (truncated_line ++ drop (length d - err_tail_size) d)
    else d

module _ {S : Type 0} (R : Reporter S) where
  abbrev pub report_of : ReportKind → UptaneTarget → Option (List ℕ) → Report
  report_of kind t details = record {
    kind = kind;
    correlation_id = t.correlation_id;
    details = details;
    target_name = t.filename;
    version = t.custom.custom_version;
  }

  -- `notify`
  unfoldable pub notify : Report → S → S
  unfolding cut_details
  notify r s =
      if R.server == ""
      then s
      else R.enqueue (record r { details = Option.map cut_details r.details }) s

  -- `notifyDownloadStarted`
  unfoldable pub notify_download_started : UptaneTarget → String → S → S
  unfolding notify
  notify_download_started t reason s =
      notify (report_of ReportKind.download_started t (some (R.bytes reason)))
        (R.callback "download-pre" t "" s)

  -- `notifyDownloadFinished`
  unfoldable pub notify_download_finished : UptaneTarget → Bool → String → S → S
  unfolding notify
  notify_download_finished t success err s =
      notify (report_of (ReportKind.download_completed success) t (some (R.bytes err)))
        (R.callback "download-post" t (if success then "OK" else "FAILED") s)

  -- `notifyInstallStarted`
  unfoldable pub notify_install_started : UptaneTarget → S → S
  unfolding notify
  notify_install_started t s =
      notify (report_of ReportKind.installation_started t none) (R.callback "install-pre" t "" s)

  -- What the report of a completed installation is.
  abbrev pub completed_report : UptaneTarget → Bool → List ℕ → Report
  completed_report t success d =
      report_of (ReportKind.installation_completed success) t (some (completed_details success d))

  -- The callback of `notifyInstallFinished`, and the file of the current target.
  unfoldable pub before_report : UptaneTarget → InstallationResult → S → S
  before_report t ir s =
      if R.need_completion ir.code
      then R.callback "install-post" t "NEEDS_COMPLETION" s
      else elim ir.code [
        | ResultCode.ok ↦ R.callback "install-post" t "OK" (R.write_current t s)
        | _ ↦ R.callback "install-post" t "FAILED" s
      ]

  -- The report, by whether the installation needs completion, and by its code.
  unfoldable pub report_by : Bool → ResultCode → UptaneTarget → List ℕ → Report
  unfolding completed_details
  report_by true code t d = report_of ReportKind.installation_applied t (some d)
  report_by false ResultCode.ok t d = completed_report t true d
  report_by false _ t d = completed_report t false d

  abbrev pub install_report : UptaneTarget → InstallationResult → Report
  install_report t ir = report_by (R.need_completion ir.code) ir.code t (R.bytes ir.description)

  -- `notifyInstallFinished`
  unfoldable pub notify_install_finished : UptaneTarget → InstallationResult → S → S
  unfolding notify before_report report_by
  notify_install_finished t ir s = notify (install_report t ir) (before_report t ir s)

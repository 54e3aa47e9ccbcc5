-- ===== src/Tests/ReportExamples.antt =====
-- The theorem on the reports of an installation, applied to a queue of reports.
use aktualizr_lite.Tests.Devices.{target_of}
use aktualizr_lite.Results.{InstallationResult, ResultCode}
use aktualizr_lite.Target.{UptaneTarget, from_tuf_target}
use aktualizr_lite.Updates.ReportLaws.{KeepsEnds, notify_install_finished-KeepsEnds}
use aktualizr_lite.Updates.Reports.{
  Report, Reporter, before_report, install_report, notify_install_finished,
}
use aktualizr_lite.Prelude.{List, String, [], false, length, pos, refl, some, ℕ, ◌∷◌, ◌≡◌, ◌≢◌, ◌≤◌}
use Prim.Native.Char.{code}

abbrev ascii : String → List ℕ
ascii String.[] = []
ascii (String.◌∷◌ c s) = code c ∷ ascii s

abbrev queue : Reporter (List Report)
queue = record {
  server = "https://ota-lite.foundries.io:8443";
  bytes = ascii;
  callback = λ message t text q. q;
  write_current = λ t q. q;
  enqueue = λ r q. r ∷ q;
  need_completion = λ c. false;
}

abbrev installed : UptaneTarget
installed = from_tuf_target (target_of "7" (pos 7))

abbrev failure : InstallationResult
failure = record { code = ResultCode.install_failed; description = "no such commit" }

notify_install_finished-KeepsEnds_example :
    (d : List ℕ) × (notify_install_finished queue installed failure []
      ≡ (record (install_report queue installed failure) { details = some d } ∷ []))
    × (length d ≤ 2048)
    × (false ≡ false
        → ResultCode.install_failed ≢ ResultCode.ok
        → KeepsEnds (ascii "no such commit") d)
unfolding before_report
notify_install_finished-KeepsEnds_example =
    notify_install_finished-KeepsEnds queue installed failure [] refl

-- ===== src/Tests/UpdateExamples.antt =====
-- The theorems on `LiteClient`, applied to a platform whose updates fail.
use aktualizr_lite.Results.{DownloadResult, DownloadStatus, InstallMode, ResultCode}
use aktualizr_lite.Results.Usage.{failed_usage}
use aktualizr_lite.Target.{UptaneTarget, from_tuf_target}
use aktualizr_lite.Updates.LogLaws.{IsKnownBad, is_failing_iff}
use aktualizr_lite.Updates.Marking.{Marks, finalize_update-is_failing, install_update-is_failing}
use aktualizr_lite.Updates.Steps.{
  download_image, finalize_update, install_update, is_update_failure, max_tries,
}
use aktualizr_lite.Updates.StepsLaws.{IsAttempt, download_image-IsAttempt}
use aktualizr_lite.Prelude.{
  inl, inr, List, Memᴰ, Option, [], arith, false, none, pos, refl, some, suc, true, zero, ℕ, ◌↔◌,
  ◌∷◌, ◌≡◌,
}
use aktualizr_lite.Tests.Devices.{target_of}
use aktualizr_lite.Updates.Log.{Platform, is_failing}
use aktualizr_lite.Api.Lite.{SaveMode}

-- The installation log, and the number of downloads that fail before one succeeds.
record Book : Type 0 where
  known : List UptaneTarget
  installed : List UptaneTarget
  waiting : Option UptaneTarget
  failures : ℕ

save_in : UptaneTarget → SaveMode → Book → Book
save_in t SaveMode.none_mode b = record b { known = t ∷ b.known; waiting = none }
save_in t SaveMode.current_mode b = record b {
  known = t ∷ b.known;
  installed = t ∷ b.installed;
  waiting = none;
}
save_in t SaveMode.pending_mode b = record b { known = t ∷ b.known; waiting = some t }
save_in t SaveMode.bad_target_mode b = b

abbrev outcome : DownloadStatus → DownloadResult
outcome status = record {
  status = status;
  description = "";
  destination_path = "";
  stat = failed_usage "";
}

abbrev old : UptaneTarget
old = from_tuf_target (target_of "5" (pos 5))

abbrev update : UptaneTarget
update = from_tuf_target (target_of "7" (pos 7))

abbrev platform : Platform
platform = record {
  State = Book;
  known_versions = λ b. b.known;
  all_installed = λ b. b.installed;
  installed_versions = λ c b. b.installed;
  pending = λ b. b.waiting;
  save = save_in;
  current = λ b. old;
  write_current = λ t b. b;
  update_headers = λ b. b;
  download = λ t b. elim b.failures [
    | zero ↦ (outcome DownloadStatus.ok, b)
    | suc n ↦ (outcome DownloadStatus.download_failed, record b { failures = n })
  ];
  install = λ t m b. (record { code = ResultCode.install_failed; description = "" }, b);
  finalize = λ t b. (record { code = ResultCode.custom_error; description = "" }, b);
  pending_hash = λ b. "";
  can_continue = λ b. true;
  load_keys = λ b. b;
  callback = λ m t b. b;
  notify_install_started = λ t b. b;
  notify_install_finished = λ t r b. b;
  is_success = λ c. elim c [ ResultCode.ok ↦ true | _ ↦ false ];
  need_completion = λ c. elim c [ ResultCode.need_completion ↦ true | _ ↦ false ];
}

platform-Marks : Marks platform
unfolding save_in is_update_failure
platform-Marks = record {
  save_known = λ t s. Memᴰ.head refl;
  save_installed = λ t s h. h;
  save_pending = λ t s. refl;
  callback_same = λ m t s. (refl, refl, refl);
  install_same = λ t m s. (refl, refl, refl);
  finalize_same = λ t s. (refl, refl, refl);
  write_same = λ t s. (refl, refl, refl);
  headers_same = λ s. (refl, refl, refl);
  started_same = λ t s. (refl, refl, refl);
  finished_same = λ t r s. (refl, refl, refl);
  failure_code = λ c h. ground arith;
}

abbrev idle : Book
idle = record { known = old ∷ []; installed = old ∷ []; waiting = none; failures = 2 }

abbrev rebooted : Book
rebooted = record idle { waiting = some update }

download_image-IsAttempt_example :
    IsAttempt platform max_tries update idle (download_image platform update idle)
download_image-IsAttempt_example = download_image-IsAttempt platform update idle

is_failing_iff_example :
    (is_failing platform update rebooted ≡ true)
    ↔ ((u : UptaneTarget) × IsKnownBad platform "7" rebooted u)
unfolding from_tuf_target
is_failing_iff_example = is_failing_iff platform update rebooted

finalize_update-is_failing_example :
    is_failing platform update (finalize_update platform rebooted).1 ≡ true
unfolding from_tuf_target is_update_failure finalize_update
finalize_update-is_failing_example =
    finalize_update-is_failing platform platform-Marks update rebooted refl refl (inr refl)

install_update-is_failing_example :
    is_failing platform update
      (install_update platform update InstallMode.all
        (record { platform = idle; is_reboot_required = false })).1.platform
    ≡ true
unfolding from_tuf_target is_update_failure install_update
install_update-is_failing_example =
    install_update-is_failing platform platform-Marks update InstallMode.all
      (record { platform = idle; is_reboot_required = false }) refl (inl refl)

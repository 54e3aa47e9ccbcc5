-- ===== src/Updates/ReportLaws.antt =====
-- The details of the reports that src/liteclient.cc sends are limited, and those of a failure keep
-- the end of the error.
use aktualizr_lite.Results.{InstallationResult, ResultCode}
use aktualizr_lite.Target.{UptaneTarget}
use aktualizr_lite.Updates.Reports.{
  Reporter, before_report, completed_details, cut_details, drop, err_tail_size, head_size,
  install_report, max_details_size, notify, notify_install_finished, report_by, truncated,
  truncated_line,
}
use mathlib.Core.Option
use aktualizr_lite.Prelude.{
  Bool, Bool-cases, List, [], ap, arith, false, false-ne-true, if◌then◌else◌, inl, inr, int_eq,
  length, ltb, nat_eq, refl, some, string_eq, subst, suc, sym, take, true, zero, ℕ, ◌++◌, ◌+◌, ◌-◌,
  ◌<◌, ◌==◌, ◌∙◌, ◌∷◌, ◌≡◌, ◌≢◌, ◌≤◌, ◌⊎◌,
}

length-take : (n : ℕ) (xs : List ℕ) → n ≤ length xs → length (take n xs) ≡ n
length-take zero xs h = refl
length-take (suc n) [] h = omega (arith, h)
length-take (suc n) (x ∷ xs) h = ap suc (length-take n xs (omega (arith, h)))

length-drop : (n : ℕ) (xs : List ℕ) → length (drop n xs) ≡ length xs - n
length-drop zero xs = omega arith
length-drop (suc n) [] = omega arith
length-drop (suc n) (x ∷ xs) = length-drop n xs ∙ omega arith

length-append : (xs ys : List ℕ) → length (xs ++ ys) ≡ length xs + length ys
length-append [] ys = omega arith
length-append (x ∷ xs) ys = ap suc (length-append xs ys) ∙ omega arith

cut_details-Fits : (d : List ℕ) → length (cut_details d) ≤ max_details_size
unfolding cut_details
cut_details-Fits d = elim (Bool-cases (ltb max_details_size (length d))) [
  | inl b ↦
      let more : 2048 < length d = ground (arith, b) in
      let n = length-take 2037 d (omega (arith, more)) in
      let m = length-append (take 2037 d) truncated in rw b (omega (arith, n, m))
  | inr b ↦ let less : length d ≤ 2048 = ground (arith, b) in rw b less
]

-- What fits is not cut.
cut_details_fitting : (d : List ℕ) → length d ≤ max_details_size → cut_details d ≡ d
unfolding cut_details
cut_details_fitting d h = elim (Bool-cases (ltb max_details_size (length d))) [
  | inl b ↦ absurd (ground (arith, b, h))
  | inr b ↦ rw b refl
]

-- The details of an error are those bytes, or their beginning and the last 1024 of them.
abbrev pub KeepsEnds : List ℕ → List ℕ → Type 0
KeepsEnds err d =
    ((length err ≤ max_details_size) × (d ≡ err))
    ⊎ ((max_details_size < length err)
        × (d ≡ take head_size err ++ (truncated_line ++ drop (length err - err_tail_size) err)))

completed_details-KeepsEnds :
    (err : List ℕ)
    → KeepsEnds err (completed_details false err)
      × (length (completed_details false err) ≤ max_details_size)
unfolding completed_details
completed_details-KeepsEnds err = elim (Bool-cases (ltb max_details_size (length err))) [
  | inl b ↦
      let more : 2048 < length err = ground (arith, b) in
      let tail = drop (length err - err_tail_size) err in
      let n = length-take head_size err (omega (arith, more)) in
      let m = length-drop (length err - err_tail_size) err in
      let k = length-append (take head_size err) (truncated_line ++ tail) in
      let j = length-append truncated_line tail in
      rw b (inr (more, refl), omega (arith, more, n, m, k, j))
  | inr b ↦ let less : length err ≤ 2048 = ground (arith, b) in rw b (inl (less, refl), less)
]

module _ {S : Type 0} (R : Reporter S) where
  report_by-details :
      (needs : Bool) (code : ResultCode) (t : UptaneTarget) (d : List ℕ)
      → (x : List ℕ) × ((report_by R needs code t d).details ≡ some x)
        × (needs ≡ false → code ≢ ResultCode.ok → x ≡ completed_details false d)
  unfolding report_by
  report_by-details true code t d = (d, refl, λ e ne. elim (false-ne-true (sym e)) [ ])
  report_by-details false ResultCode.ok t d =
      (completed_details true d, refl, λ e ne. elim (ne refl) [ ])
  report_by-details false ResultCode.need_completion t d = (_, refl, λ e ne. refl)
  report_by-details false ResultCode.install_failed t d = (_, refl, λ e ne. refl)
  report_by-details false ResultCode.download_failed t d = (_, refl, λ e ne. refl)
  report_by-details false ResultCode.verification_failed t d = (_, refl, λ e ne. refl)
  report_by-details false ResultCode.custom_error t d = (_, refl, λ e ne. refl)
  report_by-details false ResultCode.unknown t d = (_, refl, λ e ne. refl)

  -- Where a server is configured, the end of an installation sends one report, after the callback.
  -- Its details have at most 2048 bytes. If the installation failed, they are the description, or,
  -- where that is longer, its beginning and its last 1024 bytes with the mark of a cut between them.
  pub notify_install_finished-KeepsEnds :
      (t : UptaneTarget) (ir : InstallationResult) (s : S)
      → R.server == "" ≡ false
      → (d : List ℕ) × (notify_install_finished R t ir s
          ≡ R.enqueue
              (record (install_report R t ir) { details = some d })
              (before_report R t ir s))
        × (length d ≤ max_details_size)
        × (R.need_completion ir.code ≡ false
            → ir.code ≢ ResultCode.ok
            → KeepsEnds (R.bytes ir.description) d)
  unfolding notify_install_finished notify
  notify_install_finished-KeepsEnds t ir s online =
      let err = R.bytes ir.description in
      let r = install_report R t ir in
      let s1 = before_report R t ir s in
      let (x, e, f) = report_by-details (R.need_completion ir.code) ir.code t err in
      let (ends, fits) = completed_details-KeepsEnds err in
      (
        cut_details x,
        ap
              (λ b.
                if b
                then s1
                else R.enqueue (record r { details = Option.map cut_details r.details }) s1)
              online
            ∙ ap (λ o. R.enqueue (record r { details = Option.map cut_details o }) s1) e,
        cut_details-Fits x,
        λ no ne.
            let same = f no ne in
            subst (KeepsEnds err)
              (sym (ap cut_details same ∙ cut_details_fitting (completed_details false err) fits))
              ends,
      )

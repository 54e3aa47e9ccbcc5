-- ===== src/Daemon/LoopLaws.antt =====
-- When the daemon ends, and what its cycles install.
use aktualizr_lite.ClientExt.PullAndInstall.{Outcome, pull_and_install, reboot_if_required}
use aktualizr_lite.ClientExt.Selection.{IsUpdate, get_target_to_install_not_bad}
use aktualizr_lite.Results.{CheckInResult, SelectResult, check_in_good}
use aktualizr_lite.Target.{is_unknown}
use aktualizr_lite.Api.CheckIn.{CheckInEnv}
use aktualizr_lite.Api.Installer.{
  AkClient, complete_installation, get_current_target, is_rollback_target,
}
use aktualizr_lite.Api.Lite.{Lite}
use aktualizr_lite.Daemon.Loop.{
  CycleEnd, DaemonConfig, DaemonEnd, after_cycle, check_in_cycle, cycle_args, cycle_pull, end_of,
  install_cycle, run_cycle, run_cycles, run_daemon, select_cycle,
}
use aktualizr_lite.Prelude.{
  Bool, Bool-cases, ap, arith, false, if◌then◌else◌, inl, inr, int_eq, nat_eq, not, refl, string_eq,
  subst, suc, sym, true, zero, ℕ, ◌==◌, ◌≡◌, ◌≢◌, ◌≤◌, ◌⊎◌,
}

no_room : {n : ℕ} → suc n ≤ 0 → ⊥
no_room h = omega arith

module _ (L : Lite) (E : CheckInEnv L.State) (cfg : DaemonConfig) where
  after_cycle_on_sleep :
      (e : CycleEnd) (c : AkClient L.State) (rest : DaemonEnd × AkClient L.State)
      → cfg.return_on_sleep ≡ true
      → (after_cycle L E cfg e c rest).0 ≢ DaemonEnd.still_running
  unfolding after_cycle
  after_cycle_on_sleep e c rest l h = ground (arith, l, h)

  run_cycles_on_sleep :
      (n : ℕ) (c : AkClient L.State)
      → cfg.return_on_sleep ≡ true
      → 1 ≤ n
      → (run_cycles L E cfg n c).0 ≢ DaemonEnd.still_running
  unfolding run_cycles
  run_cycles_on_sleep zero c l h = elim (no_room h) [ ]
  run_cycles_on_sleep (suc n) c l h =
      let (e, c1) = run_cycle L E cfg c in after_cycle_on_sleep e c1 (run_cycles L E cfg n c1) l

  -- A daemon that returns where it would sleep ends, with fuel for one cycle.
  pub run_daemon_on_sleep :
      (n : ℕ) (c : AkClient L.State)
      → cfg.return_on_sleep ≡ true
      → 1 ≤ n
      → (run_daemon L E cfg n c).0 ≢ DaemonEnd.still_running
  unfolding run_daemon
  run_daemon_on_sleep n c l h e =
      let c' = (complete_installation L c).1 in
      ground (arith, run_cycles_on_sleep n c l h, run_cycles_on_sleep n c' l h, e)

  -- How a cycle ends that has installed something: with the exception that was thrown, for a reboot if
  -- one is required then, and with the next cycle otherwise.
  abbrev pub EndsBy : Outcome → AkClient L.State → CycleEnd × AkClient L.State → Type 0
  EndsBy (Outcome.threw e) c r = r ≡ (CycleEnd.throws, c)
  EndsBy (Outcome.returned res) c r =
      ((reboot_if_required L c).0 ≡ true) × (r ≡ (CycleEnd.reboots, c))
      ⊎ ((reboot_if_required L c).0 ≡ false) × (r ≡ (CycleEnd.goes_on, c))

  -- A cycle that installs what it selected, after a good check-in.
  abbrev pub Installs : AkClient L.State → Type 0
  Installs c =
      let (ci, c1) = check_in_cycle L E cfg c in
      let (gti, c2) = select_cycle L E cfg ci c1 in
      let (outcome, c3) = pull_and_install L gti.selected_target (cycle_pull gti) c2 in
      (check_in_good ci.status ≡ true)
      × (is_unknown gti.selected_target ≡ false)
      × EndsBy outcome c3 (run_cycle L E cfg c)
      × (IsUpdate gti.status
          → (is_rollback_target L c1 gti.selected_target ≡ false)
            × ((gti.selected_target.name == (get_current_target L c1).name) ≡ false))

  -- A cycle that goes on without an installation: its check-in failed, or it selected nothing.
  abbrev pub Skips : AkClient L.State → Type 0
  Skips c =
      let (ci, c1) = check_in_cycle L E cfg c in
      let (gti, c2) = select_cycle L E cfg ci c1 in
      (check_in_good ci.status ≡ false) × (run_cycle L E cfg c ≡ (CycleEnd.goes_on, c1))
      ⊎ (check_in_good ci.status ≡ true)
        × (is_unknown gti.selected_target ≡ true)
        × (run_cycle L E cfg c ≡ (CycleEnd.goes_on, c2))

  select_cycle_not_bad :
      (ci : CheckInResult) (c : AkClient L.State)
      → IsUpdate (select_cycle L E cfg ci c).0.status
      → (is_rollback_target L c (select_cycle L E cfg ci c).0.selected_target ≡ false)
        × (((select_cycle L E cfg ci c).0.selected_target.name == (get_current_target L c).name)
            ≡ false)
  unfolding select_cycle
  select_cycle_not_bad ci c u =
      let (n, b, r) = get_target_to_install_not_bad L ci (cycle_args cfg.auto_downgrade) c u in
      ground (arith, n, b)

  three_ways :
      {A : Type 0} (is_good unknown : Bool) (a b i r : A)
      → r ≡ (if not is_good then a else if unknown then b else i)
      → ((is_good ≡ false) × (r ≡ a) ⊎ (is_good ≡ true) × (unknown ≡ true) × (r ≡ b))
        ⊎ (is_good ≡ true) × (unknown ≡ false) × (r ≡ i)
  three_ways false unknown a b i r e = inl (inl (refl, e))
  three_ways true true a b i r e = inl (inr (refl, refl, e))
  three_ways true false a b i r e = inr (refl, refl, e)

  end_of-EndsBy :
      (o : Outcome) (c : AkClient L.State) → EndsBy o c (end_of o (reboot_if_required L c).0, c)
  end_of-EndsBy (Outcome.threw e) c = refl
  end_of-EndsBy (Outcome.returned res) c = elim (Bool-cases (reboot_if_required L c).0) [
    | inl b ↦ inl (b, ap (λ r. (if r then CycleEnd.reboots else CycleEnd.goes_on, c)) b)
    | inr b ↦ inr (b, ap (λ r. (if r then CycleEnd.reboots else CycleEnd.goes_on, c)) b)
  ]

  install_cycle-EndsBy :
      (gti : SelectResult) (c : AkClient L.State)
      → let (outcome, c') = pull_and_install L gti.selected_target (cycle_pull gti) c in
        EndsBy outcome c' (install_cycle L E cfg gti c)
  unfolding install_cycle
  install_cycle-EndsBy gti c =
      let (outcome, c') = pull_and_install L gti.selected_target (cycle_pull gti) c in
      end_of-EndsBy outcome c'

  -- A cycle goes on without an installation just if its check-in failed, or this was good and selected
  -- nothing. Every other cycle makes the installation of the selected target, and then ends by its
  -- exception, for a reboot if one is required after it, or goes on. If an update or a rollback was
  -- selected, the target is not one that is known to fail, and its name is not that of the current one.
  pub run_cycle-Installs : (c : AkClient L.State) → Skips c ⊎ Installs c
  unfolding run_cycle
  run_cycle-Installs c =
      let (ci, c1) = check_in_cycle L E cfg c in
      let (gti, c2) = select_cycle L E cfg ci c1 in
      let (outcome, c3) = pull_and_install L gti.selected_target (cycle_pull gti) c2 in
      elim (three_ways (check_in_good ci.status) (is_unknown gti.selected_target)
        (CycleEnd.goes_on, c1) (CycleEnd.goes_on, c2) (install_cycle L E cfg gti c2)
        (run_cycle L E cfg c) refl) [
          | inl s ↦ inl s
          | inr (g, u, e) ↦ inr (
            g,
            u,
            subst (EndsBy outcome c3) (sym e) (install_cycle-EndsBy gti c2),
            select_cycle_not_bad ci c1,
          )
        ]

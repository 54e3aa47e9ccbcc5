-- ===== src/ClientExt/Outcome.antt =====
-- How `PullAndInstall` and `Rollback` of src/aklite_client_ext.cc end.
use aktualizr_lite.Api.Context.{Context, download_by, install_by}
use aktualizr_lite.Results.{InstallStatus, install_good}
use aktualizr_lite.Results.Usage.{is_ok}
use aktualizr_lite.Target.{TufTarget}
use aktualizr_lite.Prelude.{String, arith, int_eq, ltb, nat_eq, string_eq, true, ◌==◌, ◌≡◌, ◌≢◌}
use aktualizr_lite.Api.Lite.{Lite}
use aktualizr_lite.Api.Installer.{
  AkClient, Made, NoSpaceState, get_current_target, installer, made, no_failure, not_made, thrown,
}
use aktualizr_lite.ClientExt.PullAndInstall.{
  PullArgs, carry_out, download_phase, dr2ir, install_phase, pull_and_install, result, roll_back,
}

-- What an earlier download had no space for is still missing in the state `s`.
abbrev pub StillMissing : (L : Lite) → NoSpaceState → TufTarget → L.State → Type 0
StillMissing L failure t s =
    (ltb 0 failure.stat.required ≡ true)
    × (is_ok failure.stat ≡ true)
    × ((t.sha256 == failure.ostree_commit_hash) ≡ true)
    × (is_ok (
          L.usage_info failure.stat.path failure.stat.reserved_percentage failure.stat.reserved_by
            s)
        ≡ true)
    × (ltb
          (L.usage_info failure.stat.path failure.stat.reserved_percentage failure.stat.reserved_by
            s).available
          failure.stat.required
        ≡ true)

module _ (L : Lite) where
  roll_back_never_fails :
      (current : TufTarget) (d : String) (args : PullArgs) (c : AkClient L.State)
      (description : String)
      → (roll_back L current d args c).0 ≢ result InstallStatus.failed description
  unfolding roll_back
  roll_back_never_fails current d args c description e = ground arith

  install_phase_never_fails :
      (current : TufTarget) (args : PullArgs) (context : Context) (c : AkClient L.State)
      (description : String)
      → (install_phase L current args context c).0 ≢ result InstallStatus.failed description
  unfolding install_phase install_good
  install_phase_never_fails current args context c description e =
      let (ir, s) = install_by L context c.lite in
      ground (
        arith,
        roll_back_never_fails current ir.description args (record c { lite = s }) description,
      )

  download_phase_never_fails :
      (current t : TufTarget) (args : PullArgs) (context : Context) (c : AkClient L.State)
      (description : String)
      → (download_phase L current t args context c).0 ≢ result InstallStatus.failed description
  unfolding download_phase dr2ir
  download_phase_never_fails current t args context c description e =
      let c1 = record c { lite = (download_by L context c.lite).1 } in
      ground (
        arith,
        install_phase_never_fails current args context c description,
        install_phase_never_fails current args context c1 description,
      )

  carry_out_never_fails :
      (current t : TufTarget) (args : PullArgs) (maker : Made Context) (c : AkClient L.State)
      (description : String)
      → (carry_out L current t args maker c).0 ≢ result InstallStatus.failed description
  unfolding carry_out
  carry_out_never_fails current t args not_made c description e = ground arith
  carry_out_never_fails current t args (thrown what) c description e = ground arith
  carry_out_never_fails current t args (made context) c description e =
      download_phase_never_fails current t args context c description e

  -- `PullAndInstall` does not end with the status `failed`, whatever the description.
  pub pull_and_install_never_fails :
      (t : TufTarget) (args : PullArgs) (c : AkClient L.State) (description : String)
      → (pull_and_install L t args c).0 ≢ result InstallStatus.failed description
  unfolding pull_and_install carry_out
  pull_and_install_never_fails t args c description e =
      let (maker, c1) =
        installer L t args.reason args.correlation_id args.install_mode args.source
          args.require_target_in_tuf true (record c { download_failed = no_failure }) in
      ground (arith, carry_out_never_fails (get_current_target L c) t args maker c1 description)

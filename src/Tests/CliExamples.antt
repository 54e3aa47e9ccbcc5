-- ===== src/Tests/CliExamples.antt =====
-- The theorems on the command line, applied to a board that moves from version 5 to 7.
use aktualizr_lite.Cli.Gates.{
  IsRollbackCode, LeavesAlone, complete_install_command_outcome, pull_and_install_command_gates,
}
use aktualizr_lite.Results.{InstallMode, InstallStatus, check_in_good, install_good}
use aktualizr_lite.Target.{is_unknown}
use aktualizr_lite.Prelude.{
  arith, false, int_ltb, no_version, none, refl, true, ℕ, ◌↔◌, ◌≡◌, ◌≢◌, ◌⊎◌,
}
use aktualizr_lite.Cli.Codes.{is_success_code}
use aktualizr_lite.Tests.Devices.{Board, board_client}
use aktualizr_lite.Cli.Commands.{
  CheckMode, PullMode, Request, check_in_by, complete_install_command, pull_and_install_command,
}

abbrev board : Board
board = record { version = 5; is_pending = false; finalizes = true }

abbrev pending_board : Board
pending_board = record { version = 5; is_pending = true; finalizes = false }

abbrev request : Request
request = record {
  version = no_version;
  target_name = "";
  install_mode = InstallMode.all;
  force_downgrade = false;
  source = none;
  pull_mode = PullMode.all;
  do_install = true;
  check_mode = CheckMode.update;
  auto_downgrade = false;
}

board-LeavesAlone : LeavesAlone board_client ℕ (λ s. s.version)
board-LeavesAlone = record {
  check_in_same = λ s. refl;
  check_in_local_same = λ src s. refl;
  check_in_current_same = λ src s. refl;
  select_same = λ ci v name a b c d s. refl;
}

installs : (pull_and_install_command board_client request board).1.version ≡ 7
unfolding pull_and_install_command check_in_good is_unknown
installs = refl

changes : (pull_and_install_command board_client request board).1.version ≢ board.version
changes h = omega (arith, installs)

pull_and_install_command_gates_example :
    let (gti, s2) =
      board_client.get_target_to_install
        (board_client.check_in board).0
        no_version
        ""
        true
        true
        false
        false
        board in
    (board_client.is_installation_in_progress board ≡ false)
    × (check_in_good (board_client.check_in board).0.status ≡ true)
    × (is_unknown gti.selected_target ≡ false)
    × ((false ≡ true)
        ⊎ (int_ltb gti.selected_target.version (board_client.get_current s2).version ≡ false))
unfolding check_in_by
pull_and_install_command_gates_example =
    pull_and_install_command_gates board_client ℕ (λ s. s.version) board-LeavesAlone request board
      changes

complete_install_command_outcome_example :
    ((is_success_code (complete_install_command board_client pending_board).0 ≡ true) ↔ (
      (true ≡ true)
      × (install_good InstallStatus.failed ≡ true)
      × (InstallStatus.failed ≢ InstallStatus.install_rollback_ok)))
    × ((true ≡ false)
        ⊎ (install_good InstallStatus.failed ≡ true)
        ⊎ IsRollbackCode (complete_install_command board_client pending_board).0)
complete_install_command_outcome_example =
    complete_install_command_outcome board_client pending_board

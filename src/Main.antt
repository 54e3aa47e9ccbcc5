-- ===== src/Main.antt =====
-- The commands of the program by their names, and what they make of the options: src/main.cc.
pub mod Success
use aktualizr_lite.Cli.Client.{Client}
use aktualizr_lite.Cli.Codes.{StatusCode, exit_code}
use aktualizr_lite.Cli.Commands.{
  CheckMode, PullMode, check_in_command, complete_install_command, install_command, no_pull,
  pull_command, rollback_command,
}
use aktualizr_lite.Results.{InstallMode, LocalUpdateSource, ostree_only}
use aktualizr_lite.Prelude.{
  Bool, List, Option, String, [], false, if◌then◌else◌, int_eq, is_empty, nat_eq, no_version, none,
  not, some, stoi_decimal, string_eq, true, ℕ, ℤ, ◌==◌, ◌||◌, ◌∷◌,
}

-- The options of the command line, each if it is given.
pub record Options : Type 0 where
  pub update_name : Option String
  pub install_mode : Option String
  pub report_hw_info : Option Bool
  pub src_dir : Option String
  pub json : Option Bool
  pub interval : Option ℕ

abbrev or_false : Option Bool → Bool
or_false none = false
or_false (some b) = b

abbrev or_empty : Option String → String
or_empty none = ""
or_empty (some s) = s

-- `get_target_id`: a version, or -1 and a name.
unfoldable pub get_target_id : Option String → ℤ × String
get_target_id none = (no_version, "")
get_target_id (some text) = elim (stoi_decimal text) [
  | none ↦ (no_version, text)
  | some v ↦ (v, "")
]

-- The install mode by its name.
unfoldable pub install_mode_of : Option String → InstallMode
install_mode_of mode =
    if or_empty mode == "delay-app-install" then InstallMode.ostree_only else InstallMode.all

-- The entries of `commands`.
pub data Command : Type 0 where
  daemon update pull install list check status complete_install rollback : Command

-- `Cmd`, without the description.
pub record Cmd : Type 0 where
  pub name : String
  pub func : Command
  pub read_only_storage : Bool

abbrev cmd : String → Command → Bool → Cmd
cmd name func read_only = record { name = name; func = func; read_only_storage = read_only }

abbrev pub commands : List Cmd
commands =
    cmd "daemon" Command.daemon false
    ∷ cmd "update" Command.update false
    ∷ cmd "pull" Command.pull false
    ∷ cmd "install" Command.install false
    ∷ cmd "list" Command.list true
    ∷ cmd "check" Command.check false
    ∷ cmd "status" Command.status true
    ∷ cmd "finalize" Command.complete_install false
    ∷ cmd "run" Command.complete_install false
    ∷ cmd "rollback" Command.rollback false
    ∷ []

-- The configuration of the client that a command is run with: whether updates of the apps are forced,
-- and whether the storage is read only.
pub record ClientConfig : Type 0 where
  pub force_update : Bool
  pub read_only_storage : Bool

-- What the program takes from elsewhere: the client that is made for a configuration, none if that
-- throws, the operator `/` of paths, and the commands that are not of cli.cc. A command gives its exit
-- code, or none for an exception.
pub record Program (K : Client) : Type 0 where
  pub make_client : ClientConfig → Option K.State
  pub disable_hw_info : K.State → K.State
  pub join_path : String → String → String
  pub auto_downgrade : Bool
  pub polling_sec : ℕ
  pub run_daemon : ℕ → K.State → Option ℕ × K.State
  pub show_status : Bool → K.State → K.State

module _ (K : Client) (P : Program K) where
  open K use {State}

  -- `fillUpdateSource`, where there is a directory.
  unfoldable pub update_source : Option String → Option LocalUpdateSource
  update_source dir =
      let src = or_empty dir in
      if is_empty src
      then none
      else some (record {
        tuf_repo = P.join_path src "tuf";
        ostree_repo = P.join_path src "ostree_repo";
        app_store = P.join_path src "apps";
      })

  abbrev with_hw_info : Options → State → State
  with_hw_info o s = if not (or_false o.report_hw_info) then P.disable_hw_info s else s

  abbrev exits : StatusCode × State → Option ℕ × State
  exits (code, s) = (some (exit_code code), s)

  -- `checkin`
  unfoldable pub checkin : CheckMode → Options → State → Option ℕ × State
  unfolding check_in_command update_source exit_code
  checkin mode o s =
      exits (check_in_command K P.auto_downgrade (update_source o.src_dir) mode (with_hw_info o s))

  -- `install`
  unfoldable pub install_by_options : PullMode → CheckMode → Options → State → Option ℕ × State
  unfolding install_command get_target_id update_source install_mode_of exit_code
  install_by_options pull_mode check_mode o s =
      let (version, name) = get_target_id o.update_name in
      exits (
        install_command K version name (install_mode_of o.install_mode) true
          (update_source o.src_dir) pull_mode check_mode P.auto_downgrade (with_hw_info o s))

  -- `cli_pull`
  unfoldable pub cli_pull : Options → State → Option ℕ × State
  unfolding pull_command get_target_id update_source exit_code
  cli_pull o s =
      let (version, name) = get_target_id o.update_name in
      exits (
        pull_command K version name true (update_source o.src_dir) CheckMode.current
          P.auto_downgrade s)

  -- `daemon_main`
  unfoldable pub daemon_main : Options → State → Option ℕ × State
  daemon_main o s = P.run_daemon (elim o.interval [ none ↦ P.polling_sec | some n ↦ n ]) s

  -- The functions of `commands`.
  unfoldable pub run_func : Command → Options → State → Option ℕ × State
  unfolding checkin install_by_options cli_pull daemon_main complete_install_command
      rollback_command exit_code
  run_func Command.daemon o s = daemon_main o s
  run_func Command.update o s = install_by_options PullMode.all CheckMode.update o s
  run_func Command.pull o s = cli_pull o s
  run_func Command.install o s = install_by_options PullMode.no_pull CheckMode.current o s
  run_func Command.list o s = checkin CheckMode.current o s
  run_func Command.check o s = checkin CheckMode.update o s
  run_func Command.status o s = (some 0, P.show_status (or_false o.json) s)
  run_func Command.complete_install o s = exits (complete_install_command K s)
  run_func Command.rollback o s = exits (rollback_command K (update_source o.src_dir) s)

  -- The configuration of the client of a command.
  unfoldable pub config_of : Cmd → ClientConfig
  config_of c = record {
    force_update = c.name == "pull" || c.name == "install" || c.name == "update";
    read_only_storage = c.read_only_storage;
  }

  -- `run_command`: the exit code, none for an exception, and the state of the client if one was made.
  unfoldable pub run_command : Cmd → Options → Option ℕ × Option State
  unfolding run_func config_of
  run_command c o = elim (P.make_client (config_of c)) [
    | none ↦ (none, none)
    | some s ↦ let (code, s') = run_func c.func o s in (code, some s')
  ]

  -- `run_command_by_name`, over the commands that are left to look at.
  unfoldable pub run_by_name : List Cmd → String → Options → Option ℕ × Option State
  unfolding run_command
  run_by_name [] name o = (none, none)
  run_by_name (c ∷ cs) name o =
      let rest = run_by_name cs name o in if c.name == name then run_command c o else rest

  abbrev pub or_failure : Option ℕ → ℕ
  or_failure none = 1
  or_failure (some code) = code

  -- `main` after the options are parsed.
  unfoldable pub main : String → Options → ℕ × Option State
  unfolding run_by_name
  main name o = let (code, s) = run_by_name commands name o in (or_failure code, s)

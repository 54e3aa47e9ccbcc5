-- ===== src/Tests/ComposeExamples.antt =====
-- The theorems on the engines of compose apps, applied to simulated devices.
use aktualizr_lite.Composectl.Reach.{Operation, Reach, Reach-IsSound}
use aktualizr_lite.Prelude.{
  Bool, Bool-cases, String, [], ap, false, false-ne-true, if◌then◌else◌, inl, inr, int_eq, nat_eq,
  none, pos, refl, some, string_eq, subst, sym, true, ℕ, ◌&&◌, ◌==◌, ◌∙◌, ◌∷◌, ◌≡◌, ◌≢◌,
}
use mathlib.Core.Option.{some-injective}
use aktualizr_lite.Apps.Engine.{ResultId, result_of}
use aktualizr_lite.Docker.ComposeApps.{ComposeHost, fetch_compose_app, k_started}
use aktualizr_lite.Docker.ComposeRuns.{is_compose_app_fetched}
use aktualizr_lite.Docker.ComposeLaws.{Holds, is_compose_app_fetched-after_failure}
use aktualizr_lite.Composectl.Engine.{Command, EngineState, Ran, erase, fetch_app}
use aktualizr_lite.Composectl.Prune.{
  Pruner, apps_to_prune, prune, prune_apps, prune_store, remove_apps,
}
use aktualizr_lite.Composectl.Cache.{HasOutput, IsSound, KeepsWhole, touches}
use aktualizr_lite.Results.Usage.{failed_usage}

-- One app, with the version and the state of its files; nothing can be downloaded.
abbrev host : ComposeHost (String × ℕ)
host = record {
  exists = λ name s. true;
  create_meta_dir = λ name s. some s;
  remove_dir = λ name s. s;
  read_version = λ name s. some s.0;
  read_state = λ name s. some s.1;
  write_version = λ name version s. some (version, s.1);
  write_state = λ name state s. some (s.0, state);
  step = λ step app s. (some "no connection", s);
  read_services = λ name s. some [];
  get_containers = λ s. some [];
  app_dirs = λ s. "app" ∷ [];
  what = λ name. "cannot read";
}

host-Holds : Holds host ("app", "v2")
host-Holds = record {
  version_written = λ s s' e.
      subst (λ t. (some t.0 ≡ some "v2") × (some t.1 ≡ some s.1) × (true ≡ true))
        (some-injective _ _ e) (refl, refl, refl);
  meta_made = λ s. refl;
}

is_compose_app_fetched-after_failure_example :
    (fetch_compose_app host ("app", "v2") ("v1", k_started)
      ≡ some (result_of ResultId.failed "no connection", ("v2", k_started)))
    × (is_compose_app_fetched host ("app", "v2") ("v2", k_started) ≡ true)
is_compose_app_fetched-after_failure_example =
    is_compose_app_fetched-after_failure host "app" "v2" "v1" "no connection" k_started
      ("v1", k_started) ("v2", k_started) host-Holds refl refl refl refl refl refl refl refl

-- A store that can hold the app `a`, and holds it or not.
abbrev pull_run : Bool → Bool → Ran × Bool
pull_run true s = (Ran.output "", true)
pull_run false s = (Ran.exec_error (pos 1) "" "not found", s)

abbrev rm_run : Bool → Bool → Ran × Bool
rm_run b s = (Ran.output "", if b then false else s)

abbrev check_run : Bool → Ran
check_run b = Ran.output (if b then "yes" else "no")

abbrev run : Command → Bool → Ran × Bool
run (Command.pull u) s = pull_run (u == "a") s
run (Command.rm u) s = rm_run (u == "a") s
run (Command.check u) s = (check_run (s && u == "a"), s)
run c s = (Ran.output "", s)

abbrev pruner : Pruner Bool
pruner = record {
  ctl = record {
    exec = run;
    has_local_source = false;
    proxy = none;
    set_proxy = λ p s. s;
    unset_proxy = λ s. s;
    parse_usage = λ err. none;
    storage_space = λ path. failed_usage "";
    parse_fetch_check = λ out. some (some (out == "yes"));
    parse_install_check = λ uri out. some true;
  };
  parse_apps = λ out. some (some ("app", "a") ∷ []);
  parse_pruned = λ out. some true;
  prune_containers = λ s. (true, s);
  prune_images = λ s. (true, s);
}

abbrev Whole : String → Bool → Type 0
Whole uri s = (uri ≡ "a") × (s ≡ true)

pull-Whole :
    (b : Bool) (uri : String) (s : Bool)
    → (uri == "a") ≡ b
    → HasOutput (pull_run b s).0
    → Whole uri (pull_run b s).1
pull-Whole true uri s e h = ((string_eq.decides uri "a").0 e, refl)
pull-Whole false uri s e h = elim h [ ]

abbrev text_of : Ran → String
text_of (Ran.output out) = out
text_of r = ""

says_yes :
    (out : String)
    → Ran.output "no" ≡ Ran.output out
    → some (some (out == "yes")) ≢ some (some true)
says_yes out r y =
    let no : (out == "yes") ≡ false = ap (λ t. t == "yes") (sym (ap text_of r)) in
    false-ne-true (sym no ∙ some-injective _ _ (some-injective _ _ y))

check-Whole :
    (s b : Bool) (uri : String)
    → (uri == "a") ≡ b
    → (out : String) → check_run (s && b) ≡ Ran.output out
    → some (some (out == "yes")) ≡ some (some true)
    → Whole uri s
check-Whole true true uri e out r y = ((string_eq.decides uri "a").0 e, refl)
check-Whole true false uri e out r y = elim (says_yes out r y) [ ]
check-Whole false b uri e out r y = elim (says_yes out r y) [ ]

pull_keeps : (b s : Bool) → s ≡ true → (pull_run b s).1 ≡ true
pull_keeps true s w = refl
pull_keeps false s w = w

rm_keeps : (b s : Bool) → b ≡ false → s ≡ true → (rm_run b s).1 ≡ true
rm_keeps true s e w = elim (false-ne-true (sym e)) [ ]
rm_keeps false s e w = w

not_touched :
    (c : Command) (uri : String) (s : Bool)
    → touches c uri ≡ false
    → Whole uri s
    → Whole uri (run c s).1
not_touched (Command.pull u) uri s t (e, w) = (e, pull_keeps (u == "a") s w)
not_touched (Command.rm u) uri s t (e, w) =
    let is_a : (b : Bool) → (u == "a") ≡ b → b ≡ false = λ b q. elim (Bool-cases b) [
      | inl y ↦
          let same = (string_eq.decides uri u).1 (e ∙ sym ((string_eq.decides u "a").0 (q ∙ y))) in
          elim (false-ne-true (sym t ∙ same)) [ ]
      | inr n ↦ n
    ] in
    (e, rm_keeps (u == "a") s (is_a _ refl) w)
not_touched c uri s t w = w

pruner_keeps : KeepsWhole pruner Whole Whole
pruner_keeps = record {
  pull-Whole = λ uri s h. pull-Whole (uri == "a") uri s refl h;
  prune_kept = λ uri s used w. w;
  check-Whole = λ uri out s r y. check-Whole s (uri == "a") uri refl out r y;
  kept = λ c uri s t w. not_touched c uri s t w;
  proxy_kept = λ uri p s w. w;
  unset_kept = λ uri s w. w;
  containers_kept = λ uri s w. w;
  images_kept = λ uri s w. w;
}

abbrev at_start : EngineState Bool
at_start = record { fetched_apps = []; device = false }

abbrev after_fetch : EngineState Bool
after_fetch = record { fetched_apps = "a" ∷ []; device = true }

fetch_reaches : Reach pruner Whole after_fetch
unfolding fetch_app erase
fetch_reaches = Reach.after (Reach.start false) (Operation.fetches "a" refl)

-- The app is in the shortlist of a pruning that follows.
prune_reaches : Reach pruner Whole after_fetch
unfolding prune prune_apps prune_store remove_apps apps_to_prune
prune_reaches =
    Reach.after fetch_reaches (Operation.prunes (("app", "a") ∷ []) ((refl, refl), tt) refl)

Reach-IsSound_example : IsSound pruner Whole Whole after_fetch
Reach-IsSound_example = Reach-IsSound pruner Whole Whole pruner_keeps prune_reaches

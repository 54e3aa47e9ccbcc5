-- ===== src/Composectl/Prune.antt =====
-- `prune` of src/composeapp/appengine.cc.
use aktualizr_lite.Composectl.Engine.{Command, Ctl, EngineState, Ran, exec_on, forget}
use aktualizr_lite.Prelude.{
  Bool, List, Option, String, [], false, if◌then◌else◌, int_eq, nat_eq, none, some, string_eq, true,
  ◌&&◌, ◌==◌, ◌∷◌,
}

-- What the pruning reads, and the client of docker.
pub record Pruner (S : Type 0) : Type 0 where
  pub ctl : Ctl S
  -- The elements of a list of apps with their names and URIs, none where these are missing; none
  -- outside where reading throws.
  pub parse_apps : String → Option (List (Option (String × String)))
  -- Whether some blobs were pruned, none where reading throws.
  pub parse_pruned : String → Option Bool
  -- `pruneContainers` and `pruneImages`, with whether they succeeded.
  pub prune_containers : S → Bool × S
  pub prune_images : S → Bool × S

abbrev pub same_app : String × String → String × String → Bool
same_app (n, u) (m, v) = n == m && u == v

abbrev pub is_listed : String × String → List (String × String) → Bool
is_listed app [] = false
is_listed app (x ∷ xs) = let rest = is_listed app xs in if same_app app x then true else rest

-- The apps of the store that are not in the shortlist.
unfoldable pub apps_to_prune :
    List (String × String) → List (Option (String × String)) → List (String × String)
apps_to_prune shortlist [] = []
apps_to_prune shortlist (none ∷ apps) = apps_to_prune shortlist apps
apps_to_prune shortlist (some app ∷ apps) =
    let rest = apps_to_prune shortlist apps in if is_listed app shortlist then rest else app ∷ rest

module _ {S : Type 0} (P : Pruner S) where
  abbrev pub State : Type 0
  State = EngineState S

  -- What follows a command that ended with an output.
  abbrev pub if_output : Ran → (String → State) → State → State
  if_output (Ran.output out) f e = f out
  if_output (Ran.exec_error code stderr what) f e = e
  if_output (Ran.thrown what) f e = e

  -- The loop that removes them, up to one that cannot be removed.
  unfoldable pub remove_apps : List (String × String) → State → State
  remove_apps [] e = e
  remove_apps ((name, uri) ∷ apps) e =
      let (r, e1) = exec_on P.ctl (Command.rm uri) (forget P.ctl uri e) in
      if_output r (λ out. remove_apps apps e1) e1

  abbrev pub remove_listed :
      List (String × String) → Option (List (Option (String × String))) → State → State
  remove_listed shortlist none e = e
  remove_listed shortlist (some apps) e = remove_apps (apps_to_prune shortlist apps) e

  -- The first `try` block.
  unfoldable pub prune_apps : List (String × String) → State → State
  unfolding remove_apps apps_to_prune
  prune_apps shortlist e =
      let (r, e1) = exec_on P.ctl Command.ls e in
      if_output r (λ out. remove_listed shortlist (P.parse_apps out) e1) e1

  abbrev pub on_device : (S → S) → State → State
  on_device f e = record e { device = f e.device }

  abbrev pub prune_docker : Option Bool → S → S
  prune_docker (some true) s =
      let (removed, s1) = P.prune_containers s in if removed then (P.prune_images s1).1 else s1
  prune_docker (some false) s = s
  prune_docker none s = s

  -- The second `try` block: docker is only pruned where blobs were.
  unfoldable pub prune_store : State → State
  prune_store e =
      let (r, e1) = exec_on P.ctl Command.prune e in
      if_output r (λ out. on_device (prune_docker (P.parse_pruned out)) e1) e1

  -- `prune`
  unfoldable pub prune : List (String × String) → State → State
  unfolding prune_apps prune_store
  prune shortlist e = prune_store (prune_apps shortlist e)

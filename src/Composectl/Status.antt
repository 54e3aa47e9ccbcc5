-- ===== src/Composectl/Status.antt =====
-- `isRunning` of src/composeapp/appengine.cc, `checkAppInstallationStatus` and `checkAppStatus`.
use aktualizr_lite.Composectl.Engine.{Command, Ctl, EngineState, Ran, exec_on}
use aktualizr_lite.Prelude.{
  Bool, List, Option, String, [], false, if◌then◌else◌, int_eq, nat_eq, none, not, some, string_eq,
  true, ◌&&◌, ◌==◌, ◌||◌, ◌∷◌,
}

-- The status of an app, as `composectl ps` tells it, in the members that the checks read: the ones
-- that are missing, null or empty are none or false. The services are the texts of their states.
pub record AppStatus : Type 0 where
  pub is_object : Bool
  pub in_store : Option Bool
  pub has_missing_images : Bool
  pub has_bundle_errors : Bool
  pub services : Option (List String)

-- `checkAppInstallationStatus`
unfoldable pub check_app_installation_status : Option AppStatus → Bool
check_app_installation_status none = false
check_app_installation_status (some st) = if not st.is_object then false else elim st.in_store [
  | some true ↦ not st.has_missing_images && not st.has_bundle_errors
  | _ ↦ false
]

abbrev pub is_broken_state : String → Bool
is_broken_state state = state == "created" || state == "missing" || state == "unknown"

-- The loop of `checkAppStatus` over the services.
unfoldable pub are_services_up : List String → Bool
are_services_up [] = true
are_services_up (state ∷ states) =
    let rest = are_services_up states in if is_broken_state state then false else rest

-- `checkAppStatus`
unfoldable pub check_app_status : Option AppStatus → Bool
unfolding are_services_up
check_app_status none = false
check_app_status (some st) = elim st.services [
  | none ↦ false
  | some states ↦ are_services_up states
]

module _ {S : Type 0} (C : Ctl S) (parse_ps : String → Option (String → Option AppStatus)) where
  -- `isRunning`: an exception is taken for no. `parse_ps` gives the statuses by their URIs, or none
  -- where it throws.
  unfoldable pub is_running : String → EngineState S → Bool × EngineState S
  unfolding check_app_installation_status check_app_status
  is_running uri e =
      let (r, e1) = exec_on C (Command.ps uri) e in
      elim r [
        | Ran.output out ↦ elim (parse_ps out) [
          | none ↦ (false, e1)
          | some status ↦
              (check_app_installation_status (status uri) && check_app_status (status uri), e1)
        ]
        | _ ↦ (false, e1)
      ]

-- ===== src/Target.antt =====
-- TUF targets: `TufTarget` of include/aktualizr-lite/tuf/tuf.h and the conversions of
-- src/target.cc. The JSON document `custom` is modelled by the members that the code reads.
use aktualizr_lite.Prelude.{
  Bool, List, Option, String, [], any, contains, false, if◌then◌else◌, int_eq, nat_eq, no_version,
  none, some, stoi, string_eq, true, ℕ, ℤ, ◌&&◌, ◌==◌, ◌∷◌,
}

-- An entry of `docker_compose_apps`: a name, and the `uri` where the value is an object with one.
pub record AppEntry : Type 0 where
  pub name : String
  pub uri : Option String

-- The strings `fetched-apps.uri` and `fetched-apps.shortlist`, empty where there is none.
pub record FetchedApps : Type 0 where
  pub uri : String
  pub shortlist : String

-- The members of `delta-stats`, each where it is present and of its type.
pub record DeltaStatsMeta : Type 0 where
  pub sha256 : Option String
  pub size : Option ℕ

pub record Custom : Type 0 where
  pub target_format : String
  pub custom_version : String
  pub hardware_ids : Option (List String)
  pub tags : Option (List String)
  pub apps : List AppEntry
  pub local_src_dir : Bool
  -- `fetched-apps`, if it is an object
  pub fetched_apps : Option FetchedApps
  -- `install-context.apps`, names and uris
  pub install_context : Option (List (String × String))
  pub delta_stats : Option DeltaStatsMeta

abbrev pub no_custom : Custom
no_custom = record {
  target_format = "";
  custom_version = "";
  hardware_ids = none;
  tags = none;
  apps = [];
  local_src_dir = false;
  fetched_apps = none;
  install_context = none;
  delta_stats = none;
}

pub record TufTarget : Type 0 where
  pub name : String
  pub sha256 : String
  pub version : ℤ
  pub custom : Custom

-- `TufTarget()`
abbrev pub unknown_target : TufTarget
unknown_target = record { name = "unknown"; sha256 = ""; version = no_version; custom = no_custom }

unfoldable pub is_unknown : TufTarget → Bool
is_unknown t = t.name == "unknown"

-- `HardwareId`: the only entry of `hardwareIds`.
unfoldable pub hardware_id : TufTarget → String
hardware_id t = elim t.custom.hardware_ids [
  | none ↦ ""
  | some [] ↦ ""
  | some (id ∷ []) ↦ id
  | some (id ∷ id' ∷ ids) ↦ ""
]

-- `HasOneOfTags`.
unfoldable pub has_one_of_tags : List String → TufTarget → Bool
has_one_of_tags tags t = elim t.custom.tags [
  | none ↦ false
  | some target_tags ↦ any (contains target_tags) tags
]

abbrev option_beq : Option String → Option String → Bool
option_beq none none = true
option_beq (some a) (some b) = a == b
option_beq _ _ = false

-- The comparison of two `AppsJson()`.
apps_beq : List AppEntry → List AppEntry → Bool
apps_beq [] [] = true
apps_beq (a ∷ l) (b ∷ r) = a.name == b.name && option_beq a.uri b.uri && apps_beq l r
apps_beq _ _ = false

-- `operator==`
unfoldable pub target_beq : TufTarget → TufTarget → Bool
unfolding apps_beq
target_beq t other =
    other.name == t.name
    && other.sha256 == t.sha256
    && other.version == t.version
    && apps_beq other.custom.apps t.custom.apps

-- `Uptane::Target`, as far as the code reads it.
pub record UptaneTarget : Type 0 where
  pub filename : String
  pub sha256 : String
  pub custom : Custom
  pub correlation_id : String

abbrev pub initial_target : String
initial_target = "Initial Target"

unfoldable pub is_initial : UptaneTarget → Bool
is_initial t = t.filename == initial_target

-- `fromTufTarget`
unfoldable pub from_tuf_target : TufTarget → UptaneTarget
from_tuf_target t = record {
  filename = t.name;
  sha256 = t.sha256;
  custom = t.custom;
  correlation_id = "";
}

abbrev or_no_version : Option ℤ → ℤ
or_no_version none = no_version
or_no_version (some v) = v

-- `toTufTarget`
unfoldable pub to_tuf_target : UptaneTarget → TufTarget
unfolding is_initial
to_tuf_target t = record {
  name = t.filename;
  sha256 = t.sha256;
  version = if is_initial t then no_version else or_no_version (stoi t.custom.custom_version);
  custom = t.custom;
}

-- `toTufTarget` of a target, or of `Uptane::Target::Unknown()` where there is none.
unfoldable pub to_tuf_or_unknown : Option UptaneTarget → TufTarget
unfolding to_tuf_target
to_tuf_or_unknown none = unknown_target
to_tuf_or_unknown (some t) = to_tuf_target t

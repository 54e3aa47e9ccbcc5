-- ===== src/Api/Select.antt =====
-- `CheckInResult::SelectTarget` and the static `filterTargets` of src/api.cc.
use aktualizr_lite.Prelude.{
  Bool, List, Option, String, [], contains, false, if◌then◌else◌, int_eq, is_empty, is_nil, keep,
  nat_eq, no_version, none, not, some, string_eq, ℤ, ◌&&◌, ◌==◌, ◌||◌, ◌∷◌,
}
use aktualizr_lite.Results.{CheckInResult}
use aktualizr_lite.Target.{TufTarget, hardware_id, has_one_of_tags, unknown_target}

module _ {ℓ} {A : Type ℓ} where
  abbrev pub find_first : (A → Bool) → List A → Option A
  find_first p [] = none
  find_first p (x ∷ xs) = if p x then some x else find_first p xs

  -- The search by reverse iterators: the last element that passes.
  unfoldable pub find_last : (A → Bool) → List A → Option A
  find_last p [] = none
  find_last p (x ∷ xs) = elim (find_last p xs) [
    | none ↦ if p x then some x else none
    | some y ↦ some y
  ]

abbrev or_unknown : Option TufTarget → TufTarget
or_unknown none = unknown_target
or_unknown (some t) = t

-- `SelectTarget`.
unfoldable pub select_target : CheckInResult → ℤ → String → String → TufTarget
unfolding find_last
select_target r version target_name hwid_in =
    let hwid = if is_empty hwid_in then r.primary_hwid else hwid_in in
    if version == no_version && is_empty target_name
    then or_unknown (find_last (λ t. hardware_id t == hwid) r.targets)
    else or_unknown (
        find_first (λ t. (t.version == version || t.name == target_name) && hardware_id t == hwid)
          r.targets)

-- The tests of the loop of `filterTargets`.
unfoldable pub is_admissible : String → List String → List String → TufTarget → Bool
is_admissible hwid tags secondary_hwids t =
    if not (t.custom.target_format == "OSTREE")
    then false
    else if not (is_nil tags) && not (has_one_of_tags tags t)
    then false
    else hardware_id t == hwid || contains secondary_hwids (hardware_id t)

-- `filterTargets`; `sort` is `std::sort` by version, whose order among equal versions is open.
unfoldable pub filter_targets :
    (List TufTarget → List TufTarget)
    → List TufTarget
    → String
    → List String
    → List String
    → List TufTarget
unfolding is_admissible
filter_targets sort all_targets hwid tags secondary_hwids =
    sort (keep (is_admissible hwid tags secondary_hwids) all_targets)

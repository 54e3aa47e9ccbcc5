-- ===== src/Api/SelectLaws.antt =====
-- `SelectTarget` over `filterTargets` finds the newest target meant for the device.
use aktualizr_lite.Results.{CheckInResult, CheckInStatus}
use aktualizr_lite.Prelude.{
  All, All-mem, Bool, List, Memᴰ, Option, String, [], arith, eq_iff, false, if◌then◌else◌, int_eq,
  int_ltb, keep, mem-keep, mem_of_keep, nat_eq, negsuc, no_version, none, pos, refl, some,
  string_eq, subst, true, ℤ, ◌==◌, ◌∷◌, ◌≡◌,
}
use aktualizr_lite.Target.{TufTarget, hardware_id}
use aktualizr_lite.Api.Select.{filter_targets, find_last, is_admissible, select_target}

-- The version of `t` is not below that of `u`.
abbrev pub NotOlder : TufTarget → TufTarget → Type 0
NotOlder t u = int_ltb t.version u.version ≡ false

abbrev pub IsSorted : List TufTarget → Type 0
IsSorted [] = Unit {0}
IsSorted (t ∷ ts) = All (λ u. NotOlder u t) ts × IsSorted ts

-- What `std::sort` promises.
pub record Sorts (sort : List TufTarget → List TufTarget) : Type 0 where
  pub same : (t : TufTarget) (ts : List TufTarget) → Memᴰ t ts → Memᴰ t (sort ts)
  pub only : (t : TufTarget) (ts : List TufTarget) → Memᴰ t (sort ts) → Memᴰ t ts
  pub sorted : (ts : List TufTarget) → IsSorted (sort ts)

-- The search from the end meets an element that passes and is not older than a given one.
Found : (TufTarget → Bool) → TufTarget → List TufTarget → Type 0
Found p t ts = (y : TufTarget) × (find_last p ts ≡ some y) × (p y ≡ true) × Memᴰ y ts × NotOlder y t

int_ltb_irrefl : (a : ℤ) → int_ltb a a ≡ false
int_ltb_irrefl (pos a) = ground arith
int_ltb_irrefl (negsuc a) = ground arith

-- What the search gives on the rest of a list, with the last clause of the loop.
Last : (TufTarget → Bool) → TufTarget → List TufTarget → Option TufTarget → Type 0
Last p t ts none = All (λ u. p u ≡ false) ts
Last p t ts (some y) = (p y ≡ true) × Memᴰ y ts

find_last-Last :
    (p : TufTarget → Bool) (t : TufTarget) (ts : List TufTarget) → Last p t ts (find_last p ts)
unfolding find_last Last
find_last-Last p t [] = tt
find_last-Last p t (x ∷ xs) = go (find_last p xs) (p x) refl (find_last-Last p t xs)
  where
    go :
        (o : Option TufTarget) (b : Bool)
        → p x ≡ b
        → Last p t xs o
        → Last p t (x ∷ xs) (elim o [ none ↦ if b then some x else none | some y ↦ some y ])
    go none true e h = (e, Memᴰ.head refl)
    go none false e h = (e, h)
    go (some y) b e h = (h.0, Memᴰ.tail h.1)

find_last-Found :
    (p : TufTarget → Bool) (t : TufTarget) (ts : List TufTarget)
    → IsSorted ts
    → Memᴰ t ts
    → p t ≡ true
    → Found p t ts
unfolding find_last Found Last
find_last-Found p t [] s m h = elim m [ ]
find_last-Found p t (x ∷ xs) s (Memᴰ.tail m) h =
    let (y, e, py, my, ny) = find_last-Found p t xs s.1 m h in
    (y, rw (e, find_last), py, Memᴰ.tail my, ny)
find_last-Found p t (x ∷ xs) s (Memᴰ.head e) h = go (find_last p xs) refl (find_last-Last p t xs)
  where
    go : (o : Option TufTarget) → find_last p xs ≡ o → Last p t xs o → Found p t (x ∷ xs)
    go none eq l = (
      x,
      rw (eq, find_last) (rw (subst (λ u. p u ≡ true) e h)),
      subst (λ u. p u ≡ true) e h,
      Memᴰ.head refl,
      rw e (int_ltb_irrefl x.version),
    )
    go (some y) eq l =
        (y, rw (eq, find_last), l.0, Memᴰ.tail l.1, rw e (All-mem (λ u. NotOlder u x) y xs l.1 s.0))

abbrev pub checked_in : CheckInStatus → String → List TufTarget → CheckInResult
checked_in status hwid targets = record { status = status; primary_hwid = hwid; targets = targets }

module _ (sort : List TufTarget → List TufTarget) (S : Sorts sort) where
  -- Where a check-in has found some target that suits the device by its format, its tags and the
  -- primary hardware id, the target that is selected by default is such a target too, comes from
  -- the same TUF repository, and is not older than any other.
  pub select_target-newest :
      (status : CheckInStatus) (all_targets : List TufTarget) (hwid : String)
      (tags secondary : List String) (t : TufTarget)
      → Memᴰ t all_targets
      → is_admissible hwid tags secondary t ≡ true
      → hardware_id t ≡ hwid
      → let y =
          select_target
            (checked_in status hwid (filter_targets sort all_targets hwid tags secondary))
            no_version
            ""
            "" in
        Memᴰ y all_targets
        × (is_admissible hwid tags secondary y ≡ true)
        × (hardware_id y ≡ hwid)
        × NotOlder y t
  unfolding select_target filter_targets Found
  select_target-newest status all_targets hwid tags secondary t m a h =
      let kept = keep (is_admissible hwid tags secondary) all_targets in
      let (y, e, py, my, ny) =
        find_last-Found (λ u. hardware_id u == hwid) t (sort kept) (S.sorted kept)
          (S.same t kept (mem-keep _ t all_targets m a)) ((eq_iff _ _).1 h) in
      let from = mem_of_keep (is_admissible hwid tags secondary) y all_targets (S.only y kept my) in
      rw e (from.0, from.1, (eq_iff _ _).0 py, ny)

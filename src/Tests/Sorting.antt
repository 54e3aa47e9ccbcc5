-- ===== src/Tests/Sorting.antt =====
-- A sort by version, for the sort of the standard library that `filterTargets` calls.
use aktualizr_lite.Target.{TufTarget}
use aktualizr_lite.Prelude.{
  All, Bool, Bool-cases, List, Memᴰ, [], arith, false, if◌then◌else◌, inl, inr, int_ltb, negsuc,
  pos, refl, true, ℤ, ◌∷◌, ◌≡◌, ◌⊎◌,
}
use aktualizr_lite.Api.SelectLaws.{IsSorted, NotOlder, Sorts}

insert : TufTarget → List TufTarget → List TufTarget
insert t [] = t ∷ []
insert t (x ∷ xs) =
    let rest = insert t xs in if int_ltb t.version x.version then t ∷ x ∷ xs else x ∷ rest

unfoldable pub sort : List TufTarget → List TufTarget
unfolding insert
sort [] = []
sort (x ∷ xs) = insert x (sort xs)

int_ltb_asym : (a b : ℤ) → int_ltb a b ≡ true → int_ltb b a ≡ false
int_ltb_asym (pos a) (pos b) h = ground arith
int_ltb_asym (pos a) (negsuc b) h = ground arith
int_ltb_asym (negsuc a) (pos b) h = ground arith
int_ltb_asym (negsuc a) (negsuc b) h = ground arith

int_leb_trans : (a b c : ℤ) → int_ltb a b ≡ true → int_ltb c b ≡ false → int_ltb c a ≡ false
int_leb_trans (pos a) (pos b) (pos c) h k = ground arith
int_leb_trans (pos a) (pos b) (negsuc c) h k = ground arith
int_leb_trans (pos a) (negsuc b) (pos c) h k = ground arith
int_leb_trans (pos a) (negsuc b) (negsuc c) h k = ground arith
int_leb_trans (negsuc a) (pos b) (pos c) h k = ground arith
int_leb_trans (negsuc a) (pos b) (negsuc c) h k = ground arith
int_leb_trans (negsuc a) (negsuc b) (pos c) h k = ground arith
int_leb_trans (negsuc a) (negsuc b) (negsuc c) h k = ground arith

mem-insert_head : (t : TufTarget) (xs : List TufTarget) → Memᴰ t (insert t xs)
unfolding insert
mem-insert_head t [] = Memᴰ.head refl
mem-insert_head t (x ∷ xs) = elim (Bool-cases (int_ltb t.version x.version)) [
  | inl e ↦ rw e (Memᴰ.head refl)
  | inr e ↦ rw e (Memᴰ.tail (mem-insert_head t xs))
]

mem-insert_tail : (u t : TufTarget) (xs : List TufTarget) → Memᴰ u xs → Memᴰ u (insert t xs)
unfolding insert
mem-insert_tail u t [] m = elim m [ ]
mem-insert_tail u t (x ∷ xs) m = elim (Bool-cases (int_ltb t.version x.version)) [
  | inl e ↦ rw e (Memᴰ.tail m)
  | inr e ↦
      rw e
        (elim m [ Memᴰ.head h ↦ Memᴰ.head h | Memᴰ.tail h ↦ Memᴰ.tail (mem-insert_tail u t xs h) ])
]

insert-cases :
    (u t x : TufTarget) (xs : List TufTarget)
    → (Memᴰ u (insert t xs) → (u ≡ t) ⊎ Memᴰ u xs)
    → (b : Bool) → Memᴰ u (if b then t ∷ x ∷ xs else x ∷ insert t xs)
    → (u ≡ t) ⊎ Memᴰ u (x ∷ xs)
insert-cases u t x xs ih true (Memᴰ.head e) = inl e
insert-cases u t x xs ih true (Memᴰ.tail m) = inr m
insert-cases u t x xs ih false (Memᴰ.head e) = inr (Memᴰ.head e)
insert-cases u t x xs ih false (Memᴰ.tail m) = elim (ih m) [
  | inl e ↦ inl e
  | inr k ↦ inr (Memᴰ.tail k)
]

mem_of_insert : (u t : TufTarget) (xs : List TufTarget) → Memᴰ u (insert t xs) → (u ≡ t) ⊎ Memᴰ u xs
unfolding insert
mem_of_insert u t [] (Memᴰ.head e) = inl e
mem_of_insert u t [] (Memᴰ.tail m) = inr m
mem_of_insert u t (x ∷ xs) m =
    insert-cases u t x xs (mem_of_insert u t xs) (int_ltb t.version x.version) m

All-insert :
    (x t : TufTarget) (xs : List TufTarget)
    → NotOlder t x
    → All (λ u. NotOlder u x) xs
    → All (λ u. NotOlder u x) (insert t xs)
unfolding insert
All-insert x t [] p h = (p, tt)
All-insert x t (y ∷ ys) p h = elim (Bool-cases (int_ltb t.version y.version)) [
  | inl e ↦ rw e (p, h)
  | inr e ↦ rw e (h.0, All-insert x t ys p h.1)
]

All-older :
    (t x : TufTarget) (xs : List TufTarget)
    → int_ltb t.version x.version ≡ true
    → All (λ u. NotOlder u x) xs
    → All (λ u. NotOlder u t) xs
All-older t x [] e h = tt
All-older t x (y ∷ ys) e h =
    (int_leb_trans t.version x.version y.version e h.0, All-older t x ys e h.1)

insert-IsSorted : (t : TufTarget) (xs : List TufTarget) → IsSorted xs → IsSorted (insert t xs)
unfolding insert
insert-IsSorted t [] h = (tt, tt)
insert-IsSorted t (x ∷ xs) h = elim (Bool-cases (int_ltb t.version x.version)) [
  | inl e ↦ rw e ((int_ltb_asym t.version x.version e, All-older t x xs e h.0), h)
  | inr e ↦ rw e (All-insert x t xs e h.0, insert-IsSorted t xs h.1)
]

sort-IsSorted : (ts : List TufTarget) → IsSorted (sort ts)
unfolding sort
sort-IsSorted [] = tt
sort-IsSorted (x ∷ xs) = insert-IsSorted x (sort xs) (sort-IsSorted xs)

mem-sort : (t : TufTarget) (ts : List TufTarget) → Memᴰ t ts → Memᴰ t (sort ts)
unfolding sort
mem-sort t [] m = elim m [ ]
mem-sort t (x ∷ xs) (Memᴰ.head e) = rw e (mem-insert_head x (sort xs))
mem-sort t (x ∷ xs) (Memᴰ.tail m) = mem-insert_tail t x (sort xs) (mem-sort t xs m)

mem_of_sort : (t : TufTarget) (ts : List TufTarget) → Memᴰ t (sort ts) → Memᴰ t ts
unfolding sort
mem_of_sort t [] m = elim m [ ]
mem_of_sort t (x ∷ xs) m = elim (mem_of_insert t x (sort xs) m) [
  | inl e ↦ Memᴰ.head e
  | inr k ↦ Memᴰ.tail (mem_of_sort t xs k)
]

pub sort-Sorts : Sorts sort
sort-Sorts = record { same = mem-sort; only = mem_of_sort; sorted = sort-IsSorted }

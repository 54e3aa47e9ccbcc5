-- ===== src/Prelude/Membership.antt =====
-- Membership in the lists that `keep` leaves.
use mathlib.Core.Path.{◌≡◌, refl, sym, subst}
use mathlib.Core.Logic.{◌⊎◌, inl, inr}
use mathlib.Core.Bool.{Bool, true, false}
use mathlib.Core.List.{List, [], ◌∷◌, ◌++◌, map, Memᴰ}
use aktualizr_lite.Prelude.Tests.{Bool-cases, if◌then◌else◌}
use aktualizr_lite.Prelude.Lists.{All, keep}

pub All-mem {ℓ κ} : {A : Type ℓ} (P : A → Type κ) (a : A) (xs : List A) → Memᴰ a xs → All P xs → P a
All-mem P a [] m h = elim m [ ]
All-mem P a (x ∷ xs) (Memᴰ.head e) h = subst P (sym e) h.0
All-mem P a (x ∷ xs) (Memᴰ.tail m) h = All-mem P a xs m h.1

module _ {ℓ} {A : Type ℓ} (p : A → Bool) where
  pub mem-keep : (a : A) (xs : List A) → Memᴰ a xs → p a ≡ true → Memᴰ a (keep p xs)
  mem-keep a [] m h = elim m [ ]
  mem-keep a (x ∷ xs) (Memᴰ.head e) h = rw (subst (λ u. p u ≡ true) e h) (Memᴰ.head e)
  mem-keep a (x ∷ xs) (Memᴰ.tail m) h = elim (Bool-cases (p x)) [
    | inl e ↦ rw e (Memᴰ.tail (mem-keep a xs m h))
    | inr e ↦ rw e (mem-keep a xs m h)
  ]

  kept_cases :
      (a x : A) (xs : List A)
      → ((Memᴰ a (keep p xs)) → Memᴰ a xs × (p a ≡ true))
      → (b : Bool) → p x ≡ b
      → Memᴰ a (if b then x ∷ keep p xs else keep p xs)
      → Memᴰ a (x ∷ xs) × (p a ≡ true)
  kept_cases a x xs ih true e (Memᴰ.head h) = (Memᴰ.head h, subst (λ u. p u ≡ true) (sym h) e)
  kept_cases a x xs ih true e (Memᴰ.tail h) = let r = ih h in (Memᴰ.tail r.0, r.1)
  kept_cases a x xs ih false e h = let r = ih h in (Memᴰ.tail r.0, r.1)

  pub mem_of_keep : (a : A) (xs : List A) → Memᴰ a (keep p xs) → Memᴰ a xs × (p a ≡ true)
  mem_of_keep a [] m = elim m [ ]
  mem_of_keep a (x ∷ xs) m = kept_cases a x xs (mem_of_keep a xs) (p x) refl m

pub All-map {ℓ κ μ} :
    {A : Type ℓ} (P : A → Type κ) (Q : A → Type μ) (xs : List A)
    → ((a : A) → P a → Q a)
    → All P xs
    → All Q xs
All-map P Q [] f h = tt
All-map P Q (x ∷ xs) f h = (f x h.0, All-map P Q xs f h.1)

pub mem_of_append {ℓ} :
    {A : Type ℓ} (a : A) (xs ys : List A) → Memᴰ a (xs ++ ys) → Memᴰ a xs ⊎ Memᴰ a ys
mem_of_append a [] ys m = inr m
mem_of_append a (x ∷ xs) ys (Memᴰ.head e) = inl (Memᴰ.head e)
mem_of_append a (x ∷ xs) ys (Memᴰ.tail m) = elim (mem_of_append a xs ys m) [
  | inl h ↦ inl (Memᴰ.tail h)
  | inr h ↦ inr h
]

pub mem_of_map {ℓ κ} :
    {A : Type ℓ} {B : Type κ} (f : A → B) (b : B) (xs : List A)
    → Memᴰ b (map f xs)
    → (a : A) × Memᴰ a xs × (b ≡ f a)
mem_of_map f b [] m = elim m [ ]
mem_of_map f b (x ∷ xs) (Memᴰ.head e) = (x, Memᴰ.head refl, e)
mem_of_map f b (x ∷ xs) (Memᴰ.tail m) = let (a, h, e) = mem_of_map f b xs m in (a, Memᴰ.tail h, e)

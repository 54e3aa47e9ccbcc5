-- ===== src/Prelude/Tests.antt =====
-- Boolean tests: the conditional, orders on the native numbers, and equality as an instance.
use Prim.Native.Nat.{ℕ, compare, Ordering}
use Prim.Native.String.{String}
use mathlib.Core.Path.{◌≡◌, refl, sym}
use mathlib.Core.Logic.{◌↔◌, ◌⊎◌, inl, inr}
use mathlib.Core.Bool.{Bool, true, false, ◌||◌}
use mathlib.Core.List.{List, [], ◌∷◌}
use mathlib.Core.Option.{Option, none, some}
use native.Mathlib.Omega.{arith}
use text.Mathlib.Text.{◌==◌ as text_beq}
use text.Mathlib.TextEquality.{eq_iff}

infix 1 if◌then◌else◌
abbrev pub if◌then◌else◌ {ℓ} : {A : Type ℓ} → Bool → A → A → A
if true then x else y = x
if false then x else y = y

abbrev pub ltb : ℕ → ℕ → Bool
ltb a b = elim (compare a b) [ Ordering.lt ↦ true | _ ↦ false ]

abbrev pub leb : ℕ → ℕ → Bool
leb a b = elim (compare a b) [ Ordering.gt ↦ false | _ ↦ true ]

abbrev pub nat_beq : ℕ → ℕ → Bool
nat_beq a b = elim (compare a b) [ Ordering.eq ↦ true | _ ↦ false ]

pub nat_beq_iff : (a b : ℕ) → (nat_beq a b ≡ true) ↔ (a ≡ b)
nat_beq_iff a b = ground arith

-- The types that C++ code of the repository compares by `==`: the test, and what it decides.
pub record Comparable {ℓ} (T : Type ℓ) : Type ℓ where
  pub same : T → T → Bool
  pub decides : (x y : T) → (same x y ≡ true) ↔ (x ≡ y)

instance abbrev pub string_eq : Comparable String
string_eq = record { same = text_beq; decides = eq_iff }

infix 50 ◌==◌
abbrev pub ◌==◌ {κ} : {T : Type κ} ⦃c : Comparable T⦄ → T → T → Bool
◌==◌ ⦃c⦄ x y = c.same x y

instance abbrev pub nat_eq : Comparable ℕ
nat_eq = record { same = nat_beq; decides = nat_beq_iff }

pub Bool-cases : (b : Bool) → (b ≡ true) ⊎ (b ≡ false)
Bool-cases true = inl refl
Bool-cases false = inr refl

pub Option-cases {ℓ} : {A : Type ℓ} (o : Option A) → (o ≡ none) ⊎ ((a : A) × (o ≡ some a))
Option-cases none = inl refl
Option-cases (some a) = inr (a, refl)

-- `std::string::empty()`.
abbrev pub is_empty : String → Bool
is_empty s = text_beq s ""

pub false-ne-true : ¬ (false ≡ true)
false-ne-true e = ground (arith, e)

-- `std::find(…) != end()`.
module _ {ℓ} {A : Type ℓ} ⦃e : Comparable A⦄ where
  abbrev pub contains : List A → A → Bool
  contains [] a = false
  contains (x ∷ xs) a = e.same x a || contains xs a

-- The branch that a conditional takes.
module _ {ℓ} {A : Type ℓ} where
  pub if_true : (b : Bool) (x y z : A) → b ≡ true → (if b then x else y) ≡ z → x ≡ z
  if_true true x y z e h = h
  if_true false x y z e h = elim (false-ne-true e) [ ]

  pub if_false : (b : Bool) (x y z : A) → b ≡ false → (if b then x else y) ≡ z → y ≡ z
  if_false false x y z e h = h
  if_false true x y z e h = elim (false-ne-true (sym e)) [ ]

-- ===== src/Prelude/Options.antt =====
-- Options as the results of code that may throw.
use mathlib.Core.Path.{◌≡◌, refl}
use mathlib.Core.Bool.{Bool, true, false}
use mathlib.Core.Option.{Option, none, some, none-ne-some}
use aktualizr_lite.Prelude.Tests.{if◌then◌else◌}

infixl 10 ◌>>=◌
abbrev pub ◌>>=◌ {ℓ κ} : {A : Type ℓ} {B : Type κ} → Option A → (A → Option B) → Option B
none >>= f = none
some a >>= f = f a

pub none_not_some {ℓ κ} : {A : Type ℓ} {C : Type κ} {a : A} → none ≡ some a → C
none_not_some e = elim (none-ne-some _ e) [ ]

-- What a chain that gives something went through.
pub some_of_bind {ℓ κ} :
    {A : Type ℓ} {B : Type κ} (o : Option A) (f : A → Option B) (b : B)
    → (o >>= f) ≡ some b
    → (a : A) × (o ≡ some a) × (f a ≡ some b)
some_of_bind none f b e = none_not_some e
some_of_bind (some a) f b e = (a, refl, e)

-- A check that must fail for something to be given.
pub some_unless {ℓ} :
    {A : Type ℓ} (b : Bool) (o : Option A) (a : A)
    → (if b then none else o) ≡ some a
    → (b ≡ false) × (o ≡ some a)
some_unless true o a e = none_not_some e
some_unless false o a e = (refl, e)

-- ===== src/Prelude/Stoi.antt =====
-- `std::stoi(s, nullptr, 0)`: white space, a sign, the base by its prefix, and digits up to the first
-- other character. `none` is `std::invalid_argument`. The range of `int` is not bounded here.
use Prim.Native.Nat.{ℕ, zero, suc, ◌+◌, ◌-◌, ◌*◌}
use Prim.Native.Char.{code}
use Prim.Native.String.{String}
use mathlib.Core.Bool.{Bool, ◌&&◌, ◌||◌}
use mathlib.Core.Option.{Option, none, some}
use mathlib.Core.List.{List, [], ◌∷◌}
use aktualizr_lite.Prelude.Tests.{if◌then◌else◌, leb, ltb, nat_beq}
use aktualizr_lite.Prelude.Int.{negsuc, pos, ℤ}

abbrev pub codes : String → List ℕ
codes String.[] = []
codes (String.◌∷◌ c s) = code c ∷ codes s

is_space : ℕ → Bool
is_space c = nat_beq c 32 || leb 9 c && leb c 13

skip_spaces : List ℕ → List ℕ
skip_spaces [] = []
skip_spaces (c ∷ cs) = if is_space c then skip_spaces cs else c ∷ cs

digit : ℕ → Option ℕ
digit c =
    if leb b'0' c && leb c b'9'
    then some (c - b'0')
    else if leb b'a' c && leb c b'z'
    then some (c - b'a' + 10)
    else if leb b'A' c && leb c b'Z'
    then some (c - b'A' + 10)
    else none

-- The digit, if it is one in the base.
digit_in : ℕ → ℕ → Option ℕ
unfolding digit
digit_in base c = elim (digit c) [ none ↦ none | some d ↦ if ltb d base then some d else none ]

-- The value of the digits after those read.
digits_from : ℕ → ℕ → List ℕ → ℕ
digits_from base acc [] = acc
digits_from base acc (c ∷ cs) = elim (digit_in base c) [
  | none ↦ acc
  | some d ↦ digits_from base (acc * base + d) cs
]

number_in : ℕ → List ℕ → Option ℕ
unfolding digit_in digits_from
number_in base [] = none
number_in base (c ∷ cs) = elim (digit_in base c) [
  | none ↦ none
  | some d ↦ some (digits_from base d cs)
]

-- After `0x` the digits are hexadecimal, if there are any; after another `0` octal.
after_zero : List ℕ → Option ℕ
unfolding number_in
after_zero [] = some 0
after_zero (c ∷ cs) =
    if nat_beq c b'x' || nat_beq c b'X'
    then elim (number_in 16 cs) [ none ↦ some 0 | some n ↦ some n ]
    else some (digits_from 8 0 (c ∷ cs))

magnitude : List ℕ → Option ℕ
unfolding after_zero
magnitude [] = none
magnitude (c ∷ cs) = if nat_beq c b'0' then after_zero cs else number_in 10 (c ∷ cs)

abbrev negate : ℕ → ℤ
negate zero = pos 0
negate (suc n) = negsuc n

-- A sign, and digits that are read by a function.
signed : (List ℕ → Option ℕ) → List ℕ → Option ℤ
signed read [] = none
signed read (c ∷ cs) =
    if nat_beq c b'-'
    then elim (read cs) [ none ↦ none | some n ↦ some (negate n) ]
    else if nat_beq c b'+'
    then elim (read cs) [ none ↦ none | some n ↦ some (pos n) ]
    else elim (read (c ∷ cs)) [ none ↦ none | some n ↦ some (pos n) ]

unfoldable pub stoi : String → Option ℤ
unfolding signed magnitude skip_spaces is_space
stoi s = signed magnitude (skip_spaces (codes s))

-- `std::stoi(s)`, in base 10.
unfoldable pub stoi_decimal : String → Option ℤ
unfolding signed number_in skip_spaces is_space
stoi_decimal s = signed (number_in 10) (skip_spaces (codes s))

-- ===== src/Prelude/Show.antt =====
-- `std::to_string` of an `int`.
use Prim.Native.Nat.{ℕ, zero, suc, ◌/◌, ◌%◌}
use Prim.Native.String.{String, ◌++◌}
use aktualizr_lite.Prelude.Tests.{if◌then◌else◌, ltb, nat_beq}
use aktualizr_lite.Prelude.Int.{negsuc, pos, ℤ}

abbrev digit_text : ℕ → String
digit_text d =
    if nat_beq d 0
    then "0"
    else if nat_beq d 1
    then "1"
    else if nat_beq d 2
    then "2"
    else if nat_beq d 3
    then "3"
    else if nat_beq d 4
    then "4"
    else if nat_beq d 5
    then "5"
    else if nat_beq d 6
    then "6"
    else if nat_beq d 7
    then "7"
    else if nat_beq d 8
    then "8"
    else "9"

-- The fuel bounds the number of digits, and a number has no more digits than one more than itself.
show_nat : ℕ → ℕ → String
show_nat zero n = ""
show_nat (suc fuel) n =
    let rest = show_nat fuel (n / 10) in
    if ltb n 10 then digit_text n else rest ++ digit_text (n % 10)

unfoldable pub to_string : ℤ → String
unfolding show_nat
to_string (pos n) = show_nat (suc n) n
to_string (negsuc n) = "-" ++ show_nat (suc (suc n)) (suc n)

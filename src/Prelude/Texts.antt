-- ===== src/Prelude/Texts.antt =====
-- Lemmas on texts: what stands at the beginning of a text is found there, and can be erased.
use Prim.Native.Nat.{ℕ, ◌+◌}
use Prim.Native.String.{String, ◌++◌ as ◌<>◌, len}
use mathlib.Core.Path.{◌≡◌, refl, ap, ◌∙◌}
use mathlib.Core.Option.{some}
use native.Mathlib.Omega.{arith}
use Prim.Native.Char.{Char, code, len_utf8}
use Prim.Native.Nat.{compare}
use Prim.Native.String.{slice, begins, same, find}
use Prim.Native.String.append
use Prim.Native.String.find
use text.Mathlib.TextPositions.{compare_self, slice-append_right, slice-zero-zero, len-append}
use text.Mathlib.Text.{find?, when, is_le}

begins-append : (t v : String) (y n : ℕ) → begins (t <> v) t y n ≡ y
begins-append String.[] v y n = refl
begins-append (String.◌∷◌ c t) v y n =
    ap (λ u. begins u (String.◌∷◌ c t) y n) (append.cons c t v)
    ∙ ap (λ o. same o (begins (t <> v) t y n) n) (compare_self (code c))
    ∙ begins-append t v y n

pub find-append : (c : Char) (t v : String) → find (String.◌∷◌ c t <> v) (String.◌∷◌ c t) ≡ 0
find-append c t v =
    let n = len_utf8 c + find (t <> v) (String.◌∷◌ c t) in
    ap (λ u. find u (String.◌∷◌ c t)) (append.cons c t v)
    ∙ find.cons c (t <> v) (String.◌∷◌ c t)
    ∙ ap (λ o. same o (begins (t <> v) t 0 n) n) (compare_self (code c))
    ∙ begins-append t v 0 n

found_at_zero : (k n : ℕ) → k ≡ 0 → when (is_le (compare k n)) k ≡ some 0
found_at_zero k n e = ground (arith, e)

-- A text is found at the beginning of one that begins with it.
pub find?-append : (c : Char) (t v : String) → find? (String.◌∷◌ c t <> v) (String.◌∷◌ c t) ≡ some 0
find?-append c t v = found_at_zero _ (len (String.◌∷◌ c t <> v)) (find-append c t v)

-- What is left of a text when its first part is erased.
pub erase-append :
    (t v : String) (n : ℕ) → n ≡ len t → slice (t <> v) 0 0 <> slice (t <> v) n (len (t <> v)) ≡ v
erase-append t v n e =
    ap (λ u. u <> slice (t <> v) n (len (t <> v))) (slice-zero-zero (t <> v))
    ∙ append.nil (slice (t <> v) n (len (t <> v)))
    ∙ ap (λ k. slice (t <> v) k (len (t <> v))) e
    ∙ ap (λ k. slice (t <> v) (len t) k) (len-append t v)
    ∙ slice-append_right t v

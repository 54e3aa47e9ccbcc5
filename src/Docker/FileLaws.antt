-- ===== src/Docker/FileLaws.antt =====
-- The bytes of a file after a write, up to a position.
use mathlib.Core.List.{append-nil}
use aktualizr_lite.Docker.Stream.{overwrite}
use aktualizr_lite.Prelude.{
  List, [], ap, arith, length, refl, suc, sym, take, zero, ℕ, ◌++◌, ◌+◌, ◌∙◌, ◌∷◌, ◌≡◌, ◌≤◌,
}

pub length-overwrite :
    (file : List ℕ) (at : ℕ) (bytes : List ℕ) (m : ℕ)
    → length file ≤ m
    → at + length bytes ≤ m
    → length (overwrite file at bytes) ≤ m
unfolding overwrite
length-overwrite file at [] m h k = h
length-overwrite [] zero (y ∷ ys) m h k = omega (arith, k)
length-overwrite [] (suc n) (y ∷ ys) zero h k = absurd (omega (arith, k))
length-overwrite [] (suc n) (y ∷ ys) (suc m) h k =
    omega (arith, length-overwrite [] n (y ∷ ys) m (omega arith) (omega (arith, k)))
length-overwrite (x ∷ file) zero (y ∷ ys) zero h k = absurd (omega (arith, h))
length-overwrite (x ∷ file) zero (y ∷ ys) (suc m) h k =
    omega (arith, length-overwrite file zero ys m (omega (arith, h)) (omega (arith, k)))
length-overwrite (x ∷ file) (suc n) (y ∷ ys) zero h k = absurd (omega (arith, h))
length-overwrite (x ∷ file) (suc n) (y ∷ ys) (suc m) h k =
    omega (arith, length-overwrite file n (y ∷ ys) m (omega (arith, h)) (omega (arith, k)))

pub le-length-overwrite :
    (file : List ℕ) (at : ℕ) (bytes : List ℕ)
    → at ≤ length file
    → at + length bytes ≤ length (overwrite file at bytes)
unfolding overwrite
le-length-overwrite file at [] h = omega (arith, h)
le-length-overwrite [] zero (y ∷ ys) h = omega arith
le-length-overwrite [] (suc n) (y ∷ ys) h = absurd (omega (arith, h))
le-length-overwrite (x ∷ file) zero (y ∷ ys) h =
    omega (arith, le-length-overwrite file zero ys (omega arith))
le-length-overwrite (x ∷ file) (suc n) (y ∷ ys) h =
    omega (arith, le-length-overwrite file n (y ∷ ys) (omega (arith, h)))

pub take_self : (xs : List ℕ) (k : ℕ) → length xs ≤ k → take k xs ≡ xs
take_self [] zero h = refl
take_self [] (suc k) h = refl
take_self (x ∷ xs) zero h = absurd (omega (arith, h))
take_self (x ∷ xs) (suc k) h = ap (λ l. x ∷ l) (take_self xs k (omega (arith, h)))

pub take-overwrite :
    (file : List ℕ) (at : ℕ) (bytes : List ℕ) (k : ℕ)
    → at ≤ length file
    → k ≡ at + length bytes
    → take k (overwrite file at bytes) ≡ take at file ++ bytes
unfolding overwrite
take-overwrite file at [] k h e =
    ap (λ n. take n file) (e ∙ omega arith) ∙ sym (append-nil (take at file))
take-overwrite [] zero (y ∷ ys) zero h e = absurd (omega (arith, e))
take-overwrite [] zero (y ∷ ys) (suc k) h e = ap (λ l. y ∷ l) (take_self ys k (omega (arith, e)))
take-overwrite [] (suc n) (y ∷ ys) k h e = absurd (omega (arith, h))
take-overwrite (x ∷ file) zero (y ∷ ys) zero h e = absurd (omega (arith, e))
take-overwrite (x ∷ file) zero (y ∷ ys) (suc k) h e =
    ap (λ l. y ∷ l) (take-overwrite file zero ys k (omega arith) (omega (arith, e)))
take-overwrite (x ∷ file) (suc n) (y ∷ ys) zero h e = absurd (omega (arith, e))
take-overwrite (x ∷ file) (suc n) (y ∷ ys) (suc k) h e =
    ap (λ l. x ∷ l) (take-overwrite file n (y ∷ ys) k (omega (arith, h)) (omega (arith, e)))

pub length-take_le : (n : ℕ) (xs : List ℕ) → length (take n xs) ≤ length xs
length-take_le zero xs = omega arith
length-take_le (suc n) [] = omega arith
length-take_le (suc n) (x ∷ xs) = omega (arith, length-take_le n xs)

-- ===== src/Docker/Find.antt =====
-- The first place of a character in a text, where what comes before it lacks the character.
use aktualizr_lite.Prelude.{
  Bool, String, ap, arith, false, false-ne-true, int_eq, len, nat_eq, not, refl, some, string_eq,
  sym, true, ℕ, ◌&&◌, ◌+◌, ◌<>◌, ◌==◌, ◌∙◌, ◌≡◌, ◌≤◌,
}
use Prim.Native.Char.{Char, code, len_utf8}
use Prim.Native.Nat.{compare, Ordering}
use Prim.Native.String.{slice, same, find}
use Prim.Native.String.append
use Prim.Native.String.find
use Prim.Native.String.len
use aktualizr_lite.Prelude.Texts.{find-append}
use text.Mathlib.Text.{find?, when, is_le}
use text.Mathlib.TextPositions.{len-append}

-- Whether a text has no character of a code.
abbrev pub lacks_char : ℕ → String → Bool
lacks_char c String.[] = true
lacks_char c (String.◌∷◌ d s) = not (code d == c) && lacks_char c s

abbrev pub one : Char → String
one d = String.◌∷◌ d String.[]

same_unless_eq :
    (o : Ordering) (a n : ℕ)
    → not (elim o [ Ordering.eq ↦ true | _ ↦ false ]) ≡ true
    → same o a n ≡ n
same_unless_eq Ordering.lt a n h = refl
same_unless_eq Ordering.eq a n h = elim (false-ne-true h) [ ]
same_unless_eq Ordering.gt a n h = refl

pub and_parts : (a b : Bool) → (a && b) ≡ true → (a ≡ true) × (b ≡ true)
and_parts true b h = (refl, h)
and_parts false b h = elim (false-ne-true h) [ ]

and_both : (a b : Bool) → a ≡ true → b ≡ true → (a && b) ≡ true
and_both true b h k = k
and_both false b h k = elim (false-ne-true h) [ ]

find-one :
    (d : Char) (u v : String)
    → lacks_char (code d) u ≡ true
    → find (u <> (one d <> v)) (one d) ≡ len u
find-one d String.[] v h =
    ap (λ w. find w (one d)) (append.nil (one d <> v)) ∙ find-append d String.[] v ∙ sym len.nil
find-one d (String.◌∷◌ c u) v h =
    let (n, r) = and_parts (not (code c == code d)) (lacks_char (code d) u) h in
    let w = u <> (one d <> v) in
    ap (λ x. find x (one d)) (append.cons c u (one d <> v))
    ∙ find.cons c w (one d)
    ∙ same_unless_eq (compare (code c) (code d)) 0 (len_utf8 c + find w (one d)) n
    ∙ ap (λ k. len_utf8 c + k) (find-one d u v r)
    ∙ sym (len.cons c u)

found_at : (k n m : ℕ) → k ≡ n → n ≤ m → when (is_le (compare k m)) k ≡ some n
found_at k n m e h = ground (arith, e, h)

pub find?-one :
    (d : Char) (u v : String)
    → lacks_char (code d) u ≡ true
    → find? (u <> (one d <> v)) (one d) ≡ some (len u)
find?-one d u v h =
    let l = len-append u (one d <> v) in
    found_at _ (len u) (len (u <> (one d <> v))) (find-one d u v h) (omega (arith, l))

pub lacks_char-append :
    (c : ℕ) (u v : String)
    → lacks_char c u ≡ true
    → lacks_char c v ≡ true
    → lacks_char c (u <> v) ≡ true
lacks_char-append c String.[] v h k = ap (lacks_char c) (append.nil v) ∙ k
lacks_char-append c (String.◌∷◌ d u) v h k =
    let (n, r) = and_parts (not (code d == c)) (lacks_char c u) h in
    let t = lacks_char-append c u v r k in ap (lacks_char c) (append.cons d u v) ∙ and_both _ _ n t

pub slice_between : (s : String) {a b x y : ℕ} → a ≡ x → b ≡ y → slice s a b ≡ slice s x y
slice_between s e k = rw (e, k) refl

-- ===== src/Docker/AuthLaws.antt =====
-- The loop over the parameters of a challenge ends.
use mathlib.Core.Option.{some-injective}
use mathlib.Core.Option
use Prim.Native.Char.{Char, code}
use aktualizr_lite.Docker.Auth.{
  Params, all_spaces, bearer_params, chars, next_param, quoted_value, split_first, unless_some,
  with_char,
}
use aktualizr_lite.Prelude.{
  Bool, Bool-cases, Option, Option-cases, String, ap, arith, false, if_false, if_true,
  if◌then◌else◌, inl, inr, int_eq, nat_eq, none, none_not_some, not, refl, some, some_of_bind,
  string_eq, subst, suc, sym, true, zero, ℕ, ◌<◌, ◌==◌, ◌>>=◌, ◌∷◌, ◌≡◌, ◌≢◌,
}

with_char-chars :
    (c : Char) (o : Option (String × String)) (a b : String) (n : ℕ)
    → ((x y : String) → o ≡ some (x, y) → chars y < n)
    → with_char c o ≡ some (a, b)
    → chars b < suc n
with_char-chars c none a b n ih e = none_not_some e
with_char-chars c (some (x, y)) a b n ih e =
    let same = ap (λ p. p.1) (some-injective _ _ e) in
    let less = ih x y refl in subst (λ t. chars t < suc n) same (omega (arith, less))

split_first-chars : (n : ℕ) (s a b : String) → split_first n s ≡ some (a, b) → chars b < chars s
unfolding split_first
split_first-chars n String.[] a b e = none_not_some e
split_first-chars n (String.◌∷◌ c s) a b e = elim (Bool-cases (code c == n)) [
  | inl t ↦
      subst (λ x. chars x < suc (chars s))
        (ap (λ p. p.1) (some-injective _ _ (if_true _ _ _ _ t e))) (omega arith)
  | inr f ↦
      with_char-chars c (split_first n s) a b (chars s) (split_first-chars n s)
        (if_false _ _ _ _ f e)
]

behind_chars :
    (o : Option (String × String)) (rest : String) (n : ℕ)
    → ((x y : String) → o ≡ some (x, y) → chars y < n)
    → Option.map (λ q. q.1) o ≡ some rest
    → chars rest < n
behind_chars none rest n h e = none_not_some e
behind_chars (some (x, y)) rest n h e = subst (λ t. chars t < n) (some-injective _ _ e) (h x y refl)

quoted_value-chars :
    (quoted value rest : String)
    → quoted_value quoted ≡ some (value, some rest)
    → chars rest < chars quoted
unfolding quoted_value
quoted_value-chars quoted value rest e =
    let ((v, behind), k, e1) = some_of_bind (split_first b'"' quoted) _ _ e in
    let l = split_first-chars b'"' quoted v behind k in
    let m =
      behind_chars (split_first b',' behind) rest (chars behind) (split_first-chars b',' behind)
        (ap (λ p. p.1) (some-injective _ _ e1)) in
    omega (arith, l, m)

unless_some_cases :
    {A B : Type 0} (o : Option A) (r : Option B) (b : B) → unless_some o r ≡ some b → r ≡ some b
unless_some_cases none r b e = e
unless_some_cases (some a) r b e = none_not_some e

not_refused :
    {A : Type 0} (t : Bool) (o : Option A) (a : A)
    → (if not t then none else o) ≡ some a
    → o ≡ some a
not_refused true o a e = e
not_refused false o a e = none_not_some e

next_param-chars :
    (name after_eq value rest : String)
    → next_param name after_eq ≡ some (value, some rest)
    → chars rest < chars after_eq
unfolding next_param
next_param-chars name after_eq value rest e =
    let values : Option (String × Option String) =
      split_first b'"' after_eq >>= λ p. if not (all_spaces p.0) then none else quoted_value p.1 in
    let (p, k, e1) =
      some_of_bind (split_first b'"' after_eq)
        (λ p. if not (all_spaces p.0) then none else quoted_value p.1) (value, some rest)
        (unless_some_cases (split_first b'"' name) values (value, some rest) e) in
    let l = split_first-chars b'"' after_eq p.0 p.1 k in
    let m =
      quoted_value-chars p.1 value rest (not_refused (all_spaces p.0) (quoted_value p.1) _ e1) in
    omega (arith, l, m)

-- With fuel for its text, the loop does not run out of it, whatever the text.
pub bearer_params-ne-none :
    (trim : String → String) (fuel : ℕ) (text : String) (params : Params)
    → chars text < fuel
    → bearer_params trim fuel text params ≢ none
unfolding bearer_params
bearer_params-ne-none trim zero text params h e = elim h [ ]
bearer_params-ne-none trim (suc fuel) text params h e =
    elim (Option-cases (split_first b'=' text)) [
      | inl k ↦ none_not_some (sym (rw (k, bearer_params) at e))
      | inr ((name, after_eq), k) ↦
          let l = split_first-chars b'=' text name after_eq k in
          let e1 = rw (k, bearer_params) at e in
          elim (Option-cases (next_param name after_eq)) [
            | inl n ↦ none_not_some (sym (rw n at e1))
            | inr ((value, none), n) ↦ none_not_some (sym (rw n at e1))
            | inr ((value, some rest), n) ↦
                let m = next_param-chars name after_eq value rest n in
                bearer_params-ne-none trim fuel rest ((trim name, trim value) ∷ params)
                  (omega (arith, h, l, m)) (rw n at e1)
          ]
    ]

-- ===== src/Updates/LogLaws.antt =====
-- Which targets `isRollback` of src/liteclient.cc calls failing.
use aktualizr_lite.Target.{UptaneTarget}
use aktualizr_lite.Updates.Log.{
  Platform, any_from_end, has_name, is_failing, is_hash_of, known_but_not_installed,
  known_local_target,
}
use aktualizr_lite.Prelude.{
  Bool, Bool-cases, List, Memᴰ, String, [], ap, arith, false, inl, inr, int_eq, keep, mem-keep,
  mem_of_keep, nat_eq, not, refl, string_eq, true, ◌&&◌, ◌==◌, ◌↔◌, ◌∷◌, ◌≡◌,
}

any_from_end-mem {ℓ} :
    {A : Type ℓ} (p : A → Bool) (x : A) (xs : List A)
    → Memᴰ x xs
    → p x ≡ true
    → any_from_end p xs ≡ true
any_from_end-mem p x [] m h = elim m [ ]
any_from_end-mem p x (y ∷ ys) (Memᴰ.head e) h = let e' = ap p e in ground (arith, h, e')
any_from_end-mem p x (y ∷ ys) (Memᴰ.tail m) h = let ih = any_from_end-mem p x ys m h in ground arith

mem_of_any_from_end {ℓ} :
    {A : Type ℓ} (p : A → Bool) (xs : List A)
    → any_from_end p xs ≡ true
    → (x : A) × Memᴰ x xs × (p x ≡ true)
mem_of_any_from_end p [] h = ground arith
mem_of_any_from_end p (x ∷ xs) h = elim (Bool-cases (p x)) [
  | inl good ↦ (x, Memᴰ.head refl, good)
  | inr bad ↦
      let (y, m, e) = mem_of_any_from_end p xs (ground (arith, bad, h)) in (y, Memᴰ.tail m, e)
]

module _ (P : Platform) where
  -- A version of the name that was recorded, was never installed, and is not the pending one.
  abbrev pub IsKnownBad : String → P.State → UptaneTarget → Type 0
  IsKnownBad name s u =
      Memᴰ u (P.known_versions s)
      × ((u.filename == name) ≡ true)
      × (has_name u.filename (P.all_installed s) ≡ false)
      × (is_hash_of (P.pending s) u ≡ false)

  -- A target is called failing exactly if a version of its name is in the log of the known versions,
  -- no version of that name was ever installed with success, and the version does not have the hash
  -- of the pending one.
  pub is_failing_iff :
      (t : UptaneTarget) (s : P.State)
      → (is_failing P t s ≡ true) ↔ ((u : UptaneTarget) × IsKnownBad t.filename s u)
  unfolding is_failing known_but_not_installed known_local_target
  is_failing_iff t s = (to, from)
    where
      test : UptaneTarget → Bool
      test it = it.filename == t.filename && not (is_hash_of (P.pending s) it)

      fresh : UptaneTarget → Bool
      fresh u = not (has_name u.filename (P.all_installed s))

      to : is_failing P t s ≡ true → (u : UptaneTarget) × IsKnownBad t.filename s u
      to h =
          let (u, m, e) = mem_of_any_from_end test (keep fresh (P.known_versions s)) h in
          let (known, f) = mem_of_keep fresh u (P.known_versions s) m in
          (u, (known, ground (arith, e), ground (arith, f), ground (arith, e)))

      from : (u : UptaneTarget) × IsKnownBad t.filename s u → is_failing P t s ≡ true
      from (u, (m, name, f, p)) =
          any_from_end-mem test u (keep fresh (P.known_versions s))
            (mem-keep fresh u (P.known_versions s) m (ground arith)) (ground arith)

-- ===== src/Main/Success.antt =====
-- What a program that ends with success has done.

use aktualizr_lite.Cli.Client.{Client}
use aktualizr_lite.Main.{
  Cmd, Options, Program, commands, config_of, main, or_failure, run_by_name, run_command, run_func,
}
use aktualizr_lite.Prelude.{
  Bool-cases, List, Memᴰ, Option, String, [], ap, arith, eq_iff, inl, inr, int_eq, nat_eq, none,
  none_not_some, refl, some, string_eq, sym, ℕ, ◌==◌, ◌∙◌, ◌∷◌, ◌≡◌,
}

module _ (K : Client) (P : Program K) where
  -- A command was run, on a client that was made for it, and ended with the exit code 0.
  abbrev pub Succeeds : List Cmd → String → Options → Type 0
  Succeeds cs name o =
      (c : Cmd) × (s : K.State) × Memᴰ c cs
      × (c.name ≡ name)
      × (P.make_client (config_of K P c) ≡ some s)
      × ((run_func K P c.func o s).0 ≡ some 0)

  run_command-some :
      (c : Cmd) (o : Options) (made : Option K.State)
      → P.make_client (config_of K P c) ≡ made
      → (run_command K P c o).0 ≡ some 0
      → (s : K.State) × (made ≡ some s) × ((run_func K P c.func o s).0 ≡ some 0)
  unfolding run_command
  run_command-some c o none e h =
      let r : run_command K P c o ≡ (none, none) = rw (run_command, e) refl in
      none_not_some (sym (ap (λ p. p.0) r) ∙ h)
  run_command-some c o (some s) e h =
      let r : (run_command K P c o).0 ≡ (run_func K P c.func o s).0 = rw (run_command, e) refl in
      (s, refl, sym r ∙ h)

  run_by_name-Succeeds :
      (cs : List Cmd) (name : String) (o : Options)
      → (run_by_name K P cs name o).0 ≡ some 0
      → Succeeds cs name o
  unfolding run_by_name
  run_by_name-Succeeds [] name o h = none_not_some h
  run_by_name-Succeeds (c ∷ cs) name o h = elim (Bool-cases (c.name == name)) [
    | inl e ↦
        let r : run_by_name K P (c ∷ cs) name o ≡ run_command K P c o = rw (run_by_name, e) refl in
        let (s, m, f) = run_command-some c o _ refl (sym (ap (λ p. p.0) r) ∙ h) in
        (c, s, Memᴰ.head refl, (eq_iff c.name name).0 e, m, f)
    | inr e ↦
        let r : run_by_name K P (c ∷ cs) name o ≡ run_by_name K P cs name o =
          rw (run_by_name, e) refl in
        let (c', s, m, n, k, f) = run_by_name-Succeeds cs name o (sym (ap (λ p. p.0) r) ∙ h) in
        (c', s, Memᴰ.tail m, n, k, f)
  ]

  zero_or_failure : (code : Option ℕ) → or_failure K P code ≡ 0 → code ≡ some 0
  zero_or_failure none e = ground (arith, e)
  zero_or_failure (some n) e = ap some e

  -- The program ends with the exit code 0 only if its command is one of the table, a client could be
  -- made with the configuration for it, and its function gave that code for this client. So it does not
  -- for another command, or after an exception.
  pub main-Succeeds :
      (name : String) (o : Options) → (main K P name o).0 ≡ 0 → Succeeds commands name o
  unfolding main
  main-Succeeds name o h = run_by_name-Succeeds commands name o (zero_or_failure _ h)

-- ===== src/Gateway/Rows.antt =====
-- internal/gateway/database.go: laws of the tables' rows, for the proofs.
use lucas.Base.{
  ℕ, Bool, true, false, String, List, [], ◌∷◌, ◌++◌, some, ◌≡◌, ◌⊎◌, inl, inr, refl, arith,
  if◌then◌else◌, Bool-cases,
}
use lucas.Gateway.Store.{good, bad, no_rows, Faults, Database, first_where, any_where}

module _ {A : Type 0} (p : A → Bool) where
  -- A row is found, or there is none.
  pub first_where-cases :
      (rows : List A)
      → ((first_where p rows ≡ bad no_rows) × (any_where p rows ≡ false))
        ⊎ ((a : A) × (first_where p rows ≡ good a) × (any_where p rows ≡ true) × (p a ≡ true))
  unfolding first_where any_where
  first_where-cases [] = inl (refl, refl)
  first_where-cases (a ∷ rows) = elim (Bool-cases (p a)) [
    | inl e ↦ inr (a, rw e, rw e, e)
    | inr e ↦ rw e (first_where-cases rows)
  ]

  pub any_where-append :
      (rows : List A) (a : A)
      → any_where p (rows ++ a ∷ []) ≡ (if any_where p rows then true else p a)
  unfolding any_where
  any_where-append [] a = ground arith
  any_where-append (b ∷ rows) a = ground (arith, any_where-append rows a)

-- Some statement fails.
abbrev pub Fails : Faults → Type 0
Fails faults = (n : ℕ) × (text : String) × (faults n ≡ some text)

-- The tables are the same, after some statements.
abbrev pub after : ℕ → Database → Database
after n d = record d { statements = n }

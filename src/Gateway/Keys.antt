-- ===== src/Gateway/Keys.antt =====
-- internal/gateway/database.go: the tables' keys, for lists of rows.
use lucas.Base.{
  ◌∙◌, ℕ, ◌+◌, ◌≤◌, ◌<◌, Bool, false, List, [], ◌∷◌, ◌++◌, ◌≡◌, refl, arith, Bool-cases, inl, inr,
}
use lucas.Gateway.Store.{update_where, delete_where, any_where}
use lucas.Gateway.Rows.{any_where-append}

any_where-agree :
    {A : Type 0} (p q : A → Bool) (rows : List A)
    → ((a : A) → p a ≡ q a)
    → any_where p rows ≡ any_where q rows
unfolding any_where
any_where-agree p q [] e = refl
any_where-agree p q (a ∷ rows) e = ground (arith, e a, any_where-agree p q rows e)

module _ {A : Type 0} (id : A → ℕ) where
  -- The row ids ascend between two numbers.
  abbrev pub Ascend : ℕ → ℕ → List A → Type 0
  Ascend lower last [] = lower ≤ last
  Ascend lower last (a ∷ rows) = (lower < id a) × Ascend (id a) last rows

  pub append-Ascend :
      (lower last : ℕ) (rows : List A) (a : A)
      → id a ≡ last + 1
      → Ascend lower last rows
      → Ascend lower (last + 1) (rows ++ a ∷ [])
  append-Ascend lower last [] a e h = ground arith
  append-Ascend lower last (b ∷ rows) a e h = (h.0, append-Ascend (id b) last rows a e h.1)

  pub update_where-Ascend :
      (p : A → Bool) (f : A → A) (lower last : ℕ) (rows : List A)
      → ((a : A) → id (f a) ≡ id a)
      → Ascend lower last rows
      → Ascend lower last (update_where p f rows)
  unfolding update_where
  update_where-Ascend p f lower last [] e h = h
  update_where-Ascend p f lower last (a ∷ rows) e h = elim (Bool-cases (p a)) [
    | inl t ↦ rw (t, e a) (h.0, update_where-Ascend p f (id a) last rows e h.1)
    | inr t ↦ rw t (h.0, update_where-Ascend p f (id a) last rows e h.1)
  ]

  lower-Ascend :
      (lower lower' last : ℕ) (rows : List A)
      → lower' ≤ lower
      → Ascend lower last rows
      → Ascend lower' last rows
  lower-Ascend lower lower' last [] le h = omega arith
  lower-Ascend lower lower' last (a ∷ rows) le h = (omega arith, h.1)

  pub delete_where-Ascend :
      (p : A → Bool) (lower last : ℕ) (rows : List A)
      → Ascend lower last rows
      → Ascend lower last (delete_where p rows)
  unfolding delete_where
  delete_where-Ascend p lower last [] h = h
  delete_where-Ascend p lower last (a ∷ rows) h = elim (Bool-cases (p a)) [
    | inl t ↦ rw t (
        lower-Ascend (id a) lower last (delete_where p rows) (omega arith)
          (delete_where-Ascend p (id a) last rows h.1))
    | inr t ↦ rw t (h.0, delete_where-Ascend p (id a) last rows h.1)
  ]

-- `same a b`: the two rows have the same key.
module _ {A : Type 0} (same : A → A → Bool) where
  abbrev pub Distinct : List A → Type 0
  Distinct [] = Unit
  Distinct (a ∷ rows) = (any_where (same a) rows ≡ false) × Distinct rows

  pub append-Distinct :
      (rows : List A) (a : A)
      → ((b : A) → same b a ≡ same a b)
      → any_where (same a) rows ≡ false
      → Distinct rows
      → Distinct (rows ++ a ∷ [])
  unfolding any_where
  append-Distinct [] a symm none_there h = (refl, tt)
  append-Distinct (b ∷ rows) a symm none_there h = (
    ground (arith, symm b, any_where-append (same b) rows a),
    append-Distinct rows a symm (ground arith) h.1,
  )

  update_where-any :
      (p : A → Bool) (f : A → A) (b : A) (rows : List A)
      → ((a : A) → same b (f a) ≡ same b a)
      → any_where (same b) (update_where p f rows) ≡ any_where (same b) rows
  unfolding any_where update_where
  update_where-any p f b [] e = refl
  update_where-any p f b (a ∷ rows) e = ground (arith, e a, update_where-any p f b rows e)

  pub update_where-Distinct :
      (p : A → Bool) (f : A → A) (rows : List A)
      → ((a b : A) → same b (f a) ≡ same b a)
      → ((a b : A) → same (f a) b ≡ same a b)
      → Distinct rows
      → Distinct (update_where p f rows)
  unfolding update_where
  update_where-Distinct p f [] e e' h = tt
  update_where-Distinct p f (a ∷ rows) e e' h = elim (Bool-cases (p a)) [
    | inl t ↦ rw t (
      update_where-any p f (f a) rows (λ c. e c (f a))
          ∙ any_where-agree (same (f a)) (same a) rows (e' a)
          ∙ h.0,
      update_where-Distinct p f rows e e' h.1,
    )
    | inr t ↦
        rw t
          (update_where-any p f a rows (λ c. e c a) ∙ h.0, update_where-Distinct p f rows e e' h.1)
  ]

  delete_where-any :
      (p : A → Bool) (b : A) (rows : List A)
      → any_where (same b) rows ≡ false
      → any_where (same b) (delete_where p rows) ≡ false
  unfolding any_where delete_where
  delete_where-any p b [] h = refl
  delete_where-any p b (a ∷ rows) h = ground (arith, delete_where-any p b rows)

  pub delete_where-Distinct :
      (p : A → Bool) (rows : List A) → Distinct rows → Distinct (delete_where p rows)
  unfolding delete_where
  delete_where-Distinct p [] h = tt
  delete_where-Distinct p (a ∷ rows) h = elim (Bool-cases (p a)) [
    | inl t ↦ rw t (delete_where-Distinct p rows h.1)
    | inr t ↦ rw t (delete_where-any p a rows h.0, delete_where-Distinct p rows h.1)
  ]

-- What a deletion takes is gone.
pub delete_where-none :
    {A : Type 0} (p : A → Bool) (rows : List A) → any_where p (delete_where p rows) ≡ false
unfolding any_where delete_where
delete_where-none p [] = refl
delete_where-none p (a ∷ rows) = ground (arith, delete_where-none p rows)

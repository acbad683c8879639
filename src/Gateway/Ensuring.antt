-- ===== src/Gateway/Ensuring.antt =====
-- internal/gateway/database.go: a hub that is made known, whatever statements fail.
use lucas.Base.{
  ap, ◌∙◌, ℕ, ◌+◌, true, false, String, [], ◌∷◌, ◌++◌, ◌≡◌, ◌⊎◌, inl, inr, refl, arith, Bool-cases,
  Option-cases, trim_space,
}
use lucas.Gateway.Store.{
  pure, fail, statement, ◌>>=◌, handle, wrap, Hub, Answer, good, bad, no_rows, fault, constraint,
  within, hub_not_in_database, Faults, Database, any_where, counted, DbError,
}
use lucas.Gateway.Hubs.{
  insert_hub, read_hub, get_hub_by_hub_id, with_hub_id, unclaimed_hub, mentions, not_found,
}
use lucas.Gateway.Presence.{
  verify_hub, auto_register, ensure_trimmed, ensure_hub_exists, alternative_hub_id,
}
use lucas.Gateway.Rows.{first_where-cases, any_where-append, Fails, after}

abbrev pub Known : String → Database → Type 0
Known hub_id d = any_where (with_hub_id hub_id) d.hubs ≡ true

abbrev pub Unknown : String → Database → Type 0
Unknown hub_id d = any_where (with_hub_id hub_id) d.hubs ≡ false

module _ (faults : Faults) where
  not_found_lem :
      (hub_id : String) (e : DbError) (d : Database)
      → (e' : DbError) × (n : ℕ) × (not_found faults hub_id e d ≡ (bad e', after n d))
  unfolding handle statement fail pure
  not_found_lem hub_id no_rows d = elim (Option-cases (faults d.statements)) [
    | inl e ↦ (hub_not_in_database hub_id, d.statements + 1, ground arith)
    | inr (text, e) ↦ (within "failed to get hub by hub_id" no_rows, d.statements + 1, ground arith)
  ]
  not_found_lem hub_id (constraint c) d = (_, d.statements, refl)
  not_found_lem hub_id e d = (_, d.statements, refl)

  -- The row is found, or it is not there, or a statement fails.
  pub get_hub_by_hub_id-cases :
      (hub_id : String) (d : Database)
      → ((h : Hub) × (get_hub_by_hub_id faults hub_id d ≡ (good h, counted d))
          × Known (trim_space hub_id) d)
        ⊎ ((e : DbError) × (n : ℕ) × (get_hub_by_hub_id faults hub_id d ≡ (bad e, after n d))
            × (Unknown (trim_space hub_id) d ⊎ Fails faults))
  unfolding get_hub_by_hub_id handle statement fail pure
  get_hub_by_hub_id-cases hub_id d = elim (Option-cases (faults d.statements)) [
    | inr (text, e) ↦
        let (e', n, eq) = not_found_lem hub_id (fault text) (counted d) in
        inr (e', n, ground (arith, eq), inr (d.statements, text, e))
    | inl e ↦ elim (first_where-cases (with_hub_id (trim_space hub_id)) d.hubs) [
      | inl (f, u) ↦
          let (e', n, eq) = not_found_lem hub_id no_rows (counted d) in
          inr (e', n, ground (arith, eq), inl u)
      | inr (h, f, k, q) ↦ inl (read_hub h, ground arith, k)
    ]
  ]

  -- What is known of a step that ends, in a database with the given hubs.
  record Verdict (k k' : String) (hubs : Database) (r : Answer (Unit {0})) : Type 0 where
    pub known : r ≡ good tt → (Known k hubs ⊎ Known k' hubs)
    pub failed : (e : DbError) → r ≡ bad e → (Unknown k hubs ⊎ Fails faults)

  verify_hub-Verdict :
      (k k' : String) (d : Database)
      → (n : ℕ) × ((verify_hub faults k d).1 ≡ after n d)
        × Verdict (trim_space k) k' d (verify_hub faults k d).0
  unfolding verify_hub wrap ◌>>=◌ handle statement fail pure
  verify_hub-Verdict k k' d = elim (get_hub_by_hub_id-cases k d) [
    | inl (h, eq, known) ↦ (
      d.statements + 1,
      ground arith,
      record { known = λ _. inl known; failed = λ e f. ground arith },
    )
    | inr (e, n, eq, why) ↦
        (n, ground arith, record { known = λ f. ground arith; failed = λ e f. why })
  ]

  abbrev pub with_new : ℕ → String → Database → Database
  with_new now hub_id d = record d {
    hubs = d.hubs ++ record (unclaimed_hub hub_id hub_id "" "" now) { id = d.last_hub + 1 } ∷ [];
    last_hub = d.last_hub + 1;
  }

  -- How the tables end, and what the answer says of them.
  abbrev pub Ends : ℕ → String → String → Database → Answer (Unit {0}) × Database → Type 0
  Ends now k k' d o =
      ((n : ℕ) × ((o.1 ≡ after n d) ⊎ ((o.1 ≡ after n (with_new now k d)) × Unknown k d)))
      × (o.0 ≡ good tt → (Known k o.1 ⊎ Known k' o.1))
      × ((e : DbError) → o.0 ≡ bad e → Fails faults)

  -- The look after a registration.
  verify_hub-Ends :
      (now : ℕ) (k k' : String) (d d' : Database) (n : ℕ)
      → trim_space k ≡ k
      → ((d' ≡ after n d) ⊎ ((d' ≡ after n (with_new now k d)) × Unknown k d))
      → (Known k d' ⊎ Fails faults)
      → Ends now k k' d (verify_hub faults k d')
  verify_hub-Ends now k k' d d' n trimmed tables why =
      let (m, same, v) = verify_hub-Verdict k k' d' in
      let hubs : (verify_hub faults k d').1.hubs ≡ d'.hubs = ap (λ d. d.hubs) same in
      let known : (verify_hub faults k d').0 ≡ good tt
          → (Known k (verify_hub faults k d').1 ⊎ Known k' (verify_hub faults k d').1) =
        λ g. rw (hubs) (rw trimmed at (v.known g)) in
      ((m, ends m same tables), known, λ e b. failed why (rw trimmed at (v.failed e b)))
    where
      ends :
          (m : ℕ)
          → (verify_hub faults k d').1 ≡ after m d'
          → ((d' ≡ after n d) ⊎ ((d' ≡ after n (with_new now k d)) × Unknown k d))
          → (((verify_hub faults k d').1 ≡ after m d)
              ⊎ (((verify_hub faults k d').1 ≡ after m (with_new now k d)) × Unknown k d))
      ends m same (inl e) = inl (same ∙ ap (after m) e)
      ends m same (inr (e, u)) = inr (same ∙ ap (after m) e, u)

      failed : (Known k d' ⊎ Fails faults) → (Unknown k d' ⊎ Fails faults) → Fails faults
      failed (inr f) u = f
      failed (inl known) (inr f) = f
      failed (inl known) (inl u) = cc

  auto_register-Ends :
      (now : ℕ) (k k' : String) (d : Database)
      → trim_space k ≡ k
      → Ends now k k' d (auto_register faults now k d)
  unfolding auto_register insert_hub handle statement fail pure
  auto_register-Ends now k k' d trimmed = elim (Option-cases (faults d.statements)) [
    | inr (text, e) ↦ elim (Bool-cases (mentions "hub_id" (fault text))) [
      | inl m ↦
          let eq : auto_register faults now k d ≡ verify_hub faults k (counted d) = ground arith in
          rw eq (
            verify_hub-Ends now k k' d (counted d) (d.statements + 1) trimmed (inl refl)
              (inr (d.statements, text, e)))
      | inr m ↦
          let eq : auto_register faults now k d
              ≡ (bad (within "failed to auto-register hub" (fault text)), counted d) =
            ground arith in
          rw eq ((d.statements + 1, inl refl), λ g. ground arith, λ e' b. (d.statements, text, e))
    ]
    | inl e ↦ elim (Bool-cases (any_where (with_hub_id k) d.hubs)) [
      | inl there ↦
          let eq : auto_register faults now k d ≡ verify_hub faults k (counted d) = ground arith in
          rw eq (
            verify_hub-Ends now k k' d (counted d) (d.statements + 1) trimmed (inl refl)
              (inl there))
      | inr absent ↦
          let d' = after (d.statements + 1) (with_new now k d) in
          let eq : auto_register faults now k d ≡ verify_hub faults k d' = ground arith in
          let new = record (unclaimed_hub k k "" "" now) { id = d.last_hub + 1 } in
          let known : Known k d' = ground (arith, any_where-append (with_hub_id k) d.hubs new) in
          rw eq (
            verify_hub-Ends now k k' d d' (d.statements + 1) trimmed (inr (refl, absent))
              (inl known))
    ]
  ]

  ensure_trimmed-Ends :
      (now : ℕ) (k : String) (d : Database)
      → trim_space k ≡ k
      → Ends now k (trim_space (alternative_hub_id k)) d (ensure_trimmed faults now k d)
  unfolding ensure_trimmed handle statement fail pure
  ensure_trimmed-Ends now k d trimmed = elim (get_hub_by_hub_id-cases k d) [
    | inl (h, eq, known) ↦
        let e : ensure_trimmed faults now k d ≡ (good tt, counted d) = ground (arith, eq) in
        rw e ((d.statements + 1, inl refl), λ g. inl (rw trimmed at known), λ e' b. ground arith)
    | inr (e1, n, eq, why) ↦ elim (get_hub_by_hub_id-cases (alternative_hub_id k) (after n d)) [
      | inl (h, eq', known) ↦
          let e : ensure_trimmed faults now k d ≡ (good tt, after (n + 1) d) =
            ground (arith, eq, eq') in
          rw e ((n + 1, inl refl), λ g. inr known, λ e' b. ground arith)
      | inr (e2, m, eq', why') ↦
          let e : ensure_trimmed faults now k d ≡ auto_register faults now k (after m d) =
            ground (arith, eq, eq') in
          rw e (auto_register-Ends now k (trim_space (alternative_hub_id k)) (after m d) trimmed)
    ]
  ]

  -- For a hub id without surrounding spaces, whatever statements fail: users and devices stay as
  -- they are, and so do the hubs, but that one unclaimed hub of that id may be appended, if none was
  -- there. A success says that the id or its other spelling, trimmed, is there afterwards. There is
  -- no failure but by a statement that failed.
  pub ensure_hub_exists-Ends :
      (now : ℕ) (k : String) (d : Database)
      → trim_space k ≡ k
      → Ends now k (trim_space (alternative_hub_id k)) d (ensure_hub_exists faults now k d)
  unfolding ensure_hub_exists
  ensure_hub_exists-Ends now k d trimmed =
      rw (trimmed, ensure_hub_exists) (ensure_trimmed-Ends now k d trimmed)

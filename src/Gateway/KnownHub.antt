-- ===== src/Gateway/KnownHub.antt =====
-- internal/gateway/database.go: a hub that is in the table, where no statement fails.
use lucas.Base.{
  ℕ, ◌+◌, true, false, String, List, [], ◌∷◌, ◌≡◌, refl, arith, nat_eq, inl, inr, trim_space,
}
use lucas.Gateway.Store.{
  Hub, Database, good, statement, wrap, handle, pure, fail, ◌>>=◌, update_where, first_where,
  count_where, any_where, counted,
}
use lucas.Gateway.Hubs.{get_hub_by_hub_id, with_hub_id, read_hub, seen, update_hubs}
use lucas.Gateway.Presence.{ensure_hub_exists, ensure_trimmed, known_hub_id, update_hub_status}
use lucas.Gateway.Rows.{first_where-cases, after}
use lucas.Gateway.Ensuring.{Known}
use lucas.Gateway.DeviceRows.{no_faults}

-- The row of a known hub, and what a look for it gives.
pub get_hub_by_hub_id-Known :
    (k : String) (d : Database)
    → trim_space k ≡ k
    → Known k d
    → (h : Hub) × (first_where (with_hub_id k) d.hubs ≡ good h)
      × (get_hub_by_hub_id no_faults k d ≡ (good (read_hub h), counted d))
unfolding get_hub_by_hub_id statement handle pure
get_hub_by_hub_id-Known k d trimmed known = elim (first_where-cases (with_hub_id k) d.hubs) [
  | inl (e, absent) ↦ cc
  | inr (h, e, there, q) ↦ (h, e, rw trimmed (ground arith))
]

pub seen-first :
    (k status : String) (now : ℕ) (hubs : List Hub) (h : Hub)
    → first_where (with_hub_id k) hubs ≡ good h
    → first_where (with_hub_id k) (update_where (with_hub_id k) (seen status now) hubs)
      ≡ good (seen status now h)
unfolding first_where update_where
seen-first k status now [] h e = cc
seen-first k status now (b ∷ hubs) h e = ground (arith, seen-first k status now hubs h)

pub count-Known :
    (k : String) (hubs : List Hub)
    → any_where (with_hub_id k) hubs ≡ true
    → nat_eq (count_where (with_hub_id k) hubs) 0 ≡ false
unfolding any_where count_where
count-Known k [] e = cc
count-Known k (b ∷ hubs) e = ground (arith, count-Known k hubs)

pub any_where-update :
    (k j status : String) (now : ℕ) (hubs : List Hub)
    → any_where (with_hub_id k) (update_where (with_hub_id j) (seen status now) hubs)
      ≡ any_where (with_hub_id k) hubs
unfolding any_where update_where
any_where-update k j status now [] = refl
any_where-update k j status now (b ∷ hubs) = ground (arith, any_where-update k j status now hubs)

abbrev pub with_seen : String → ℕ → String → Database → Database
with_seen k now status d = record d { hubs = update_where (with_hub_id k) (seen status now) d.hubs }

module _ (now : ℕ) (k : String) (d : Database) (trimmed : trim_space k ≡ k)
    (known : Known k d) where
  pub ensure_hub_exists-Known : ensure_hub_exists no_faults now k d ≡ (good tt, counted d)
  unfolding ensure_hub_exists ensure_trimmed handle pure
  ensure_hub_exists-Known =
      let (h, f, e) = get_hub_by_hub_id-Known k d trimmed known in
      rw (trimmed, ensure_hub_exists) (ground (arith, e))

  pub update_hub_status-Known :
      (status : String)
      → update_hub_status no_faults now k status d
        ≡ (good tt, after (d.statements + 2) (with_seen k now status d))
  unfolding update_hub_status known_hub_id update_hubs handle statement wrap pure fail ◌>>=◌
  update_hub_status-Known status =
      let (h, f, e) = get_hub_by_hub_id-Known k d trimmed known in
      rw (trimmed, update_hub_status) (ground (arith, e, count-Known k d.hubs known))

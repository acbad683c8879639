-- ===== src/Gateway/NewHub.antt =====
-- internal/gateway/database.go: a hub that registers for the first time.
use lucas.Base.{ℕ, ◌+◌, true, String, [], ◌∷◌, ◌++◌, none, some, ◌≡◌, ◌≢◌, ◌⊎◌}
use lucas.Gateway.Store.{
  Hub, Database, Answer, good, first_where, count_where, product_key_registered_to, bad,
}
use lucas.Gateway.Hubs.{with_product_key, unclaimed_hub}
use lucas.Gateway.Rows.{after}

module _ (now : ℕ) (k public_key name product_key : String) where
  -- The row of a new hub: it has the next id and no owner, and is offline.
  pub record IsNewHub (d : Database) (h : Hub) : Type 0 where
    pub id : h.id ≡ d.last_hub + 1
    pub user_id : h.user_id ≡ none
    pub hub_id : h.hub_id ≡ k
    pub named : h.name ≡ name
    pub public_keyed : h.public_key ≡ public_key
    pub product_keyed : h.product_key ≡ some product_key
    pub endpoint : h.endpoint ≡ ""
    pub status : h.status ≡ "offline"
    pub auto_registered : h.auto_registered ≡ true
    pub last_seen : h.last_seen ≡ now
    pub created_at : h.created_at ≡ now

  -- The key is refused, or free and given to one new hub.
  abbrev pub IsRegistration : Database → Answer Hub × Database → Type 0
  IsRegistration d o =
      ((other : Hub) × (first_where (with_product_key product_key) d.hubs ≡ good other)
        × (other.hub_id ≢ k)
        × (o.0 ≡ bad (product_key_registered_to product_key other.hub_id))
        × (o.1 ≡ after (d.statements + 3) d))
      ⊎ ((h : Hub) × (count_where (with_product_key product_key) d.hubs ≡ 0)
          × (o.0 ≡ good h)
          × IsNewHub d h
          × (o.1
              ≡ after (d.statements + 5)
                  (record d { hubs = d.hubs ++ h ∷ []; last_hub = d.last_hub + 1 })))

  abbrev new_row : Database → Hub
  new_row d = record (unclaimed_hub k name public_key product_key now) { id = d.last_hub + 1 }

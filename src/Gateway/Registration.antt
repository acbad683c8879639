-- ===== src/Gateway/Registration.antt =====
-- internal/gateway/database.go: a hub that registers again.
use lucas.Base.{ℕ, Bool, true, false, some, ◌&&◌, not, String, List, [], ◌∷◌, ◌≡◌}
use lucas.Gateway.Store.{Hub, Database, update_where}
use lucas.Gateway.Hubs.{with_hub_id, with_product_key, registered_again}

module _ (now : ℕ) (k public_key name product_key : String) where
  abbrev again : Hub → Hub
  again = registered_again public_key name product_key now

  abbrev with_again : Database → Database
  with_again d = record d { hubs = update_where (with_hub_id k) again d.hubs }

  -- A hub that another hub's key would be shared with.
  abbrev pub other_with_key : Hub → Bool
  other_with_key h = with_product_key product_key h && not (with_hub_id k h)

  -- The row of a hub that registered again: the name and the keys are the new ones, it is offline
  -- and was seen now, and it is the same row of the same owner.
  pub record IsRegisteredAgain (h h' : Hub) : Type 0 where
    pub id : h'.id ≡ h.id
    pub user_id : h'.user_id ≡ h.user_id
    pub hub_id : h'.hub_id ≡ h.hub_id
    pub endpoint : h'.endpoint ≡ h.endpoint
    pub auto_registered : h'.auto_registered ≡ h.auto_registered
    pub created_at : h'.created_at ≡ h.created_at
    pub renamed : h'.name ≡ name
    pub public_keyed : h'.public_key ≡ public_key
    pub product_keyed : h'.product_key ≡ some product_key
    pub offline : h'.status ≡ "offline"
    pub seen : h'.last_seen ≡ now

  -- Row by row: those of the hub registered again, the others are as they were.
  abbrev pub AreRegisteredAgain : List Hub → List Hub → Type 0
  AreRegisteredAgain [] [] = Unit
  AreRegisteredAgain (b ∷ bs) (b' ∷ bs') =
      ((with_hub_id k b ≡ true → IsRegisteredAgain b b') × (with_hub_id k b ≡ false → b' ≡ b))
      × AreRegisteredAgain bs bs'
  AreRegisteredAgain _ _ = ⊥

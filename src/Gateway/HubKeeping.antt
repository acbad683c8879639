-- ===== src/Gateway/HubKeeping.antt =====
-- internal/gateway/database.go: the operations on hubs keep the tables' keys.
use lucas.Base.{refl, ℕ, Bool, true, false, String, if◌then◌else◌, trim_space}
use lucas.Gateway.Store.{Hub, DbError, Action, Faults, no_rows, constraint}
use lucas.Gateway.Hubs.{
  claimed, get_hub, get_hub_by_hub_id, get_hub_by_product_key, not_found, create_hub,
  register_new_hub, register_hub, claim_hub, update_hubs, registered_again, seen,
}
use lucas.Gateway.Presence.{
  verify_hub, auto_register, ensure_trimmed, ensure_hub_exists, known_hub_id, update_hub_status,
}
use lucas.Gateway.Integrity.{
  IsKeyed, Keeps, pure-Keeps, fail-Keeps, look-Keeps, asks-Keeps, wrap-Keeps, statement-Keeps,
  handle-Keeps, >>=-Keeps, >>-Keeps,
}
use lucas.Gateway.Writes.{insert_hub-Keeps, update_hubs-Keeps}

pub if-Keeps :
    {A : Type 0} (b : Bool) (m m' : Action A) → Keeps m → Keeps m' → Keeps (if b then m else m')
if-Keeps true m m' h h' = h
if-Keeps false m m' h h' = h'

pub ruleset rules = (
  pure-Keeps, fail-Keeps, look-Keeps, asks-Keeps, wrap-Keeps, statement-Keeps, handle-Keeps,
  >>=-Keeps, >>-Keeps, if-Keeps,
)

module _ (faults : Faults) where
  get_hub-Keeps : (id : ℕ) → Keeps (get_hub faults id)
  unfolding get_hub
  get_hub-Keeps id = search rules

  not_found-Keeps : (hub_id : String) (e : DbError) → Keeps (not_found faults hub_id e)
  not_found-Keeps hub_id no_rows = search rules
  not_found-Keeps hub_id (constraint c) = search rules
  not_found-Keeps hub_id e = search rules

  pub get_hub_by_hub_id-Keeps : (hub_id : String) → Keeps (get_hub_by_hub_id faults hub_id)
  unfolding get_hub_by_hub_id
  get_hub_by_hub_id-Keeps hub_id = search (rules, not_found-Keeps)

  get_hub_by_product_key-Keeps : (key : String) → Keeps (get_hub_by_product_key faults key)
  unfolding get_hub_by_product_key
  get_hub_by_product_key-Keeps key = search rules

  pub create_hub-Keeps :
      (now user_id : ℕ) (hub_id name public_key endpoint : String)
      → Keeps (create_hub faults now user_id hub_id name public_key endpoint)
  unfolding create_hub
  create_hub-Keeps now user_id hub_id name public_key endpoint =
      search (rules, insert_hub-Keeps, get_hub-Keeps)

  register_new_hub-Keeps :
      (now : ℕ) (hub_id public_key name product_key : String)
      → Keeps (register_new_hub faults now hub_id public_key name product_key)
  unfolding register_new_hub
  register_new_hub-Keeps now hub_id public_key name product_key =
      search (rules, insert_hub-Keeps, get_hub-Keeps)

  register_again-Keeps :
      (p : Hub → Bool) (public_key name product_key : String) (now : ℕ)
      → Keeps (update_hubs p (registered_again public_key name product_key now))
  register_again-Keeps p public_key name product_key now =
      update_hubs-Keeps p _ (λ h. refl) (λ h. refl)

  pub register_hub-Keeps :
      (now : ℕ) (hub_id public_key name product_key : String)
      → Keeps (register_hub faults now hub_id public_key name product_key)
  unfolding register_hub
  register_hub-Keeps now hub_id public_key name product_key =
      search
        (
          rules, get_hub_by_hub_id-Keeps, get_hub_by_product_key-Keeps, register_new_hub-Keeps,
          register_again-Keeps,
        )
        depth 12

  claimed-Keeps : (p : Hub → Bool) (user_id : ℕ) → Keeps (update_hubs p (claimed user_id))
  claimed-Keeps p user_id = update_hubs-Keeps p (claimed user_id) (λ h. refl) (λ h. refl)

  pub claim_hub-Keeps : (hub_id : String) (user_id : ℕ) → Keeps (claim_hub faults hub_id user_id)
  unfolding claim_hub
  claim_hub-Keeps hub_id user_id = >>-Keeps _ _ (search (rules, claimed-Keeps)) (pure-Keeps tt)

  verify_hub-Keeps : (hub_id : String) → Keeps (verify_hub faults hub_id)
  unfolding verify_hub
  verify_hub-Keeps hub_id = search (rules, get_hub_by_hub_id-Keeps)

  auto_register-Keeps : (now : ℕ) (hub_id : String) → Keeps (auto_register faults now hub_id)
  unfolding auto_register
  auto_register-Keeps now hub_id = search (rules, insert_hub-Keeps, verify_hub-Keeps)

  ensure_trimmed-Keeps : (now : ℕ) (hub_id : String) → Keeps (ensure_trimmed faults now hub_id)
  unfolding ensure_trimmed
  ensure_trimmed-Keeps now hub_id = search (rules, get_hub_by_hub_id-Keeps, auto_register-Keeps)

  pub ensure_hub_exists-Keeps :
      (now : ℕ) (hub_id : String) → Keeps (ensure_hub_exists faults now hub_id)
  unfolding ensure_hub_exists
  ensure_hub_exists-Keeps now hub_id = ensure_trimmed-Keeps now (trim_space hub_id)

  known_hub_id-Keeps : (now : ℕ) (hub_id : String) → Keeps (known_hub_id faults now hub_id)
  unfolding known_hub_id
  known_hub_id-Keeps now hub_id = search (rules, get_hub_by_hub_id-Keeps, ensure_hub_exists-Keeps)

  see_hub-Keeps :
      (p : Hub → Bool) (status : String) (now : ℕ) → Keeps (update_hubs p (seen status now))
  see_hub-Keeps p status now = update_hubs-Keeps p (seen status now) (λ h. refl) (λ h. refl)

  pub update_hub_status-Keeps :
      (now : ℕ) (hub_id status : String) → Keeps (update_hub_status faults now hub_id status)
  unfolding update_hub_status
  update_hub_status-Keeps now hub_id status = search (rules, known_hub_id-Keeps, see_hub-Keeps)

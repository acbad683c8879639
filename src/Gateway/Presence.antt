-- ===== src/Gateway/Presence.antt =====
-- internal/gateway/database.go: EnsureHubExists and UpdateHubStatus, which look for a hub under both
-- spellings of its id. `now` is CURRENT_TIMESTAMP.
use Prim.Native.String
use lucas.Base.{ℕ, String, none, some, nat_eq, if◌then◌else◌, trim_space, after_prefix}
use lucas.Gateway.Store.{
  within, Action, pure, fail, ◌>>=◌, ◌>>◌, handle, hub_not_updated, wrap, Faults, statement,
  update_where, count_where, any_where,
}
use lucas.Gateway.Hubs.{
  get_hub_by_hub_id, insert_hub, update_hubs, unclaimed_hub, mentions, with_hub_id, seen,
}

-- The other spelling of a hub's id: without the prefix "hub_", or with it.
unfoldable pub alternative_hub_id : String → String
alternative_hub_id hub_id = elim (after_prefix "hub_" hub_id) [
  | some rest ↦ rest
  | none ↦ String.◌++◌ "hub_" hub_id
]

module _ (faults : Faults) where
  unfoldable pub verify_hub : String → Action (Unit {0})
  unfolding get_hub_by_hub_id
  verify_hub hub_id = do
    wrap "hub still not found after auto-registration attempt" (get_hub_by_hub_id faults hub_id)
    pure tt

  -- A violated constraint says that another process was first.
  unfoldable pub auto_register : ℕ → String → Action (Unit {0})
  unfolding any_where verify_hub
  auto_register now hub_id =
      handle (statement faults (insert_hub (unclaimed_hub hub_id hub_id "" "" now)))
        (λ id. verify_hub hub_id)
        (λ e.
          if mentions "hub_id" e
          then verify_hub hub_id
          else fail (within "failed to auto-register hub" e))

  -- `hub_id` is trimmed already.
  unfoldable pub ensure_trimmed : ℕ → String → Action (Unit {0})
  unfolding get_hub_by_hub_id alternative_hub_id auto_register
  ensure_trimmed now hub_id =
      handle (get_hub_by_hub_id faults hub_id) (λ h. pure tt)
        (λ e.
          handle (get_hub_by_hub_id faults (alternative_hub_id hub_id)) (λ h. pure tt)
            (λ e'. auto_register now hub_id))

  unfoldable pub ensure_hub_exists : ℕ → String → Action (Unit {0})
  unfolding ensure_trimmed
  ensure_hub_exists now hub_id = ensure_trimmed now (trim_space hub_id)

  -- The spelling under which the hub is known, which is made known if there is none.
  unfoldable pub known_hub_id : ℕ → String → Action String
  unfolding get_hub_by_hub_id alternative_hub_id ensure_hub_exists
  known_hub_id now hub_id =
      handle (get_hub_by_hub_id faults hub_id) (λ h. pure hub_id)
        (λ e.
          handle (get_hub_by_hub_id faults (alternative_hub_id hub_id))
            (λ h. pure (alternative_hub_id hub_id))
            (λ e'. do
              wrap "could not ensure hub exists" (ensure_hub_exists now hub_id)
              pure hub_id))

  unfoldable pub update_hub_status : ℕ → String → String → Action (Unit {0})
  unfolding known_hub_id update_where count_where
  update_hub_status now hub_id status = do
    actual ← known_hub_id now (trim_space hub_id)
    affected ←
        wrap "failed to update hub status"
          (statement faults (update_hubs (with_hub_id actual) (seen status now)))
    if nat_eq affected 0 then fail (hub_not_updated hub_id) else pure tt

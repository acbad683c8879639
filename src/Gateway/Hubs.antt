-- ===== src/Gateway/Hubs.antt =====
-- internal/gateway/database.go: the operations on hubs. `now` is CURRENT_TIMESTAMP.
use lucas.Base.{
  map, ℕ, ◌+◌, Bool, true, false, ◌||◌, String, List, [], ◌∷◌, ◌++◌, Option, none, some, nat_eq,
  if◌then◌else◌, ◌==◌, trim_space, contains_text,
}
use lucas.Gateway.Store.{
  Hub, DbError, no_rows, constraint, fault, product_key_required, product_key_registered_to,
  product_key_registered, hub_not_in_database, within, Answer, good, bad, Action, pure, fail, ◌>>=◌,
  ◌>>◌, handle, wrap, Faults, statement, first_where, select_where, update_where, count_where,
  any_where, newest_first,
}

abbrev pub with_hub_id : String → Hub → Bool
with_hub_id hub_id h = h.hub_id == hub_id

abbrev pub is_null_or : Bool → Option String → String → Bool
is_null_or b none key = b
is_null_or b (some k) key = k == key

-- NULL equals nothing.
abbrev pub with_product_key : String → Hub → Bool
with_product_key key h = is_null_or false h.product_key key

abbrev pub owned_by : ℕ → Hub → Bool
owned_by user h = elim h.user_id [ none ↦ false | some u ↦ nat_eq u user ]

-- `INSERT INTO hubs`: the id and the `created_at` are the engine's; `hub_id` is UNIQUE.
unfoldable pub insert_hub : Hub → Action ℕ
insert_hub h d =
    if any_where (with_hub_id h.hub_id) d.hubs
    then fail (constraint "hubs.hub_id") d
    else pure (d.last_hub + 1) (record d {
      hubs = d.hubs ++ record h { id = d.last_hub + 1 } ∷ [];
      last_hub = d.last_hub + 1;
    })

-- How many rows it affected.
unfoldable pub update_hubs : (Hub → Bool) → (Hub → Hub) → Action ℕ
update_hubs p f d = pure (count_where p d.hubs) (record d { hubs = update_where p f d.hubs })

abbrev pub key_of : Option String → String
key_of none = ""
key_of (some key) = key

-- A NULL product key is read as an empty text.
abbrev pub read_hub : Hub → Hub
read_hub h = record h { product_key = some (key_of h.product_key) }

abbrev pub read_answer : Answer Hub → Answer Hub
read_answer (good h) = good (read_hub h)
read_answer (bad e) = bad e

-- QueryRow and Scan.
abbrev pub find_hub : (Hub → Bool) → Action Hub
find_hub p d = (read_answer (first_where p d.hubs), d)

abbrev pub find_hubs : (Hub → Bool) → Action (List Hub)
find_hubs p d = pure (map read_hub (newest_first (λ h. h.created_at) (select_where p d.hubs))) d

-- The text of an error is searched for "UNIQUE constraint failed" or the second text.
abbrev pub mentions : String → DbError → Bool
mentions text (constraint columns) = true
mentions text (fault e) = contains_text e "UNIQUE constraint failed" || contains_text e text
mentions text e = false

abbrev online_hub : ℕ → String → String → String → String → ℕ → Hub
online_hub user_id hub_id name public_key endpoint now = record {
  id = 0;
  user_id = some user_id;
  hub_id = hub_id;
  name = name;
  public_key = public_key;
  product_key = none;
  endpoint = endpoint;
  status = "online";
  auto_registered = false;
  last_seen = now;
  created_at = now;
}

abbrev pub unclaimed_hub : String → String → String → String → ℕ → Hub
unclaimed_hub hub_id name public_key product_key now = record {
  id = 0;
  user_id = none;
  hub_id = hub_id;
  name = name;
  public_key = public_key;
  product_key = some product_key;
  endpoint = "";
  status = "offline";
  auto_registered = true;
  last_seen = now;
  created_at = now;
}

abbrev without_unselected : Hub → Hub
without_unselected h = record h { product_key = some ""; auto_registered = false }

-- The columns that are set for a hub that registers again.
abbrev pub registered_again : String → String → String → ℕ → Hub → Hub
registered_again public_key name product_key now h = record h {
  public_key = public_key;
  name = name;
  product_key = some product_key;
  status = "offline";
  last_seen = now;
}

abbrev pub seen : String → ℕ → Hub → Hub
seen status now h = record h { status = status; last_seen = now }

abbrev pub claimed : ℕ → Hub → Hub
claimed user_id h = record h { user_id = some user_id; auto_registered = false }

module _ (faults : Faults) where
  unfoldable pub get_hub : ℕ → Action Hub
  unfolding first_where
  get_hub id = wrap "failed to get hub" (statement faults (find_hub (λ h. nat_eq h.id id)))

  -- What follows the error of the first statement: where no row was found, all hubs are listed
  -- for the message.
  abbrev pub not_found : String → DbError → Action Hub
  not_found hub_id no_rows =
      handle (statement faults (find_hubs (λ h. true))) (λ hubs. fail (hub_not_in_database hub_id))
        (λ e. fail (within "failed to get hub by hub_id" no_rows))
  not_found hub_id e = fail (within "failed to get hub by hub_id" e)

  unfoldable pub get_hub_by_hub_id : String → Action Hub
  unfolding first_where trim_space
  get_hub_by_hub_id hub_id =
      handle (statement faults (find_hub (with_hub_id (trim_space hub_id)))) pure (not_found hub_id)

  unfoldable pub get_hub_by_product_key : String → Action Hub
  unfolding first_where
  get_hub_by_product_key product_key =
      wrap "failed to get hub by product key"
        (statement faults (find_hub (with_product_key product_key)))

  unfoldable pub create_hub : ℕ → ℕ → String → String → String → String → Action Hub
  unfolding any_where get_hub
  create_hub now user_id hub_id name public_key endpoint = do
    id ←
        wrap "failed to create hub"
          (statement faults (insert_hub (online_hub user_id hub_id name public_key endpoint now)))
    get_hub id

  -- The hub is new; a violated constraint is taken for the product key's.
  unfoldable pub register_new_hub : ℕ → String → String → String → String → Action Hub
  unfolding any_where get_hub
  register_new_hub now hub_id public_key name product_key =
      handle (statement faults (insert_hub (unclaimed_hub hub_id name public_key product_key now)))
        get_hub
        (λ e.
          if mentions "product_key" e
          then fail (product_key_registered product_key)
          else fail (within "failed to register hub" e))

  unfoldable pub register_hub : ℕ → String → String → String → String → Action Hub
  unfolding get_hub_by_hub_id get_hub_by_product_key register_new_hub update_where count_where
  register_hub now hub_id public_key name product_key =
      let new = register_new_hub now hub_id public_key name product_key in
      if product_key == ""
      then fail product_key_required
      else handle (get_hub_by_hub_id hub_id)
          (λ h. do
            wrap "failed to update existing hub" (
                statement faults (
                  update_hubs (with_hub_id hub_id)
                    (registered_again public_key name product_key now)))
            get_hub_by_hub_id hub_id)
          (λ e.
            handle (get_hub_by_product_key product_key)
              (λ other.
                if other.hub_id == hub_id
                then new
                else fail (product_key_registered_to product_key other.hub_id))
              (λ e'. new))

  unfoldable pub claim_hub : String → ℕ → Action (Unit {0})
  unfolding update_where count_where
  claim_hub hub_id user_id = do
    wrap "failed to claim hub"
        (statement faults (update_hubs (with_hub_id hub_id) (claimed user_id)))
    pure tt

  -- Two columns are not selected, and stay empty.
  unfoldable pub get_user_hubs : ℕ → Action (List Hub)
  unfolding newest_first select_where
  get_user_hubs user_id = do
    hubs ← wrap "failed to query user hubs" (statement faults (find_hubs (owned_by user_id)))
    pure (map without_unselected hubs)

  unfoldable pub get_all_hubs : Action (List Hub)
  unfolding newest_first select_where
  get_all_hubs = wrap "failed to query all hubs" (statement faults (find_hubs (λ h. true)))

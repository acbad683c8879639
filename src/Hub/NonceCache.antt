-- ===== src/Hub/NonceCache.antt =====
-- internal/hub/nonce_cache.go: one cache of responses for each device. Time is an argument, in
-- nanoseconds, read once for each operation.
use lucas.Base.{
  ℕ, ◌+◌, ◌-◌, Bool, true, false, String, List, [], ◌∷◌, Option, none, some, Map, lookup, insert,
  if◌then◌else◌, ltb, nat_eq, ◌==◌, ℤ, pos, negsuc, ◌*◌, length,
}
use lucas.Hermes.Protocol.{second}
use lucas.Hub.Device.{ActionResponse}
use lucas.Hub.Lru.{Lru}

pub record NonceResponse : Type 0 where
  pub nonce : String
  pub response : ActionResponse
  pub timestamp : ℕ

abbrev hour : ℕ
hour = 3600 * second

-- An int that is not positive gives way to the default.
unfoldable pub positive_or : ℕ → ℤ → ℕ
positive_or default (pos n) = if ltb 0 n then n else default
positive_or default (negsuc n) = default

module _ (l : Lru NonceResponse) where
  pub record NonceCache : Type 0 where
    pub device_caches : Map l.Cache
    pub max_size : ℕ
    pub expiration : ℕ

  unfoldable pub new_nonce_cache : ℤ → ℤ → NonceCache
  unfolding positive_or
  new_nonce_cache max_size expiration = record {
    device_caches = [];
    max_size = positive_or 50 max_size;
    expiration = positive_or hour expiration;
  }

  -- The cache of the device, which is a new one if there is none.
  unfoldable pub get_device_cache : NonceCache → String → l.Cache
  get_device_cache nc device_id = elim (lookup device_id nc.device_caches) [
    | none ↦ l.create nc.max_size
    | some cache ↦ cache
  ]

  -- The device's cache in the map, as an operation leaves it.
  abbrev pub with_cache : NonceCache → String → l.Cache → NonceCache
  with_cache nc device_id cache = record nc {
    device_caches = insert device_id cache nc.device_caches;
  }

  -- `now.Sub(value.Timestamp) > nc.expiration`.
  abbrev pub is_stale : NonceCache → ℕ → NonceResponse → Bool
  is_stale nc now r = ltb nc.expiration (now - r.timestamp)

  unfoldable pub answer_cached :
      ℕ
      → NonceCache
      → String
      → String
      → Option NonceResponse × l.Cache
      → Option ActionResponse × NonceCache
  answer_cached now nc device_id nonce (none, cache) = (none, with_cache nc device_id cache)
  answer_cached now nc device_id nonce (some r, cache) =
      if is_stale nc now r
      then (none, with_cache nc device_id (l.remove nonce cache))
      else (some r.response, with_cache nc device_id cache)

  unfoldable pub check_nonce : ℕ → NonceCache → String → String → Option ActionResponse × NonceCache
  unfolding get_device_cache answer_cached
  check_nonce now nc device_id nonce =
      if nonce == ""
      then (none, nc)
      else answer_cached now nc device_id nonce (l.get nonce (get_device_cache nc device_id))

  unfoldable pub store_response : ℕ → NonceCache → String → String → ActionResponse → NonceCache
  unfolding get_device_cache
  store_response now nc device_id nonce response =
      let entry : NonceResponse = record { nonce = nonce; response = response; timestamp = now } in
      if nonce == ""
      then nc
      else with_cache nc device_id (l.add nonce entry (get_device_cache nc device_id))

  unfoldable pub remove_nonce : NonceCache → String → String → NonceCache
  remove_nonce nc device_id nonce = elim (lookup device_id nc.device_caches) [
    | none ↦ nc
    | some cache ↦ with_cache nc device_id (l.remove nonce cache)
  ]

  unfoldable pub clear_device : NonceCache → String → NonceCache
  clear_device nc device_id = elim (lookup device_id nc.device_caches) [
    | none ↦ nc
    | some cache ↦ with_cache nc device_id (l.purge cache)
  ]

  unfoldable pub get_device_nonce_count : NonceCache → String → ℕ
  get_device_nonce_count nc device_id = elim (lookup device_id nc.device_caches) [
    | none ↦ 0
    | some cache ↦ l.len cache
  ]

  pub record CacheStats : Type 0 where
    pub total_devices : ℕ
    pub total_nonces : ℕ
    pub max_size : ℕ
    pub expiration : ℕ
    pub device_stats : Map ℕ

  unfoldable pub count_nonces : Map l.Cache → ℕ
  count_nonces [] = 0
  count_nonces ((device_id, cache) ∷ m) = l.len cache + count_nonces m

  unfoldable pub device_counts : Map l.Cache → Map ℕ
  device_counts [] = []
  device_counts ((device_id, cache) ∷ m) = (device_id, l.len cache) ∷ device_counts m

  unfoldable pub get_stats : NonceCache → CacheStats
  unfolding count_nonces device_counts
  get_stats nc = record {
    total_devices = length nc.device_caches;
    total_nonces = count_nonces nc.device_caches;
    max_size = nc.max_size;
    expiration = nc.expiration;
    device_stats = device_counts nc.device_caches;
  }

  abbrev pub remove_if : Bool → String → l.Cache → l.Cache
  remove_if true nonce cache = l.remove nonce cache
  remove_if false nonce cache = cache

  -- The loop over the keys of one cache.
  unfoldable pub clean_keys : ℕ → NonceCache → List String → l.Cache → l.Cache
  clean_keys now nc [] cache = cache
  clean_keys now nc (nonce ∷ rest) cache = elim (l.peek nonce cache) [
    | none ↦ clean_keys now nc rest cache
    | some r ↦ clean_keys now nc rest (remove_if (is_stale nc now r) nonce cache)
  ]

  -- The loop over the devices; a cache that is left empty is taken from the map.
  unfoldable pub clean_devices : ℕ → NonceCache → Map l.Cache → Map l.Cache
  unfolding clean_keys
  clean_devices now nc [] = []
  clean_devices now nc ((device_id, cache) ∷ m) =
      let cleaned = clean_keys now nc (l.keys cache) cache in
      let rest = clean_devices now nc m in
      if nat_eq (l.len cleaned) 0 then rest else (device_id, cleaned) ∷ rest

  unfoldable pub perform_cleanup : ℕ → NonceCache → NonceCache
  unfolding clean_devices
  perform_cleanup now nc = record nc { device_caches = clean_devices now nc nc.device_caches }

  unfoldable pub shutdown : NonceCache → NonceCache
  shutdown nc = record nc { device_caches = [] }

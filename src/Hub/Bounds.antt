-- ===== src/Hub/Bounds.antt =====
-- internal/hub/nonce_cache.go, internal/hub/device_manager.go: how many nonces a hub remembers.
use lucas.Base.{
  ℕ, ◌≤◌, ◌<◌, Bool, true, false, String, List, [], ◌∷◌, Option, none, some, Map, ◌≡◌, refl, ◌∙◌,
  arith, All, All-insert, All-lookup, lookup, ◌==◌, Option-cases, Bool-cases, inl, inr, not, ◌&&◌,
}
use lucas.Hermes.Protocol.{Bytes}
use lucas.Hub.Device.{ActionResponse}
use lucas.Hub.Lru.{Lru, IsLru}
use lucas.Hub.Nonce.{validate_nonce}
use lucas.Hub.NonceCache.{
  NonceResponse, NonceCache, new_nonce_cache, get_device_cache, with_cache, is_stale, answer_cached,
  check_nonce, store_response, clear_device, perform_cleanup, clean_keys, clean_devices,
  get_device_nonce_count, remove_if, shutdown,
}
use lucas.Hub.DeviceManager.{
  Devices, DeviceManager, DeviceConfig, new_device_manager, process_device_action, process_new,
  process_unless_cached, process_device_action_with_nonce, clear_device_nonces, initialize, reload,
  shutdown_manager,
}
use lucas.Hub.Once.{
  Turn, cleans, clears, acts, initializes, reloads, shuts_down, add_devices-nonces, take_turn,
  take_turns, process_device_action-nonces,
}

module _ (l : Lru NonceResponse) (laws : IsLru l) (size : ℕ) where
  -- Every device's cache was made with that size, which is positive.
  pub record IsSized (nc : NonceCache l) : Type 0 where
    pub limit : nc.max_size ≡ size
    pub positive : 0 < size
    pub sized : All (λ e. l.size e.1 ≡ size) nc.device_caches

  size-remove_if :
      (b : Bool) (k : String) (cache : l.Cache) → l.size (remove_if l b k cache) ≡ l.size cache
  size-remove_if true k cache = laws.size-remove k cache
  size-remove_if false k cache = refl

  module _ (nc : NonceCache l) (v : IsSized nc) where
    size-get_device_cache : (d : String) → l.size (get_device_cache l nc d) ≡ size
    unfolding get_device_cache
    size-get_device_cache d = elim (Option-cases (lookup d nc.device_caches)) [
      | inl e ↦
          rw (e, get_device_cache) (laws.size-create nc.max_size (rw v.limit v.positive) ∙ v.limit)
      | inr (cache, e) ↦
          rw (e, get_device_cache)
            (All-lookup (λ e. l.size e.1 ≡ size) d nc.device_caches e v.sized)
    ]

    with_cache-IsSized :
        (d : String) (cache : l.Cache) → l.size cache ≡ size → IsSized (with_cache l nc d cache)
    with_cache-IsSized d cache h = record {
      limit = v.limit;
      positive = v.positive;
      sized = All-insert (λ e. l.size e.1 ≡ size) d cache nc.device_caches h v.sized;
    }

    answer_cached-IsSized :
        (now : ℕ) (d n : String) (got : Option NonceResponse × l.Cache)
        → l.size got.1 ≡ size
        → IsSized (answer_cached l now nc d n got).1
    unfolding answer_cached
    answer_cached-IsSized now d n (none, cache) h = with_cache-IsSized d cache h
    answer_cached-IsSized now d n (some r, cache) h = elim (Bool-cases (is_stale l nc now r)) [
      | inl e ↦ rw e (with_cache-IsSized d (l.remove n cache) (laws.size-remove n cache ∙ h))
      | inr e ↦ rw e (with_cache-IsSized d cache h)
    ]

    check_nonce-IsSized : (now : ℕ) (d n : String) → IsSized (check_nonce l now nc d n).1
    unfolding check_nonce
    check_nonce-IsSized now d n = elim (Bool-cases (n == "")) [
      | inl e ↦ rw e v
      | inr e ↦ rw e (
          answer_cached-IsSized now d n _
            (laws.size-get n (get_device_cache l nc d) ∙ size-get_device_cache d))
    ]

    store_response-IsSized :
        (now : ℕ) (d n : String) (r : ActionResponse) → IsSized (store_response l now nc d n r)
    unfolding store_response
    store_response-IsSized now d n r = elim (Bool-cases (n == "")) [
      | inl e ↦ rw e v
      | inr e ↦ rw e (
          with_cache-IsSized d _
            (laws.size-add n _ (get_device_cache l nc d) ∙ size-get_device_cache d))
    ]

    clear_device-IsSized : (d : String) → IsSized (clear_device l nc d)
    unfolding clear_device
    clear_device-IsSized d = elim (Option-cases (lookup d nc.device_caches)) [
      | inl e ↦ rw (e, clear_device) v
      | inr (cache, e) ↦
          rw (e, clear_device)
            (with_cache-IsSized d (l.purge cache) (
              laws.size-purge cache
              ∙ All-lookup (λ e. l.size e.1 ≡ size) d nc.device_caches e v.sized))
    ]

    size-clean_keys :
        (now : ℕ) (ks : List String) (cache : l.Cache)
        → l.size (clean_keys l now nc ks cache) ≡ l.size cache
    unfolding clean_keys
    size-clean_keys now [] cache = refl
    size-clean_keys now (k ∷ ks) cache = elim (Option-cases (l.peek k cache)) [
      | inl e ↦ rw (e, clean_keys) (size-clean_keys now ks cache)
      | inr (r, e) ↦
          rw (e, clean_keys)
            (size-clean_keys now ks (remove_if l (is_stale l nc now r) k cache)
              ∙ size-remove_if (is_stale l nc now r) k cache)
    ]

    clean_devices-sized :
        (now : ℕ) (m : Map l.Cache)
        → All (λ e. l.size e.1 ≡ size) m
        → All (λ e. l.size e.1 ≡ size) (clean_devices l now nc m)
    unfolding clean_devices
    clean_devices-sized now [] h = tt
    clean_devices-sized now ((d, cache) ∷ m) h =
        ground (arith, clean_devices-sized now m h.1, size-clean_keys now (l.keys cache) cache)

    perform_cleanup-IsSized : (now : ℕ) → IsSized (perform_cleanup l now nc)
    unfolding perform_cleanup
    perform_cleanup-IsSized now = record {
      limit = v.limit;
      positive = v.positive;
      sized = clean_devices-sized now nc.device_caches v.sized;
    }

    shutdown-IsSized : IsSized (shutdown l nc)
    unfolding shutdown
    shutdown-IsSized = record { limit = v.limit; positive = v.positive; sized = tt }

    count-le-size : (d : String) → get_device_nonce_count l nc d ≤ size
    unfolding get_device_nonce_count
    count-le-size d = elim (Option-cases (lookup d nc.device_caches)) [
      | inl e ↦ rw (e, get_device_nonce_count) (omega arith)
      | inr (cache, e) ↦
          rw (e, get_device_nonce_count)
            (omega (
              arith,
              laws.len-le-size cache,
              All-lookup (λ e. l.size e.1 ≡ size) d nc.device_caches e v.sized,
            ))
    ]

  module _ (ds : Devices) where
    abbrev Sized : DeviceManager l ds → Type 0
    Sized dm = IsSized dm.nonce_cache

    process_new-IsSized :
        (ended : ℕ) (dm : DeviceManager l ds) (d n : String) (action : Bytes)
        → Sized dm
        → Sized (process_new l ds ended dm d n action).1
    unfolding process_new
    process_new-IsSized ended dm d n action v =
        elim (Bool-cases (not (n == "") && not (validate_nonce n))) [
          | inl bad ↦ rw (bad, process_new) v
          | inr good ↦
              let (r, done) = process_device_action l ds dm d action in
              let same : IsSized done.nonce_cache =
                rw (process_device_action-nonces l ds dm d action) v in
              rw (good, process_new) (store_response-IsSized done.nonce_cache same ended d n r)
        ]

    take_turn-IsSized :
        (t : Turn) (dm : DeviceManager l ds) → Sized dm → Sized (take_turn l ds dm t)
    unfolding take_turn clear_device_nonces process_device_action_with_nonce initialize reload
        shutdown_manager
    take_turn-IsSized (cleans now) dm v = perform_cleanup-IsSized dm.nonce_cache v now
    take_turn-IsSized (clears d) dm v = clear_device-IsSized dm.nonce_cache v d
    take_turn-IsSized (initializes debug test_mode) dm v =
        rw (add_devices-nonces l ds dm.config debug test_mode dm) v
    take_turn-IsSized (reloads config debug test_mode) dm v =
        rw
          (add_devices-nonces l ds config debug test_mode
            (record (shutdown_manager l ds dm) { config = config }))
          (shutdown-IsSized dm.nonce_cache v)
    take_turn-IsSized shuts_down dm v = shutdown-IsSized dm.nonce_cache v
    take_turn-IsSized (acts started ended d n action) dm v =
        unless_cached (check_nonce l started dm.nonce_cache d n).0
      where
        checked : DeviceManager l ds
        checked = record dm { nonce_cache = (check_nonce l started dm.nonce_cache d n).1 }

        still : Sized checked
        still = check_nonce-IsSized dm.nonce_cache v started d n

        new : Sized (process_new l ds ended checked d n action).1
        new = process_new-IsSized ended checked d n action still

        unless_cached :
            (cached : Option ActionResponse)
            → Sized (process_unless_cached l ds ended checked d n action cached).1
        unless_cached none = new
        unless_cached (some r) = still

    take_turns-IsSized :
        (ts : List Turn) (dm : DeviceManager l ds) → Sized dm → Sized (take_turns l ds dm ts)
    unfolding take_turns
    take_turns-IsSized [] dm v = v
    take_turns-IsSized (t ∷ ts) dm v =
        take_turns-IsSized ts (take_turn l ds dm t) (take_turn-IsSized t dm v)

-- Whatever a new hub does from then on (its devices are made, it acts, cleans up, clears a device,
-- takes a new configuration or shuts down), it remembers at most fifty nonces for each device.
pub get_device_nonce_count-take_turns :
    (l : Lru NonceResponse) (laws : IsLru l) (ds : Devices) (config : List DeviceConfig)
    (ts : List Turn) (device_id : String)
    → get_device_nonce_count l
        (take_turns l ds (new_device_manager l ds config) ts).nonce_cache
        device_id
      ≤ 50
unfolding new_device_manager new_nonce_cache
get_device_nonce_count-take_turns l laws ds config ts device_id =
    let start = new_device_manager l ds config in
    count-le-size l laws 50 (take_turns l ds start ts).nonce_cache
      (take_turns-IsSized l laws 50 ds ts start
        (record { limit = refl; positive = omega arith; sized = tt }))
      device_id

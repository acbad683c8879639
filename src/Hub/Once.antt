-- ===== src/Hub/Once.antt =====
-- internal/hub/device_manager.go: an action that comes again with its nonce is not done again.
use lucas.Base.{
  ℕ, ◌-◌, ◌≤◌, true, false, String, List, [], ◌∷◌, Option, none, some, ◌≡◌, ◌≢◌, ◌⊎◌, inl, inr,
  refl, ◌∙◌, ap, arith, Bool, ◌==◌, All, HasDistinctKeys, Bool-cases, not, ◌&&◌,
}
use lucas.Hermes.Protocol.{Bytes}
use lucas.Hub.Device.{ActionResponse}
use lucas.Hub.Lru.{Lru, IsLru}
use lucas.Hub.Nonce.{validate_nonce}
use lucas.Hub.NonceCache.{NonceResponse, NonceCache, check_nonce, perform_cleanup}
use lucas.Hub.CacheView.{stored, entry-store_response}
use lucas.Hub.DeviceManager.{
  process_unless_cached, process_new, Devices, DeviceManager, process_device_action,
  process_device_action_with_nonce, clear_device_nonces, DeviceConfig, Result, ManagerError, ok,
  err, create_device, add_devices, initialize, reload, shutdown_manager,
}
use lucas.Hub.Replay.{
  clear-other, cleanup-young, Holds, check-hit, check-other, store-other, check_nonce-Keeps,
  store_response-Keeps,
}

-- What a hub does between two actions: the cleanup, the clearing of a device, other actions, and
-- that its devices are made, that it takes a new configuration, or that it shuts down.
pub data Turn : Type 0 where
  cleans : ℕ → Turn
  clears : String → Turn
  acts : ℕ → ℕ → String → String → Bytes → Turn
  initializes : Bool → Bool → Turn
  reloads : List DeviceConfig → Bool → Bool → Turn
  shuts_down : Turn

module _ (l : Lru NonceResponse) (ds : Devices) where
  abbrev with_nonces : DeviceManager l ds → NonceCache l → DeviceManager l ds
  with_nonces dm nc = record dm { nonce_cache = nc }

  unfoldable pub take_turn : DeviceManager l ds → Turn → DeviceManager l ds
  unfolding perform_cleanup clear_device_nonces process_device_action_with_nonce initialize reload
      shutdown_manager
  take_turn dm (cleans now) = with_nonces dm (perform_cleanup l now dm.nonce_cache)
  take_turn dm (clears d) = clear_device_nonces l ds dm d
  take_turn dm (acts started ended d n action) =
      (process_device_action_with_nonce l ds started ended dm d n action).1
  take_turn dm (initializes debug test_mode) = (initialize l ds debug test_mode dm).0
  take_turn dm (reloads config debug test_mode) = (reload l ds config debug test_mode dm).0
  take_turn dm shuts_down = shutdown_manager l ds dm

  unfoldable pub take_turns : DeviceManager l ds → List Turn → DeviceManager l ds
  unfolding take_turn
  take_turns dm [] = dm
  take_turns dm (t ∷ ts) = take_turns (take_turn dm t) ts

  pub process_device_action-nonces :
      (dm : DeviceManager l ds) (d : String) (action : Bytes)
      → (process_device_action l ds dm d action).1.nonce_cache ≡ dm.nonce_cache
  unfolding process_device_action
  process_device_action-nonces dm d action = ground arith

  made_cases :
      (c : DeviceConfig) (debug test_mode : Bool)
      → let made = create_device l ds c debug test_mode in
        ((e : ManagerError) × (made ≡ err e)) ⊎ ((device : ds.Device) × (made ≡ ok device))
  made_cases c debug test_mode = made (create_device l ds c debug test_mode)
    where
      made :
          (r : Result ds.Device)
          → ((e : ManagerError) × (r ≡ err e)) ⊎ ((device : ds.Device) × (r ≡ ok device))
      made (err e) = inl (e, refl)
      made (ok device) = inr (device, refl)

  pub add_devices-nonces :
      (cs : List DeviceConfig) (debug test_mode : Bool) (dm : DeviceManager l ds)
      → (add_devices l ds cs debug test_mode dm).0.nonce_cache ≡ dm.nonce_cache
  unfolding add_devices
  add_devices-nonces [] debug test_mode dm = refl
  add_devices-nonces (c ∷ cs) debug test_mode dm = elim (made_cases c debug test_mode) [
    | inl (e, p) ↦ rw (p, add_devices)
    | inr (device, p) ↦ rw (p, add_devices) (add_devices-nonces cs debug test_mode _)
  ]

  -- The turn does not clear the device, act on it under another nonce, take a new configuration or
  -- shut down; a cleanup and an action come while the entry, stored at `since`, is young.
  abbrev pub Spares : String → String → ℕ → ℕ → Turn → Type 0
  Spares d n since expiration (cleans now) = now - since ≤ expiration
  Spares d n since expiration (clears d') = d' ≢ d
  Spares d n since expiration (acts started ended d' n' action) =
      (d' ≢ d) ⊎ ((d' ≡ d) × (n' ≡ n) × (started - since ≤ expiration))
  Spares d n since expiration (initializes debug test_mode) = Unit
  Spares d n since expiration (reloads config debug test_mode) = ⊥
  Spares d n since expiration shuts_down = ⊥

  module _ (laws : IsLru l) (d n : String) (full : n ≢ "") (e : NonceResponse)
      (expiration : ℕ) where
    abbrev Held : DeviceManager l ds → Type 0
    Held dm = Holds l laws d n full e expiration dm.nonce_cache

    -- The nonce comes again: the answer is the stored one, and no device is given anything.
    hit :
        (started ended : ℕ) (dm : DeviceManager l ds) (action : Bytes)
        → Held dm
        → started - e.timestamp ≤ expiration
        → let o = process_device_action_with_nonce l ds started ended dm d n action in
          (o.0 ≡ e.response) × (o.1.performed ≡ dm.performed) × Held o.1
    unfolding process_device_action_with_nonce
    hit started ended dm action h young =
        let (found, still) =
          check-hit l laws d n full e expiration started dm.nonce_cache h young in
        rw (found, process_device_action_with_nonce) (refl, refl, still)

    process_new-other :
        (ended : ℕ) (dm : DeviceManager l ds) (d' n' : String) (action : Bytes)
        → d' ≢ d
        → Held dm
        → Held (process_new l ds ended dm d' n' action).1
    unfolding process_new
    process_new-other ended dm d' n' action other h =
        elim (Bool-cases (not (n' == "") && not (validate_nonce n'))) [
          | inl bad ↦ rw (bad, process_new) h
          | inr good ↦
              let (r, done) = process_device_action l ds dm d' action in
              let same : Held done = rw (process_device_action-nonces dm d' action) h in
              rw (good, process_new)
                (store-other l laws d n full e expiration ended done.nonce_cache d' n' r other same)
        ]

    acts-other :
        (started ended : ℕ) (dm : DeviceManager l ds) (d' n' : String) (action : Bytes)
        → d' ≢ d
        → Held dm
        → Held (process_device_action_with_nonce l ds started ended dm d' n' action).1
    unfolding process_device_action_with_nonce
    acts-other started ended dm d' n' action other h =
        unless_cached (check_nonce l started dm.nonce_cache d' n').0
      where
        checked : DeviceManager l ds
        checked = with_nonces dm (check_nonce l started dm.nonce_cache d' n').1

        still : Held checked
        still = check-other l laws d n full e expiration started dm.nonce_cache d' n' other h

        new : Held (process_new l ds ended checked d' n' action).1
        new = process_new-other ended checked d' n' action other still

        unless_cached :
            (cached : Option ActionResponse)
            → Held (process_unless_cached l ds ended checked d' n' action cached).1
        unless_cached none = new
        unless_cached (some r) = still

    take_turn-Held :
        (t : Turn) (dm : DeviceManager l ds)
        → Spares d n e.timestamp expiration t
        → Held dm
        → Held (take_turn dm t)
    unfolding take_turn clear_device_nonces initialize
    take_turn-Held (cleans now) dm young h =
        cleanup-young l laws d n full e expiration now dm.nonce_cache young h
    take_turn-Held (clears d') dm other h =
        clear-other l laws d n full e expiration dm.nonce_cache d' other h
    take_turn-Held (acts started ended d' n' action) dm (inl other) h =
        acts-other started ended dm d' n' action other h
    take_turn-Held (acts started ended d' n' action) dm (inr (same, mine, young)) h =
        rw (same, mine) (hit started ended dm action h young).2
    take_turn-Held (initializes debug test_mode) dm s h =
        rw (add_devices-nonces dm.config debug test_mode dm) h
    take_turn-Held (reloads config debug test_mode) dm s h = absurd s
    take_turn-Held shuts_down dm s h = absurd s

    take_turns-Held :
        (ts : List Turn) (dm : DeviceManager l ds)
        → All (Spares d n e.timestamp expiration) ts
        → Held dm
        → Held (take_turns dm ts)
    unfolding take_turns
    take_turns-Held [] dm s h = h
    take_turns-Held (t ∷ ts) dm s h =
        take_turns-Held ts (take_turn dm t) s.1 (take_turn-Held t dm s.0 h)

  module _ (laws : IsLru l) (started ended : ℕ) (dm : DeviceManager l ds) (d n : String) where
    valid→ne-nil : validate_nonce n ≡ true → n ≢ ""
    unfolding validate_nonce
    valid→ne-nil h = ground arith

    abbrev first : Bytes → ActionResponse × DeviceManager l ds
    first action = process_device_action_with_nonce l ds started ended dm d n action

    -- The first action with a nonce stores its response.
    first-Held :
        (valid : validate_nonce n ≡ true) (action : Bytes)
        → (check_nonce l started dm.nonce_cache d n).0 ≡ none
        → HasDistinctKeys dm.nonce_cache.device_caches
        → Held laws d n
            (valid→ne-nil valid)
            (stored ended n (first action).0)
            dm.nonce_cache.expiration
            (first action).1
    unfolding process_device_action_with_nonce process_new
    first-Held valid action miss distinct =
        let full = valid→ne-nil valid in
        let checked = with_nonces dm (check_nonce l started dm.nonce_cache d n).1 in
        let (r, done) = process_device_action l ds checked d action in
        let nonces = process_device_action-nonces checked d action in
        let k1 = check_nonce-Keeps l laws started dm.nonce_cache d n in
        let k2 = store_response-Keeps l laws ended done.nonce_cache d n r in
        let good : (not (n == "") && not (validate_nonce n)) ≡ false = ground (arith, valid) in
        rw (miss, process_device_action_with_nonce, good, process_new)
          (record {
            held =
                ground (arith, entry-store_response l laws ended done.nonce_cache d n r d n full);
            expires = k2.expiration ∙ ap (λ c. c.expiration) nonces ∙ k1.expiration;
            distinct = k2.distinct (rw nonces (k1.distinct distinct));
          })

    -- In a cache whose devices are distinct, an action was done with a valid nonce that had no
    -- answer yet. Whatever the hub did since then, within the expiration and but for reloading its
    -- configuration, shutting down, clearing the device or acting on it under another nonce: at most the expiration later the same nonce gets
    -- the same response again, whatever the action is, and no device is given anything.
    pub process_device_action_with_nonce-again :
        (again done_again : ℕ) (action other_action : Bytes) (ts : List Turn)
        → validate_nonce n ≡ true
        → (check_nonce l started dm.nonce_cache d n).0 ≡ none
        → HasDistinctKeys dm.nonce_cache.device_caches
        → All (Spares d n ended dm.nonce_cache.expiration) ts
        → again - ended ≤ dm.nonce_cache.expiration
        → let later = take_turns (first action).1 ts in
          let o = process_device_action_with_nonce l ds again done_again later d n other_action in
          (o.0 ≡ (first action).0) × (o.1.performed ≡ later.performed)
    process_device_action_with_nonce-again again done_again action other_action ts valid miss
          distinct spared young =
        let full = valid→ne-nil valid in
        let e = stored ended n (first action).0 in
        let exp = dm.nonce_cache.expiration in
        let held =
          take_turns-Held laws d n full e exp ts (first action).1 spared
            (first-Held valid action miss distinct) in
        let (same, none_done, still) =
          hit laws d n full e exp again done_again (take_turns (first action).1 ts) other_action
            held young in
        (same, none_done)

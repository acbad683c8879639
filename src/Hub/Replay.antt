-- ===== src/Hub/Replay.antt =====
-- internal/hub/nonce_cache.go: what keeps the entry of one device and nonce stored.
use lucas.Base.{
  ℕ, ◌-◌, ◌≤◌, String, Option, none, some, ◌≡◌, ◌≢◌, inl, inr, refl, ◌∙◌, arith, str_dec, lookup,
  ◌==◌, HasDistinctKeys, insert-HasDistinctKeys, Option-cases, Bool-cases,
}
use lucas.Hub.Device.{ActionResponse}
use lucas.Hub.Lru.{Lru, IsLru}
use lucas.Hub.NonceCache.{
  NonceResponse, NonceCache, get_device_cache, with_cache, is_stale, answer_cached, check_nonce,
  store_response, clear_device, perform_cleanup,
}
use lucas.Hub.CacheView.{entry-with_cache, entry, fresh, entry-check_nonce, entry-store_response}
use lucas.Hub.CacheCleanup.{entry-perform_cleanup}

module _ (l : Lru NonceResponse) (laws : IsLru l) where
  -- The expiration and the distinctness of the devices are kept.
  pub record Keeps (nc after : NonceCache l) : Type 0 where
    pub expiration : after.expiration ≡ nc.expiration
    pub distinct : HasDistinctKeys nc.device_caches → HasDistinctKeys after.device_caches

  pub with_cache-Keeps :
      (nc : NonceCache l) (d : String) (cache : l.Cache) → Keeps nc (with_cache l nc d cache)
  with_cache-Keeps nc d cache = record {
    expiration = refl;
    distinct = insert-HasDistinctKeys d cache nc.device_caches;
  }

  answer_cached-Keeps :
      (now : ℕ) (nc : NonceCache l) (d n : String) (got : Option NonceResponse × l.Cache)
      → Keeps nc (answer_cached l now nc d n got).1
  unfolding answer_cached
  answer_cached-Keeps now nc d n (none, cache) = with_cache-Keeps nc d cache
  answer_cached-Keeps now nc d n (some r, cache) = elim (Bool-cases (is_stale l nc now r)) [
    | inl e ↦ rw e (with_cache-Keeps nc d (l.remove n cache))
    | inr e ↦ rw e (with_cache-Keeps nc d cache)
  ]

  pub check_nonce-Keeps :
      (now : ℕ) (nc : NonceCache l) (d n : String) → Keeps nc (check_nonce l now nc d n).1
  unfolding check_nonce
  check_nonce-Keeps now nc d n = elim (Bool-cases (n == "")) [
    | inl e ↦ rw e (record { expiration = refl; distinct = λ h. h })
    | inr e ↦ rw e (answer_cached-Keeps now nc d n (l.get n (get_device_cache l nc d)))
  ]

  pub store_response-Keeps :
      (now : ℕ) (nc : NonceCache l) (d n : String) (r : ActionResponse)
      → Keeps nc (store_response l now nc d n r)
  unfolding store_response
  store_response-Keeps now nc d n r = elim (Bool-cases (n == "")) [
    | inl e ↦ rw e (record { expiration = refl; distinct = λ h. h })
    | inr e ↦ rw e (with_cache-Keeps nc d _)
  ]

  module _ (d n : String) (full : n ≢ "") (e : NonceResponse) (expiration : ℕ) where
    -- The entry is stored, in a cache of that expiration.
    pub record Holds (nc : NonceCache l) : Type 0 where
      pub held : entry l nc d n ≡ some e
      pub expires : nc.expiration ≡ expiration
      pub distinct : HasDistinctKeys nc.device_caches

    pub Holds-Keeps :
        (nc after : NonceCache l)
        → Keeps nc after
        → entry l after d n ≡ entry l nc d n
        → Holds nc
        → Holds after
    Holds-Keeps nc after k same h = record {
      held = same ∙ h.held;
      expires = k.expiration ∙ h.expires;
      distinct = k.distinct h.distinct;
    }

    -- An entry is not stale while its age is within the expiration.
    pub fresh-held :
        (nc : NonceCache l) (now : ℕ)
        → Holds nc
        → now - e.timestamp ≤ expiration
        → fresh l nc now (entry l nc d n) ≡ some e
    fresh-held nc now h young = ground (arith, h.held, h.expires)

    pub check-hit :
        (now : ℕ) (nc : NonceCache l)
        → Holds nc
        → now - e.timestamp ≤ expiration
        → ((check_nonce l now nc d n).0 ≡ some e.response) × Holds (check_nonce l now nc d n).1
    check-hit now nc h young =
        let (result, table) = entry-check_nonce l laws now nc d n d n full in
        let f = fresh-held nc now h young in
        (
          ground (arith, result, f),
          Holds-Keeps nc _ (check_nonce-Keeps now nc d n) (ground (arith, table, f, h.held)) h,
        )

    pub check-other :
        (now : ℕ) (nc : NonceCache l) (d' n' : String)
        → d' ≢ d
        → Holds nc
        → Holds (check_nonce l now nc d' n').1
    unfolding check_nonce str_dec
    check-other now nc d' n' other h = elim (str_dec n' "") [
      | yes empty ↦ rw empty h
      | no given ↦
          Holds-Keeps nc _ (check_nonce-Keeps now nc d' n')
            (ground (arith, (entry-check_nonce l laws now nc d' n' d n given).1)) h
    ]

    pub store-other :
        (now : ℕ) (nc : NonceCache l) (d' n' : String) (r : ActionResponse)
        → d' ≢ d
        → Holds nc
        → Holds (store_response l now nc d' n' r)
    unfolding store_response str_dec
    store-other now nc d' n' r other h = elim (str_dec n' "") [
      | yes empty ↦ rw empty h
      | no given ↦
          Holds-Keeps nc _ (store_response-Keeps now nc d' n' r)
            (ground (arith, entry-store_response l laws now nc d' n' r d n given)) h
    ]

    pub clear-other :
        (nc : NonceCache l) (d' : String) → d' ≢ d → Holds nc → Holds (clear_device l nc d')
    unfolding clear_device
    clear-other nc d' other h = elim (Option-cases (lookup d' nc.device_caches)) [
      | inl q ↦ rw (q, clear_device) h
      | inr (cache, q) ↦
          rw (q, clear_device)
            (Holds-Keeps nc _ (with_cache-Keeps nc d' (l.purge cache))
              (ground (arith, entry-with_cache l laws nc d' (l.purge cache) d n)) h)
    ]

    pub cleanup-young :
        (now : ℕ) (nc : NonceCache l)
        → now - e.timestamp ≤ expiration
        → Holds nc
        → Holds (perform_cleanup l now nc)
    unfolding perform_cleanup
    cleanup-young now nc young h =
        let (table, distinct) = entry-perform_cleanup l laws now nc h.distinct in
        record {
          held = table d n ∙ fresh-held nc now h young;
          expires = h.expires;
          distinct = distinct;
        }

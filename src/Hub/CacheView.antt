-- ===== src/Hub/CacheView.antt =====
-- internal/hub/nonce_cache.go: the cache as a table from devices and nonces to entries.
use lucas.Base.{
  ℕ, false, String, List, [], ◌∷◌, Option, none, some, ◌≡◌, ◌≢◌, ◌⊎◌, inl, inr, refl, ◌∙◌, sym,
  arith, ite, str_dec, lookup, lookup-insert, contains, if◌then◌else◌, ◌==◌, Option-cases,
  Bool-cases,
}
use lucas.Hub.Device.{ActionResponse}
use lucas.Hub.Lru.{Lru, IsLru}
use lucas.Hub.NonceCache.{
  NonceResponse, NonceCache, get_device_cache, with_cache, is_stale, answer_cached, check_nonce,
  store_response, clean_keys,
}

-- The entry that a store makes.
abbrev pub stored : ℕ → String → ActionResponse → NonceResponse
stored now nonce response = record { nonce = nonce; response = response; timestamp = now }

module _ (l : Lru NonceResponse) where
  abbrev pub entry_in : String → Option l.Cache → Option NonceResponse
  entry_in nonce none = none
  entry_in nonce (some cache) = l.peek nonce cache

  -- What is stored for a device under a nonce.
  unfoldable pub entry : NonceCache l → String → String → Option NonceResponse
  entry nc device_id nonce = entry_in nonce (lookup device_id nc.device_caches)

  -- An entry that is not stale.
  abbrev pub fresh : NonceCache l → ℕ → Option NonceResponse → Option NonceResponse
  fresh nc now none = none
  fresh nc now (some r) = if is_stale l nc now r then none else some r

  abbrev pub response_of : Option NonceResponse → Option ActionResponse
  response_of none = none
  response_of (some r) = some r.response

  module _ (laws : IsLru l) where
    peek-get_device_cache :
        (nc : NonceCache l) (d n : String) → l.peek n (get_device_cache l nc d) ≡ entry nc d n
    unfolding get_device_cache entry
    peek-get_device_cache nc d n = elim (Option-cases (lookup d nc.device_caches)) [
      | inl e ↦ rw (e, get_device_cache) (laws.peek-create nc.max_size n)
      | inr (cache, e) ↦ rw (e, get_device_cache)
    ]

    pub entry-with_cache :
        (nc : NonceCache l) (d : String) (cache : l.Cache) (d' n' : String)
        → entry (with_cache l nc d cache) d' n'
          ≡ ite (str_dec d d') (l.peek n' cache) (entry nc d' n')
    unfolding entry
    entry-with_cache nc d cache d' n' = ground (arith, lookup-insert d d' cache nc.device_caches)

    -- The table after a check.
    abbrev pub checked : ℕ → NonceCache l → String → String → String → String → Option NonceResponse
    checked now nc d n d' n' =
        ite (str_dec d d') (ite (str_dec n n') (fresh nc now (entry nc d n)) (entry nc d' n'))
          (entry nc d' n')

    entry-answer_cached :
        (now : ℕ) (nc : NonceCache l) (d n d' n' : String) (got : Option NonceResponse × l.Cache)
        → got.0 ≡ entry nc d n
        → l.peek n' got.1 ≡ entry nc d n'
        → let o = answer_cached l now nc d n got in
          (o.0 ≡ response_of (fresh nc now (entry nc d n)))
          × (entry o.1 d' n' ≡ checked now nc d n d' n')
    unfolding answer_cached
    entry-answer_cached now nc d n d' n' (none, cache) e h =
        ground (arith, entry-with_cache nc d cache d' n')
    entry-answer_cached now nc d n d' n' (some r, cache) e h = ground (
      arith,
      entry-with_cache nc d cache d' n',
      entry-with_cache nc d (l.remove n cache) d' n',
      laws.peek-remove n' n cache,
    )

    -- A check for a nonce that is not empty answers with what is stored for the device under it,
    -- unless that is stale; then it is removed. Nothing else of the table changes.
    pub entry-check_nonce :
        (now : ℕ) (nc : NonceCache l) (d n d' n' : String)
        → n ≢ ""
        → ((check_nonce l now nc d n).0 ≡ response_of (fresh nc now (entry nc d n)))
          × (entry (check_nonce l now nc d n).1 d' n' ≡ checked now nc d n d' n')
    unfolding check_nonce
    entry-check_nonce now nc d n d' n' full =
        let cache = get_device_cache l nc d in
        let given : (n == "") ≡ false = ground arith in
        rw given (
          entry-answer_cached now nc d n d' n' (l.get n cache)
            (laws.get-peek n cache ∙ peek-get_device_cache nc d n)
            (laws.peek-get n' n cache ∙ peek-get_device_cache nc d n'))

    -- A store under a nonce that is not empty puts the response there, and leaves the other devices
    -- alone; under the other nonces of the device, an entry stays or is evicted.
    pub entry-store_response :
        (now : ℕ) (nc : NonceCache l) (d n : String) (r : ActionResponse) (d' n' : String)
        → n ≢ ""
        → let after = entry (store_response l now nc d n r) d' n' in
          ((d ≢ d') × (after ≡ entry nc d' n'))
          ⊎ ((d ≡ d') × (n ≡ n') × (after ≡ some (stored now n r)))
          ⊎ ((d ≡ d') × (n ≢ n') × ((after ≡ entry nc d' n') ⊎ (after ≡ none)))
    unfolding store_response
    entry-store_response now nc d n r d' n' full =
        let cache = get_device_cache l nc d in
        let given : (n == "") ≡ false = ground arith in
        let e = stored now n r in
        let written = entry-with_cache nc d (l.add n e cache) d' n' in
        rw given (elim (str_dec d d') [
          | no other ↦ inl (other, ground (arith, written))
          | yes same ↦ elim (str_dec n n') [
            | yes mine ↦
                inr (inl (same, mine, ground (arith, written, laws.peek-add_self n e cache)))
            | no other ↦ inr (
                inr (
                  same,
                  other,
                  elim (laws.peek-add_other n' n e cache (λ q. other (sym q))) [
                    | inl q ↦ inl (ground (arith, written, q, peek-get_device_cache nc d n'))
                    | inr q ↦ inr (ground (arith, written, q))
                  ],
                ))
          ]
        ])

    pub clean_keys-peek :
        (now : ℕ) (nc : NonceCache l) (ks : List String) (cache : l.Cache) (n : String)
        → l.peek n (clean_keys l now nc ks cache)
          ≡ (if contains n ks then fresh nc now (l.peek n cache) else l.peek n cache)
    unfolding clean_keys contains
    clean_keys-peek now nc [] cache n = refl
    clean_keys-peek now nc (k ∷ ks) cache n = elim (Option-cases (l.peek k cache)) [
      | inl e ↦ rw (e, clean_keys) (ground (arith, clean_keys-peek now nc ks cache n))
      | inr (r, e) ↦ elim (Bool-cases (is_stale l nc now r)) [
        | inl old ↦
            rw (e, clean_keys)
              (rw old (
                ground (
                  arith,
                  clean_keys-peek now nc ks (l.remove k cache) n,
                  laws.peek-remove n k cache,
                )))
        | inr new ↦ rw (e, clean_keys) (rw new (ground (arith, clean_keys-peek now nc ks cache n)))
      ]
    ]

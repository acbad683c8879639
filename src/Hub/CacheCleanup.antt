-- ===== src/Hub/CacheCleanup.antt =====
-- internal/hub/nonce_cache.go: what the periodic cleanup leaves.
use lucas.Base.{
  ℕ, true, false, String, List, [], ◌∷◌, none, Map, ◌≡◌, refl, arith, lookup, contains, length,
  nat_eq, HasDistinctKeys,
}
use lucas.Hub.Lru.{Lru, IsLru}
use lucas.Hub.NonceCache.{NonceResponse, NonceCache, clean_keys, clean_devices, perform_cleanup}
use lucas.Hub.CacheView.{entry, entry_in, fresh, clean_keys-peek}

-- A list that holds a text is not empty.
contains-nil : (k : String) (ks : List String) → nat_eq (length ks) 0 ≡ true → contains k ks ≡ false
unfolding contains
contains-nil k [] h = refl
contains-nil k (j ∷ ks) h = ground arith

module _ (l : Lru NonceResponse) (laws : IsLru l) (now : ℕ) (nc : NonceCache l) where
  -- One cache, cleaned.
  abbrev cleaned : l.Cache → l.Cache
  cleaned cache = clean_keys l now nc (l.keys cache) cache

  peek-cleaned :
      (cache : l.Cache) (n : String) → l.peek n (cleaned cache) ≡ fresh l nc now (l.peek n cache)
  peek-cleaned cache n =
      ground (arith, clean_keys-peek l laws now nc (l.keys cache) cache n, laws.keys-peek n cache)

  -- A cache that is left empty holds nothing.
  peek-empty :
      (cache : l.Cache) (n : String) → nat_eq (l.len cache) 0 ≡ true → l.peek n cache ≡ none
  peek-empty cache n h =
      ground (arith, laws.len-keys cache, contains-nil n (l.keys cache), laws.keys-peek n cache)

  lookup-clean_devices :
      (m : Map l.Cache) (d : String)
      → lookup d m ≡ none
      → lookup d (clean_devices l now nc m) ≡ none
  unfolding clean_devices lookup
  lookup-clean_devices [] d h = refl
  lookup-clean_devices ((j, cache) ∷ m) d h = ground (arith, lookup-clean_devices m d)

  entry-clean_devices :
      (m : Map l.Cache) (d n : String)
      → HasDistinctKeys m
      → entry_in l n (lookup d (clean_devices l now nc m))
        ≡ fresh l nc now (entry_in l n (lookup d m))
  unfolding clean_devices lookup
  entry-clean_devices [] d n h = refl
  entry-clean_devices ((j, cache) ∷ m) d n h = ground (
    arith,
    entry-clean_devices m d n h.1,
    lookup-clean_devices m j h.0,
    peek-cleaned cache n,
    peek-empty (cleaned cache) n,
  )

  clean_devices-HasDistinctKeys :
      (m : Map l.Cache) → HasDistinctKeys m → HasDistinctKeys (clean_devices l now nc m)
  unfolding clean_devices
  clean_devices-HasDistinctKeys [] h = tt
  clean_devices-HasDistinctKeys ((j, cache) ∷ m) h =
      ground (arith, clean_devices-HasDistinctKeys m h.1, lookup-clean_devices m j h.0)

  -- In a cache whose devices are distinct, the cleanup removes exactly the stale entries, of every
  -- device and under every nonce, and the devices are distinct after it.
  pub entry-perform_cleanup :
      HasDistinctKeys nc.device_caches
      → ((d n : String) → entry l (perform_cleanup l now nc) d n ≡ fresh l nc now (entry l nc d n))
        × HasDistinctKeys (perform_cleanup l now nc).device_caches
  unfolding perform_cleanup entry
  entry-perform_cleanup h = (
    λ d n. entry-clean_devices nc.device_caches d n h,
    clean_devices-HasDistinctKeys nc.device_caches h,
  )

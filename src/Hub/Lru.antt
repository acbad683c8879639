-- ===== src/Hub/Lru.antt =====
-- The LRU cache of `github.com/hashicorp/golang-lru/v2`, which is not part of the repository, as
-- an interface: its operations, and what its documentation says of them.
use lucas.Base.{
  ◌<◌, ℕ, ◌≤◌, ◌≡◌, ◌≢◌, ◌⊎◌, Bool, true, false, String, List, Option, none, some, ite, str_dec,
  length, contains,
}

abbrev pub is_some {ℓ} : {A : Type ℓ} → Option A → Bool
is_some none = false
is_some (some a) = true

-- A cache with texts for keys; `create` is New.
pub record Lru (V : Type 0) : Type 1 where
  pub Cache : Type 0
  pub create : ℕ → Cache
  pub get : String → Cache → Option V × Cache
  pub peek : String → Cache → Option V
  pub add : String → V → Cache → Cache
  pub remove : String → Cache → Cache
  pub purge : Cache → Cache
  pub len : Cache → ℕ
  pub keys : Cache → List String
  pub size : Cache → ℕ

-- A read gives what is stored, and changes at most the order of use; an addition stores its entry
-- and may evict others; the cache never holds more entries than its size.
pub record IsLru {V : Type 0} (l : Lru V) : Type 0 where
  pub peek-create : (n : ℕ) (k : String) → l.peek k (l.create n) ≡ none
  pub get-peek : (k : String) (c : l.Cache) → (l.get k c).0 ≡ l.peek k c
  pub peek-get : (j k : String) (c : l.Cache) → l.peek j (l.get k c).1 ≡ l.peek j c
  pub peek-add_self : (k : String) (v : V) (c : l.Cache) → l.peek k (l.add k v c) ≡ some v
  pub peek-add_other :
      (j k : String) (v : V) (c : l.Cache)
      → j ≢ k
      → (l.peek j (l.add k v c) ≡ l.peek j c) ⊎ (l.peek j (l.add k v c) ≡ none)
  pub peek-remove :
      (j k : String) (c : l.Cache) → l.peek j (l.remove k c) ≡ ite (str_dec k j) none (l.peek j c)
  pub peek-purge : (j : String) (c : l.Cache) → l.peek j (l.purge c) ≡ none
  pub keys-peek : (k : String) (c : l.Cache) → contains k (l.keys c) ≡ is_some (l.peek k c)
  pub len-keys : (c : l.Cache) → l.len c ≡ length (l.keys c)
  pub len-le-size : (c : l.Cache) → l.len c ≤ l.size c
  pub size-create : (n : ℕ) → 0 < n → l.size (l.create n) ≡ n
  pub size-get : (k : String) (c : l.Cache) → l.size (l.get k c).1 ≡ l.size c
  pub size-add : (k : String) (v : V) (c : l.Cache) → l.size (l.add k v c) ≡ l.size c
  pub size-remove : (k : String) (c : l.Cache) → l.size (l.remove k c) ≡ l.size c
  pub size-purge : (c : l.Cache) → l.size (l.purge c) ≡ l.size c

-- ===== src/Hub/LruList.antt =====
-- An LRU cache as a list, most recently used first: the documented laws can be met.
use lucas.Base.{
  ℕ, zero, suc, ◌-◌, ◌≤◌, ◌<◌, String, List, [], ◌∷◌, Option, none, some, Map, ◌≡◌, ◌≢◌, ◌⊎◌, inl,
  inr, refl, ap, arith, str_dec, lookup, delete, lookup-delete, contains, length, take,
  Option-cases,
}
use lucas.Hub.Lru.{Lru, IsLru, is_some}

-- `slack` is one less than the size.
pub record ListCache (V : Type 0) : Type 0 where
  pub slack : ℕ
  pub entries : Map V
  pub fits : length entries ≤ suc slack

module _ {V : Type 0} where
  unfoldable pub keys_of : Map V → List String
  keys_of [] = []
  keys_of ((k, v) ∷ m) = k ∷ keys_of m

  pub length-delete-le : (k : String) (m : Map V) → length (delete k m) ≤ length m
  unfolding delete
  length-delete-le k [] = omega arith
  length-delete-le k ((j, v) ∷ m) = ground (arith, length-delete-le k m)

  pub length-take-le : (n : ℕ) (m : Map V) → length (take n m) ≤ n
  length-take-le zero m = omega arith
  length-take-le (suc n) [] = omega arith
  length-take-le (suc n) (x ∷ m) = omega (arith, length-take-le n m)

  -- What is found in a part of the front was found before.
  lookup-take :
      (n : ℕ) (k : String) (m : Map V)
      → (lookup k (take n m) ≡ lookup k m) ⊎ (lookup k (take n m) ≡ none)
  unfolding lookup
  lookup-take zero k m = inr refl
  lookup-take (suc n) k [] = inl refl
  lookup-take (suc n) k ((j, v) ∷ m) = elim (str_dec j k) [
    | yes e ↦ inl (ground arith)
    | no e ↦ elim (lookup-take n k m) [ inl q ↦ inl (ground arith) | inr q ↦ inr (ground arith) ]
  ]

  contains-keys_of : (k : String) (m : Map V) → contains k (keys_of m) ≡ is_some (lookup k m)
  unfolding keys_of contains lookup
  contains-keys_of k [] = refl
  contains-keys_of k ((j, v) ∷ m) = ground (arith, contains-keys_of k m)

  length-keys_of : (m : Map V) → length m ≡ length (keys_of m)
  unfolding keys_of
  length-keys_of [] = refl
  length-keys_of ((j, v) ∷ m) = ap suc (length-keys_of m)

  -- A use moves the entry to the front.
  unfoldable pub touched : String → Option V → Map V → Map V
  touched k none m = m
  touched k (some v) m = (k, v) ∷ delete k m

  length-delete-lt :
      (k : String) (m : Map V) (v : V) → lookup k m ≡ some v → length (delete k m) < length m
  unfolding lookup delete
  length-delete-lt k [] v e = cc
  length-delete-lt k ((j, w) ∷ m) v e = ground (arith, length-delete-lt k m v, length-delete-le k m)

  pub length-touched : (k : String) (m : Map V) → length (touched k (lookup k m) m) ≤ length m
  unfolding touched
  length-touched k m = elim (Option-cases (lookup k m)) [
    | inl e ↦ rw (e, touched) (omega arith)
    | inr (v, e) ↦ rw (e, touched) (length-delete-lt k m v e)
  ]

  lookup-touched : (j k : String) (m : Map V) → lookup j (touched k (lookup k m) m) ≡ lookup j m
  unfolding touched lookup
  lookup-touched j k m = elim (Option-cases (lookup k m)) [
    | inl e ↦ rw (e, touched)
    | inr (v, e) ↦ rw (e, touched) (ground (arith, lookup-delete k j m, e))
  ]

  unfoldable pub use_of : String → ListCache V → ListCache V
  use_of k c = record c {
    entries = touched k (lookup k c.entries) c.entries;
    fits = omega (arith, length-touched k c.entries, c.fits);
  }

  unfoldable pub add_to : String → V → ListCache V → ListCache V
  add_to k v c = record c {
    entries = (k, v) ∷ take c.slack (delete k c.entries);
    fits = omega (arith, length-take-le c.slack (delete k c.entries));
  }

  unfoldable pub remove_from : String → ListCache V → ListCache V
  remove_from k c = record c {
    entries = delete k c.entries;
    fits = omega (arith, length-delete-le k c.entries, c.fits);
  }

  unfoldable pub purged : ListCache V → ListCache V
  purged c = record c { entries = []; fits = omega arith }

unfoldable pub list_lru : (V : Type 0) → Lru V
unfolding use_of add_to remove_from purged keys_of touched
list_lru V = record {
  Cache = ListCache V;
  create = λ n. record { slack = n - 1; entries = []; fits = omega arith };
  get = λ k c. (lookup k c.entries, use_of k c);
  peek = λ k c. lookup k c.entries;
  add = add_to;
  remove = remove_from;
  purge = purged;
  len = λ c. length c.entries;
  keys = λ c. keys_of c.entries;
  size = λ c. suc c.slack;
}

module _ {V : Type 0} where
  peek-add_to_self :
      (k : String) (v : V) (c : ListCache V) → lookup k (add_to k v c).entries ≡ some v
  unfolding add_to lookup
  peek-add_to_self k v c = ground arith

  peek-add_to_other :
      (j k : String) (v : V) (c : ListCache V)
      → j ≢ k
      → (lookup j (add_to k v c).entries ≡ lookup j c.entries)
        ⊎ (lookup j (add_to k v c).entries ≡ none)
  unfolding add_to lookup
  peek-add_to_other j k v c h = elim (lookup-take c.slack j (delete k c.entries)) [
    | inl e ↦ inl (ground (arith, lookup-delete k j c.entries))
    | inr e ↦ inr (ground arith)
  ]

  -- The laws of the interface hold.
  pub list_lru-IsLru : IsLru (list_lru V)
  unfolding list_lru use_of add_to remove_from purged lookup
  list_lru-IsLru = record {
    peek-create = λ n k. refl;
    get-peek = λ k c. refl;
    peek-get = λ j k c. lookup-touched j k c.entries;
    peek-add_self = peek-add_to_self;
    peek-add_other = peek-add_to_other;
    peek-remove = λ j k c. lookup-delete k j c.entries;
    peek-purge = λ j c. refl;
    keys-peek = λ k c. contains-keys_of k c.entries;
    len-keys = λ c. length-keys_of c.entries;
    len-le-size = λ c. c.fits;
    size-create = λ n h. omega arith;
    size-get = λ k c. refl;
    size-add = λ k v c. refl;
    size-remove = λ k c. refl;
    size-purge = λ c. refl;
  }

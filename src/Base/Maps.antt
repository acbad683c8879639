-- ===== src/Base/Maps.antt =====
-- Go's `map[string]V` as an association list. The order of the entries stands for the order in
-- which Go iterates, which Go leaves open.
use Prim.Native.String.{String}
use mathlib.Core.List.{List, [], ◌∷◌}
use mathlib.Core.Logic.{ite, if_pos, if_neg, ◌≢◌}
use lucas.Base.Lists.{All}
use mathlib.Core.Option.{Option, none, some}
use mathlib.Core.Path.{◌≡◌, refl, subst}
use native.Mathlib.Omega.{arith}
use lucas.Base.Tests.{str_dec, ◌==◌}
use mathlib.Core.Bool.{Bool, false, ◌||◌}

abbrev pub Map {ℓ} : Type ℓ → Type ℓ
Map V = List (String × V)

unfoldable pub contains : String → List String → Bool
contains k [] = false
contains k (j ∷ js) = j == k || contains k js

module _ {ℓ} {V : Type ℓ} where
  unfoldable pub lookup : String → Map V → Option V
  lookup k [] = none
  lookup k ((j, v) ∷ m) = ite (str_dec j k) (some v) (lookup k m)

  unfoldable pub insert : String → V → Map V → Map V
  insert k v [] = (k, v) ∷ []
  insert k v ((j, w) ∷ m) = ite (str_dec j k) ((k, v) ∷ m) ((j, w) ∷ insert k v m)

  unfoldable pub delete : String → Map V → Map V
  delete k [] = []
  delete k ((j, w) ∷ m) = ite (str_dec j k) (delete k m) ((j, w) ∷ delete k m)

  pub lookup-insert :
      (written asked : String) (v : V) (m : Map V)
      → lookup asked (insert written v m) ≡ ite (str_dec written asked) (some v) (lookup asked m)
  unfolding insert lookup
  lookup-insert k j new [] = refl
  lookup-insert k j new ((i, old) ∷ m) = ground (arith, lookup-insert k j new m)

  pub lookup-delete :
      (k j : String) (m : Map V) → lookup j (delete k m) ≡ ite (str_dec k j) none (lookup j m)
  unfolding lookup delete
  lookup-delete k j [] = ground arith
  lookup-delete k j ((i, w) ∷ m) = ground (arith, lookup-delete k j m)

  pub lookup-insert_self : (k : String) (v : V) (m : Map V) → lookup k (insert k v m) ≡ some v
  lookup-insert_self k v m = ground (arith, lookup-insert k k v m)

  -- The later write is the one that counts.
  pub insert-insert : (k : String) (v w : V) (m : Map V) → insert k v (insert k w m) ≡ insert k v m
  unfolding insert
  insert-insert k v w [] = ground arith
  insert-insert k v w ((i, u) ∷ m) = ground (arith, insert-insert k v w m)

  -- A key occurs once.
  abbrev pub HasDistinctKeys : Map V → Type ℓ
  HasDistinctKeys [] = Unit
  HasDistinctKeys ((k, v) ∷ m) = (lookup k m ≡ none) × HasDistinctKeys m

  pub insert-HasDistinctKeys :
      (k : String) (v : V) (m : Map V) → HasDistinctKeys m → HasDistinctKeys (insert k v m)
  unfolding lookup insert
  insert-HasDistinctKeys k v [] h = (refl, tt)
  insert-HasDistinctKeys k v ((i, w) ∷ m) h =
      ground (arith, insert-HasDistinctKeys k v m h.1, lookup-insert k i v m)

  pub delete-HasDistinctKeys :
      (k : String) (m : Map V) → HasDistinctKeys m → HasDistinctKeys (delete k m)
  unfolding lookup delete
  delete-HasDistinctKeys k [] h = tt
  delete-HasDistinctKeys k ((i, w) ∷ m) h =
      ground (arith, delete-HasDistinctKeys k m h.1, lookup-delete k i m)

  module _ {κ} (P : String × V → Type κ) where
    pub All-insert : (k : String) (v : V) (m : Map V) → P (k, v) → All P m → All P (insert k v m)
    unfolding insert
    All-insert k v [] p h = (p, tt)
    All-insert k v ((i, w) ∷ m) p h = elim (str_dec i k) [
      | yes e ↦ rw (if_pos _ e) (p, h.1)
      | no e ↦ rw (if_neg _ e) (h.0, All-insert k v m p h.1)
    ]

    pub All-delete : (k : String) (m : Map V) → All P m → All P (delete k m)
    unfolding delete
    All-delete k [] h = tt
    All-delete k ((i, w) ∷ m) h = elim (str_dec i k) [
      | yes e ↦ rw (if_pos _ e) (All-delete k m h.1)
      | no e ↦ rw (if_neg _ e) (h.0, All-delete k m h.1)
    ]

    -- What is left has other keys.
    pub All-delete_ne : (k : String) (m : Map V) → All P m → All (λ e. P e × (e.0 ≢ k)) (delete k m)
    unfolding delete
    All-delete_ne k [] h = tt
    All-delete_ne k ((i, w) ∷ m) h = elim (str_dec i k) [
      | yes e ↦ rw (if_pos _ e) (All-delete_ne k m h.1)
      | no e ↦ rw (if_neg _ e) ((h.0, e), All-delete_ne k m h.1)
    ]

    pub All-lookup : (k : String) (m : Map V) {v : V} → lookup k m ≡ some v → All P m → P (k, v)
    unfolding lookup
    All-lookup k [] e h = cc
    All-lookup k ((i, w) ∷ m) {v} e h = elim (str_dec i k) [
      | yes p ↦ let q : w ≡ v = ground arith in subst P (λ j. (p j, q j)) h.0
      | no p ↦ All-lookup k m (ground arith) h.1
    ]

pub ruleset map_laws = (lookup-insert, lookup-delete)

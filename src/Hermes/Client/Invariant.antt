-- ===== src/Hermes/Client/Invariant.antt =====
-- internal/hermes/client.go: the well-formed client, and how writes to the heap keep it so.
use lucas.Base.{
  ℕ, ◌<◌, false, true, String, List, [], ◌∷◌, ◌++◌, Option, none, some, ◌≡◌, ◌≢◌, subst, arith, All,
  length, get_or, modify, HasDistinctKeys, length-modify, length-append, get_or-modify_self,
  get_or-modify_ne, get_or-append_left, ℕ_discrete,
}
use lucas.Hermes.Client.Channel.{Channel, Run, ok, panicked}
use lucas.Hermes.Client.State.{HermesClient, PendingClientRequest, zero_request}

abbrev pub IsOpen : {A : Type 0} → Option (Channel A) → Type 0
IsOpen none = ⊥
IsOpen (some ch) = ch.is_closed ≡ false

abbrev pub IsReady : String → PendingClientRequest → Type 0
IsReady k r = (r.message_id ≡ k) × IsOpen r.response × IsOpen r.error

abbrev pub Heap : Type 0
Heap = List PendingClientRequest

-- A pending entry points to the request of that id, with both channels open.
abbrev pub IsWaiting : Heap → String × ℕ → Type 0
IsWaiting h (k, p) = (p < length h) × IsReady k (get_or h p zero_request)

-- A nonce points to a request that nobody waits for.
abbrev pub IsForgotten : Heap → String × ℕ → Type 0
IsForgotten h (k, p) = (p < length h) × ((get_or h p zero_request).fire_and_forget ≡ true)

pub record IsWellFormed (c : HermesClient) : Type 0 where
  pub distinct : HasDistinctKeys c.pending
  pub waiting : All (IsWaiting c.heap) c.pending
  pub forgotten : All (IsForgotten c.heap) c.pending_nonces

-- The program goes on, in a state of which that is true.
abbrev pub Ensures : {A : Type 0} → (A → Type 0) → Run A → Type 0
Ensures P (ok a) = P a
Ensures P panicked = ⊥

module _ (h : Heap) (p : ℕ) (new : PendingClientRequest) where
  abbrev pub written : Heap
  written = modify h p (λ _. new)

  -- A write that leaves a ready request ready.
  pub written-IsWaiting :
      ((k : String) → IsReady k (get_or h p zero_request) → IsReady k new)
      → (e : String × ℕ) → IsWaiting h e
      → IsWaiting written e
  written-IsWaiting keep (k, q) (lt, r) = (
    rw (length-modify h p (λ _. new)) lt,
    elim (ℕ_discrete p q) [
      | yes e ↦
          subst (λ j. IsReady k (get_or written j zero_request)) e
            (rw (get_or-modify_self h p (λ _. new) zero_request (rw e lt)) (keep k (rw e r)))
      | no n ↦ rw (get_or-modify_ne h p q (λ _. new) zero_request n) r
    ],
  )

  -- Any write is harmless for the entries of other ids.
  pub written-IsWaiting_ne :
      (e : String × ℕ)
      → IsWaiting h e × (e.0 ≢ (get_or h p zero_request).message_id)
      → IsWaiting written e
  written-IsWaiting_ne (k, q) ((lt, r), other) = (
    rw (length-modify h p (λ _. new)) lt,
    elim (ℕ_discrete p q) [
      | yes e ↦ absurd (other (rw e (ground arith)))
      | no n ↦ rw (get_or-modify_ne h p q (λ _. new) zero_request n) r
    ],
  )

  pub written-IsForgotten :
      new.fire_and_forget ≡ (get_or h p zero_request).fire_and_forget
      → (e : String × ℕ) → IsForgotten h e
      → IsForgotten written e
  written-IsForgotten same (k, q) (lt, f) = (
    rw (length-modify h p (λ _. new)) lt,
    elim (ℕ_discrete p q) [
      | yes e ↦
          subst (λ j. (get_or written j zero_request).fire_and_forget ≡ true) e
            (rw (get_or-modify_self h p (λ _. new) zero_request (rw e lt), same) (rw e f))
      | no n ↦ rw (get_or-modify_ne h p q (λ _. new) zero_request n) f
    ],
  )

-- A request that is added moves none.
pub append-IsWaiting :
    (h : Heap) (r : PendingClientRequest) (e : String × ℕ)
    → IsWaiting h e
    → IsWaiting (h ++ r ∷ []) e
append-IsWaiting h r (k, p) (lt, ready) = (
  omega (arith, length-append h (r ∷ [])),
  rw (get_or-append_left h (r ∷ []) p zero_request lt) ready,
)

pub append-IsForgotten :
    (h : Heap) (r : PendingClientRequest) (e : String × ℕ)
    → IsForgotten h e
    → IsForgotten (h ++ r ∷ []) e
append-IsForgotten h r (k, p) (lt, f) = (
  omega (arith, length-append h (r ∷ [])),
  rw (get_or-append_left h (r ∷ []) p zero_request lt) f,
)

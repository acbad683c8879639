-- ===== src/Hermes/Client/Expiry.antt =====
-- internal/hermes/client.go: which requests the look for timeouts ends, and how.
use lucas.Base.{
  ℕ, ◌-◌, Bool, true, false, String, List, [], ◌∷◌, Option, none, some, Map, ◌≡◌, ◌≢◌, refl, ◌∙◌,
  sym, subst, ap, arith, lookup, lookup-delete, contains, get_or-modify_self, get_or-modify_ne,
  HasDistinctKeys, str_dec, if◌then◌else◌, ltb, Option-cases, inl, inr,
}
use lucas.Hermes.Client.Channel.{Channel, ok, offer, close, put}
use lucas.Hermes.Client.State.{
  HermesClient, PendingClientRequest, ClientError, request_timeout, deref, assign, zero_request,
}
use lucas.Hermes.Client.Responses.{
  abandon, expire, expire_all, expired_requests, cleanup_timeout_requests, count_timeout,
}
use lucas.Hermes.Client.Requests.{forget}
use lucas.Hermes.Client.Invariant.{IsReady, IsWellFormed, Ensures}
use lucas.Hermes.Client.Keeping.{pending-IsReady}
use lucas.Hermes.Client.Turns.{expire-Ensures}

module _ {A : Type 0} where
  abbrev pub told : A → Option (Channel A) → Option (Channel A)
  told a none = none
  told a (some ch) = some (record ch { held = put ch.held a })

  abbrev pub shut : Option (Channel A) → Option (Channel A)
  shut none = none
  shut (some ch) = some (record ch { is_closed = true })

-- A request after its end from outside: the error waits in its channel if that was empty, what
-- was there stays there, and both channels are closed.
abbrev pub settled : ClientError → PendingClientRequest → PendingClientRequest
settled e r = record r { response = shut r.response; error = shut (told e r.error) }

abandon-settled :
    (e : ClientError) (c : HermesClient) (p : ℕ) (k : String)
    → IsReady k (deref c p)
    → abandon e c p ≡ ok (assign c p (settled e (deref c p)))
unfolding abandon offer close
abandon-settled e c p k h = ground arith

-- The request is past its time.
abbrev pub is_expired : ℕ → HermesClient → ℕ → Bool
is_expired now c p = ltb (deref c p).timeout (now - (deref c p).timestamp)

-- The client after the end of the request that is pending under the id.
abbrev expired_client : HermesClient → String → ℕ → HermesClient
expired_client c k p = assign (count_timeout (forget c k)) p (settled request_timeout (deref c p))

expire-none : (c : HermesClient) (k : String) → lookup k c.pending ≡ none → expire c k ≡ ok c
unfolding expire
expire-none c k e = rw (e, expire)

module _ (c : HermesClient) (v : IsWellFormed c) where
  expire-settled :
      (k : String) (p : ℕ) → lookup k c.pending ≡ some p → expire c k ≡ ok (expired_client c k p)
  unfolding expire
  expire-settled k p e =
      rw (e, expire)
        (abandon-settled request_timeout (count_timeout (forget c k)) p k
          (pending-IsReady c v k p e).1)

  -- The end of one request leaves every other one alone.
  expire-other :
      (j k : String) (p : ℕ)
      → (deref c p).message_id ≡ k
      → j ≢ k
      → (d : HermesClient) × (expire c j ≡ ok d)
        × IsWellFormed d
        × (lookup k d.pending ≡ lookup k c.pending)
        × (deref d p ≡ deref c p)
  unfolding expire
  expire-other j k p named other = elim (Option-cases (lookup j c.pending)) [
    | inl e ↦ rw (e, expire) (c, refl, v, refl, refl)
    | inr (q, e) ↦
        let ready = pending-IsReady c v j q e in
        let differ : q ≢ p =
          λ same. other (sym ready.1.0 ∙ ap (λ i. (deref c i).message_id) same ∙ named) in
        rw (expire-settled j q e) (
          expired_client c j q,
          refl,
          subst (Ensures IsWellFormed) (expire-settled j q e) (expire-Ensures c j v),
          ground (arith, lookup-delete j k c.pending),
          get_or-modify_ne c.heap q p _ zero_request differ,
        )
  ]

  expire_self :
      (k : String) (p : ℕ)
      → lookup k c.pending ≡ some p
      → let d = expired_client c k p in
        IsWellFormed d
        × (lookup k d.pending ≡ none)
        × (deref d p ≡ settled request_timeout (deref c p))
  expire_self k p e = (
    subst (Ensures IsWellFormed) (expire-settled k p e) (expire-Ensures c k v),
    ground (arith, lookup-delete k k c.pending),
    get_or-modify_self c.heap p _ zero_request (pending-IsReady c v k p e).0,
  )

-- What is not pending under its id stays as it is.
expire_all-absent :
    (c : HermesClient) (ids : List String) (k : String) (p : ℕ)
    → IsWellFormed c
    → (deref c p).message_id ≡ k
    → lookup k c.pending ≡ none
    → (d : HermesClient) × (expire_all c ids ≡ ok d)
      × (lookup k d.pending ≡ none)
      × (deref d p ≡ deref c p)
unfolding expire_all
expire_all-absent c [] k p v named e = (c, refl, e, refl)
expire_all-absent c (j ∷ js) k p v named e = elim (str_dec j k) [
  | yes same ↦
      let skip : expire c j ≡ ok c = rw same (expire-none c k e) in
      rw skip (expire_all-absent c js k p v named e)
  | no other ↦
      let (d, ran, u, kept, cell) = expire-other c v j k p named other in
      let (f, ran', gone, cell') =
        expire_all-absent d js k p u (ap (λ r. r.message_id) cell ∙ named) (kept ∙ e) in
      (f, rw ran ran', gone, cell' ∙ cell)
]

-- A pending request ends exactly if its id is listed.
expire_all-pending :
    (c : HermesClient) (ids : List String) (k : String) (p : ℕ)
    → IsWellFormed c
    → lookup k c.pending ≡ some p
    → (d : HermesClient) × (expire_all c ids ≡ ok d)
      × (lookup k d.pending ≡ (if contains k ids then none else some p))
      × (deref d p ≡ (if contains k ids then settled request_timeout (deref c p) else deref c p))
unfolding expire_all contains
expire_all-pending c [] k p v e = (c, refl, e, refl)
expire_all-pending c (j ∷ js) k p v e = elim (str_dec j k) [
  | yes same ↦
      let (u, gone, cell) = expire_self c v k p e in
      let (d, ran, still, cell') =
        expire_all-absent (expired_client c k p) js k p u
          (ap (λ r. r.message_id) cell ∙ (pending-IsReady c v k p e).1.0) gone in
      let one : expire c j ≡ ok (expired_client c k p) = rw same (expire-settled c v k p e) in
      (d, rw one ran, ground arith, ground arith)
  | no other ↦
      let (d, ran, u, kept, cell) = expire-other c v j k p (pending-IsReady c v k p e).1.0 other in
      let (f, ran', left, cell') = expire_all-pending d js k p u (kept ∙ e) in
      (f, rw ran ran', ground arith, ground arith)
]

absent-expired_requests :
    (now : ℕ) (c : HermesClient) (m : Map ℕ) (k : String)
    → lookup k m ≡ none
    → contains k (expired_requests now c m) ≡ false
unfolding contains expired_requests lookup
absent-expired_requests now c [] k e = refl
absent-expired_requests now c ((j, q) ∷ m) k e = ground (arith, absent-expired_requests now c m k)

contains-expired_requests :
    (now : ℕ) (c : HermesClient) (m : Map ℕ) (k : String) (p : ℕ)
    → HasDistinctKeys m
    → lookup k m ≡ some p
    → contains k (expired_requests now c m) ≡ is_expired now c p
unfolding contains expired_requests lookup
contains-expired_requests now c [] k p h e = cc
contains-expired_requests now c ((j, q) ∷ m) k p h e = elim (str_dec j k) [
  | yes same ↦ ground (arith, absent-expired_requests now c m k)
  | no other ↦ ground (arith, contains-expired_requests now c m k p h.1)
]

-- In a well-formed client a look for timeouts at time `now` does not panic. A pending request that
-- waits for longer than its timeout is taken from the map, its channels are closed and the timeout
-- is in its error channel if that was empty; every other pending request is as it was.
pub cleanup_timeout_requests-pending :
    (now : ℕ) (c : HermesClient) (message_id : String) (p : ℕ)
    → IsWellFormed c
    → lookup message_id c.pending ≡ some p
    → (d : HermesClient) × (cleanup_timeout_requests now c ≡ ok d)
      × (lookup message_id d.pending ≡ (if is_expired now c p then none else some p))
      × (deref d p
          ≡ (if is_expired now c p then settled request_timeout (deref c p) else deref c p))
unfolding cleanup_timeout_requests
cleanup_timeout_requests-pending now c message_id p v e =
    let (d, ran, left, cell) =
      expire_all-pending c (expired_requests now c c.pending) message_id p v e in
    let same = contains-expired_requests now c c.pending message_id p v.distinct e in
    (d, ran, rw (← same) left, rw (← same) cell)

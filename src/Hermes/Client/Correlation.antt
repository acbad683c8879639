-- ===== src/Hermes/Client/Correlation.antt =====
-- internal/hermes/client.go: which request a response reaches.
use lucas.Base.{
  ℕ, Bool, true, false, String, Option, none, some, ◌≡◌, ◌≢◌, refl, ◌∙◌, sym, ap, arith, lookup,
  get_or-modify_ne, ◌==◌, if◌then◌else◌,
}
use lucas.Hermes.Protocol.{Bytes, ServiceResponse}
use lucas.Hermes.Wire.{Wire}
use lucas.Hermes.Client.Channel.{Run, ok, offer}
use lucas.Hermes.Client.State.{
  HermesClient, PendingClientRequest, service_error, deref, assign, zero_request,
}
use lucas.Hermes.Client.Responses.{
  Target, waiting, forgotten, unknown, target, deliver, handle_service_response, handle_response,
}
use lucas.Hermes.Client.Invariant.{IsReady, IsWellFormed}
use lucas.Hermes.Client.Keeping.{pending-IsReady}
use lucas.Hermes.Client.Turns.{target-waiting}
use lucas.Hermes.Client.Expiry.{told}

module _ (w : Wire) where
  -- A request with a response in its channel, or with the error that the response tells of.
  abbrev pub delivered : ServiceResponse → PendingClientRequest → PendingClientRequest
  delivered resp r =
      if resp.success
      then record r { response = told (w.encode_response resp) r.response }
      else record r { error = told (service_error resp.error) r.error }

  pub deliver-delivered :
      (c : HermesClient) (p : ℕ) (k : String) (resp : ServiceResponse)
      → IsReady k (deref c p)
      → deliver w c p resp ≡ ok (assign c p (delivered resp (deref c p)))
  unfolding deliver offer
  deliver-delivered c p k resp h = ground arith

  -- The response has another message id, or is none.
  abbrev pub IsForOther : String → Option ServiceResponse → Type 0
  IsForOther k none = Unit
  IsForOther k (some resp) = resp.message_id ≢ k

  -- The request under `k` is pending at `p` as it was.
  pub record Untouched (k : String) (p : ℕ) (c d : HermesClient) : Type 0 where
    pub pending : lookup k d.pending ≡ lookup k c.pending
    pub cell : deref d p ≡ deref c p

  module _ (now : ℕ) (c : HermesClient) (v : IsWellFormed c) (k : String) (p : ℕ) where
    handle_service_response-other :
        (resp : ServiceResponse)
        → lookup k c.pending ≡ some p
        → resp.message_id ≢ k
        → (d : HermesClient) × (handle_service_response w now c resp ≡ ok d) × Untouched k p c d
    unfolding handle_service_response
    handle_service_response-other resp e other = at (target c resp) refl
      where
        at :
            (t : Target)
            → target c resp ≡ t
            → (d : HermesClient) × (handle_service_response w now c resp ≡ ok d) × Untouched k p c d
        at (waiting q) h =
            let f = target-waiting c resp q v h in
            let ready = pending-IsReady c v resp.message_id q f in
            let mine = pending-IsReady c v k p e in
            let differ : q ≢ p =
              λ same. other (sym ready.1.0 ∙ ap (λ i. (deref c i).message_id) same ∙ mine.1.0) in
            rw (h, handle_service_response)
              (
                assign c q (delivered resp (deref c q)),
                deliver-delivered c q resp.message_id resp ready.1,
                record { pending = refl; cell = get_or-modify_ne c.heap q p _ zero_request differ },
              )
        at forgotten h =
            rw (h, handle_service_response) (_, refl, record { pending = refl; cell = refl })
        at unknown h =
            rw (h, handle_service_response) (_, refl, record { pending = refl; cell = refl })

    -- In a well-formed client, bytes that are no response, or are the response to another message
    -- id, leave a pending request pending and its channels as they were; nothing panics.
    pub handle_response-other :
        (response : Bytes)
        → lookup k c.pending ≡ some p
        → IsForOther k (w.decode_response response)
        → (d : HermesClient) × (handle_response w now c response ≡ ok d) × Untouched k p c d
    unfolding handle_response
    handle_response-other response e = at (w.decode_response response) refl
      where
        same : Untouched k p c c
        same = record { pending = refl; cell = refl }

        choose :
            (b : Bool) (m : Run HermesClient)
            → (d : HermesClient) × (m ≡ ok d) × Untouched k p c d
            → (d : HermesClient) × ((if b then ok c else m) ≡ ok d) × Untouched k p c d
        choose true m h = (c, refl, same)
        choose false m h = h

        at :
            (o : Option ServiceResponse)
            → w.decode_response response ≡ o
            → IsForOther k o
            → (d : HermesClient) × (handle_response w now c response ≡ ok d) × Untouched k p c d
        at none q h = rw (q, handle_response) (c, refl, same)
        at (some resp) q h =
            rw (q, handle_response)
              (choose (resp.message_id == "") _ (handle_service_response-other resp e h))

-- ===== src/Hermes/Client/Late.antt =====
-- internal/hermes/client.go: a request whose caller still waits when the look for timeouts ends it.
use lucas.Base.{
  get_or, List, get_or-modify_cases, subst, ℕ, Bool, true, String, Option, none, some, ◌≡◌, sym,
  arith, lookup, inl, inr,
}
use lucas.Hermes.Client.Channel.{Channel, ok, panicked, receive, close}
use lucas.Hermes.Client.State.{
  HermesClient, PendingClientRequest, ClientError, request_timeout, deref, assign, zero_request,
}
use lucas.Hermes.Client.Responses.{cleanup_timeout_requests}
use lucas.Hermes.Client.Requests.{
  Choice, take_response, take_error, take_time, take_shutdown, select, forget, close_both,
  note_async, finish_async,
}
use lucas.Hermes.Client.Invariant.{IsReady, IsWellFormed}
use lucas.Hermes.Client.Keeping.{pending-IsReady}
use lucas.Hermes.Client.Endings.{note_async-same}
use lucas.Hermes.Client.Expiry.{settled, is_expired, cleanup_timeout_requests-pending}

-- The channel of the response cannot be closed: it is nil, or closed.
abbrev CannotClose : Option (Channel String) → Type 0
CannotClose none = Unit
CannotClose (some ch) = ch.is_closed ≡ true

settled-CannotClose :
    (e : ClientError) (r : PendingClientRequest) (k : String)
    → IsReady k r
    → CannotClose (settled e r).response
settled-CannotClose e r k h = ground arith

-- What a wait takes does not open the channel again.
select-CannotClose :
    (choice : Choice) (cancelled : Bool) (r : PendingClientRequest)
    → CannotClose r.response
    → CannotClose (select choice cancelled r).1.response
unfolding select receive
select-CannotClose take_response cancelled r h = ground arith
select-CannotClose take_error cancelled r h = ground arith
select-CannotClose take_time cancelled r h = h
select-CannotClose take_shutdown cancelled r h = ground arith

assign-CannotClose :
    (c : HermesClient) (p : ℕ) (r : PendingClientRequest)
    → CannotClose r.response
    → CannotClose (deref (assign c p r) p).response
assign-CannotClose c p r h = elim (get_or-modify_cases c.heap p (λ _. r) zero_request) [
  | inl e ↦ rw e h
  | inr e ↦ rw e tt
]

close_both-panicked :
    (c : HermesClient) (p : ℕ) → CannotClose (deref c p).response → close_both c p ≡ panicked
unfolding close_both close
close_both-panicked c p h = ground arith

finish_async-panicked :
    (now : ℕ) (choice : Choice) (c : HermesClient) (message_id : String) (p : ℕ)
    → CannotClose (deref c p).response
    → finish_async now choice c message_id p ≡ panicked
unfolding finish_async
finish_async-panicked now choice c message_id p h =
    let r = (select choice c.cancelled (deref c p)).1 in
    let taken = (select choice c.cancelled (deref c p)).0 in
    let d = note_async now taken (assign c p r) p in
    close_both-panicked (forget d message_id) p (
      subst
        (λ (heap : List PendingClientRequest). CannotClose (get_or heap p zero_request).response)
        (sym (note_async-same now taken (assign c p r) p).2)
        (assign-CannotClose c p r (select-CannotClose choice c.cancelled (deref c p) h)))

-- If a look for timeouts finds a pending request past its time before the goroutine of that
-- request has taken its turn, the goroutine panics at its end, whichever case its wait takes: it
-- closes the channels that the look has closed.
pub finish_async-late :
    (now later : ℕ) (choice : Choice) (c : HermesClient) (message_id : String) (p : ℕ)
    → IsWellFormed c
    → lookup message_id c.pending ≡ some p
    → is_expired now c p ≡ true
    → (d : HermesClient) × (cleanup_timeout_requests now c ≡ ok d)
      × (finish_async later choice d message_id p ≡ panicked)
finish_async-late now later choice c message_id p v e late =
    let (d, ran, left, cell) = cleanup_timeout_requests-pending now c message_id p v e in
    let closed : deref d p ≡ settled request_timeout (deref c p) = rw late at cell in
    (
      d,
      ran,
      finish_async-panicked later choice d message_id p (
          rw closed (
            settled-CannotClose request_timeout (deref c p) message_id
              (pending-IsReady c v message_id p e).1)),
    )

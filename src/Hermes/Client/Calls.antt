-- ===== src/Hermes/Client/Calls.antt =====
-- internal/hermes/client.go: the request that waits for its answer. Each attempt has a round of
-- the script: what other goroutines do before its send, what they do during its wait, and how
-- the wait ends. The number of retries is read once.
use lucas.Base.{ℕ, zero, suc, ◌-◌, String, List, Option, none, some, length}
use lucas.Hermes.Protocol.{Bytes}
use lucas.Hermes.Wire.{Wire}
use lucas.Hermes.Client.Channel.{Run, ok, ◌>>=◌}
use lucas.Hermes.Client.State.{
  HermesClient, ClientError, failed_after, deref, assign, waiting_request, record_latency,
}
use lucas.Hermes.Client.Sends.{send_request}
use lucas.Hermes.Client.Responses.{count_response}
use lucas.Hermes.Client.Requests.{
  Taken, Choice, got_response, select, store, count_failure, forget, close_both, note_taken,
  error_of, Event, steps,
}

pub record Round : Type 0 where
  pub before : List Event
  pub sent_at : ℕ
  pub meanwhile : List Event
  pub choice : Choice
  pub woken_at : ℕ

pub data Answer : Type 0 where
  answered : Bytes → Answer
  refused : ClientError → Answer

abbrev pub Reply : Type 0
Reply = Run (HermesClient × Answer)

unfoldable pub succeed : ℕ → HermesClient → String → ℕ → HermesClient
unfolding record_latency
succeed now c message_id p =
    count_response now (forget (record_latency c (now - (deref c p).timestamp)) message_id)

abbrev or_failed : ℕ → Option ClientError → ClientError
or_failed retries none = failed_after retries
or_failed retries (some e) = e

-- No attempt is left.
unfoldable pub give_up : ℕ → HermesClient → String → ℕ → Option ClientError → Reply
unfolding close_both
give_up retries c message_id p last = close_both (count_failure (forget c message_id)) p >>= λ d.
    ok (d, refused (or_failed retries last))

-- A call as its attempts see it: the request's parts, its pointer, and the retries.
pub record Call : Type 0 where
  pub message_id : String
  pub service : String
  pub body : Bytes
  pub timeout : ℕ
  pub pointer : ℕ
  pub retries : ℕ

-- What comes after a failed attempt.
abbrev pub Again : Type 0
Again = Option ClientError → HermesClient → Reply

-- The request returns its response, or goes on.
unfoldable pub conclude : Call → ℕ → Again → HermesClient → Taken → Reply
unfolding succeed note_taken error_of
conclude k now again c (got_response body) =
    ok (succeed now c k.message_id k.pointer, answered body)
conclude k now again c taken = again (error_of k.timeout taken) (note_taken taken c)

module _ (w : Wire) (script : ℕ → Round) where
  unfoldable pub after_wait : Call → ℕ → Again → HermesClient → Reply
  unfolding select conclude
  after_wait k n again c =
      let o = select (script n).choice c.cancelled (deref c k.pointer) in
      conclude k (script n).woken_at again (assign c k.pointer o.1) o.0

  -- A send that fails is followed by the next attempt at once.
  unfoldable pub attempt : Call → ℕ → Again → HermesClient → Reply
  unfolding steps send_request after_wait
  attempt k n again c = steps w c (script n).before >>= λ b.
      let (d, result) = send_request w (script n).sent_at b k.service k.message_id k.body in
      elim result [
        | some e ↦ again (some e) d
        | none ↦ steps w d (script n).meanwhile >>= after_wait k n again
      ]

  -- How many attempts are left, and the number of the next one.
  unfoldable pub attempts : Call → ℕ → ℕ → Option ClientError → HermesClient → Reply
  unfolding attempt give_up
  attempts k zero n last c = give_up k.retries c k.message_id k.pointer last
  attempts k (suc left) n last c = attempt k n (attempts k left (suc n)) c

  unfoldable pub request_with_timeout : ℕ → HermesClient → String → String → Bytes → ℕ → Reply
  unfolding attempts
  request_with_timeout now c message_id service body timeout =
      let call : Call = record {
        message_id = message_id;
        service = service;
        body = body;
        timeout = timeout;
        pointer = length c.heap;
        retries = c.retries;
      } in
      attempts call (suc c.retries) 0 none
        (store c (waiting_request message_id service body now timeout))

  unfoldable pub request : ℕ → HermesClient → String → String → Bytes → Reply
  unfolding request_with_timeout
  request now c message_id service body =
      request_with_timeout now c message_id service body c.timeout

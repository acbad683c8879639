-- ===== src/Hermes/ClientTests.antt =====
-- internal/hermes/client.go: the theorems at concrete inputs, and runs of the code.
use text.Mathlib.TextEquality.{eq_iff}
use lucas.Hermes.Client.Loops.{message}
use lucas.Base.{
  ◌*◌, ◌⊎◌, ℕ, true, false, List, [], ◌∷◌, none, some, ◌≡◌, ◌≢◌, refl, arith, if◌then◌else◌, lookup,
  length, str_dec, insert, map,
}
use lucas.Hermes.Protocol.{Bytes, ServiceResponse, second, null}
use lucas.Hermes.Wire.{Wire}
use lucas.Hermes.Client.Channel.{ok, panicked}
use lucas.Hermes.Client.State.{HermesClient, new_client, waiting_request, deref, request_timeout}
use lucas.Hermes.Client.Responses.{handle_response, cleanup_timeout_requests}
use lucas.Hermes.Client.Requests.{
  reconnects, Event, asks, arrives, finishes, take_response, take_time, step, steps, finish_async,
  request_fire_and_forget,
}
use lucas.Hermes.Client.Calls.{Round, answered, request_with_timeout}
use lucas.Hermes.Client.Invariant.{IsWellFormed}
use lucas.Hermes.Client.Expiry.{is_expired, settled, cleanup_timeout_requests-pending}
use lucas.Hermes.Client.Late.{finish_async-late}
use lucas.Hermes.Client.Runs.{AllEndPending, steps-new_client}
use lucas.Hermes.Client.Correlation.{Untouched, handle_response-other}
use lucas.Hermes.Client.RoundTrip.{IsPrompt, request_with_timeout-answered}
use lucas.Hermes.Client.Counts.{request_fire_and_forget-counts}
use lucas.Hermes.Client.Queues.{read_all, read_all-messages}

abbrev answer_to : Bytes → ServiceResponse
answer_to message_id = record {
  message_id = message_id;
  service = "hub.control";
  success = true;
  content = null;
  error = "";
  nonce = "";
}

-- A wire on which a response is its message id, and every message and dial succeeds.
abbrev wire : Wire
wire = record {
  encode_worker = λ m. m.command;
  encode_client = λ m. m.message_id;
  encode_request = λ r. r.action;
  encode_response = λ r. r.message_id;
  decode_worker = λ s. none;
  decode_client = λ s. none;
  decode_response = λ s. some (answer_to s);
  send = λ n msg. none;
  dial = λ n. none;
}

abbrev connected : HermesClient
connected = record {
  has_socket = true;
  sent = [];
  calls = 0;
  dials = 1;
  timeout = 30 * second;
  retries = 3;
  pending = [];
  pending_nonces = [];
  heap = [];
  stats = record {
    requests_sent = 0;
    responses_received = 0;
    requests_failed = 0;
    requests_timeout = 0;
    last_request = 0;
    last_response = 0;
    start_time = 0;
    average_latency = (0, 1);
  };
  latencies = [];
  cancelled = false;
  messages = [];
  errors = [];
  asked = false;
}

-- One request, `m1`, is pending.
abbrev one_waits : HermesClient
one_waits = record connected {
  pending = ("m1", 0) ∷ [];
  heap = waiting_request "m1" "hub.control" "list" 0 (30 * second) ∷ [];
}

one_waits-IsWellFormed : IsWellFormed one_waits
unfolding lookup
one_waits-IsWellFormed = record {
  distinct = (refl, tt);
  waiting = ((omega arith, (refl, refl, refl)), tt);
  forgotten = tt;
}

-- A request is asked, answered and ended.
abbrev turns : List Event
turns =
    reconnects
    ∷ asks 1 "m1" "hub.control" "list"
    ∷ arrives 2 ("" ∷ "m1" ∷ [])
    ∷ finishes 3 take_response "m1" 0
    ∷ []

turns_end : AllEndPending wire (new_client 0) turns
unfolding step new_client lookup insert str_dec
turns_end = (tt, (tt, (tt, (refl, tt))))

steps-new_client_example :
    (c : HermesClient) × (steps wire (new_client 0) turns ≡ ok c) × IsWellFormed c
steps-new_client_example = steps-new_client wire 0 turns turns_end

cleanup_timeout_requests-pending_example :
    (d : HermesClient) × (cleanup_timeout_requests (31 * second) one_waits ≡ ok d)
    × (lookup "m1" d.pending ≡ (if is_expired (31 * second) one_waits 0 then none else some 0))
    × (deref d 0 ≡ (
        if is_expired (31 * second) one_waits 0
        then settled request_timeout (deref one_waits 0)
        else deref one_waits 0))
unfolding lookup str_dec
cleanup_timeout_requests-pending_example =
    cleanup_timeout_requests-pending (31 * second) one_waits "m1" 0 one_waits-IsWellFormed refl

finish_async-late_example :
    (d : HermesClient) × (cleanup_timeout_requests (31 * second) one_waits ≡ ok d)
    × (finish_async (31 * second) take_time d "m1" 0 ≡ panicked)
unfolding lookup str_dec
finish_async-late_example =
    finish_async-late (31 * second) (31 * second) take_time one_waits "m1" 0 one_waits-IsWellFormed
      refl refl

handle_response-other_example :
    (d : HermesClient) × (handle_response wire 5 one_waits "m2" ≡ ok d)
    × Untouched wire "m1" 0 one_waits d
unfolding lookup str_dec
handle_response-other_example =
    handle_response-other wire 5 one_waits one_waits-IsWellFormed "m1" 0 "m2" refl
      (ground (arith, eq_iff "m2" "m1"))

abbrev script : ℕ → Round
script n = record {
  before = [];
  sent_at = 1;
  meanwhile = arrives 2 ("" ∷ "m2" ∷ []) ∷ arrives 3 ("" ∷ "m1" ∷ []) ∷ [];
  choice = take_response;
  woken_at = 4;
}

connected-IsWellFormed : IsWellFormed connected
connected-IsWellFormed = record { distinct = tt; waiting = tt; forgotten = tt }

script-IsPrompt :
    IsPrompt wire script 0 connected "m1" "hub.control" "list"
      (30 * second)
      ((2, "m2") ∷ [])
      (3, "m1")
      (answer_to "m1")
script-IsPrompt = record {
  well_formed = connected-IsWellFormed;
  socket = refl;
  took = refl;
  before = refl;
  meanwhile = refl;
  choice = refl;
  rest = (ground (arith, eq_iff "m2" "m1"), tt);
  decoded = refl;
  named = refl;
  some_id = ground (arith, eq_iff "m1" "");
  success = refl;
}

request_with_timeout-answered_example :
    (d : HermesClient) × (request_with_timeout wire script 0 connected "m1" "hub.control" "list"
        (30 * second)
      ≡ ok (d, answered "m1"))
    × (lookup "m1" d.pending ≡ none)
request_with_timeout-answered_example =
    request_with_timeout-answered wire script 0 connected "m1" "hub.control" "list" (30 * second)
      ((2, "m2") ∷ []) (3, "m1") (answer_to "m1") script-IsPrompt

request_fire_and_forget-counts_example :
    (((request_fire_and_forget wire 1 connected "m1" "hub.control" "list" "n1").1 ≡ none)
      × (length (request_fire_and_forget wire 1 connected "m1" "hub.control" "list" "n1").0.sent
          ≡ 1)
      × ((request_fire_and_forget wire 1 connected "m1" "hub.control" "list"
            "n1").0.stats.requests_sent
          ≡ 2)
      × ((request_fire_and_forget wire 1 connected "m1" "hub.control" "list"
            "n1").0.stats.requests_failed
          ≡ 0))
    ⊎ (((request_fire_and_forget wire 1 connected "m1" "hub.control" "list" "n1").1 ≢ none)
        × ((request_fire_and_forget wire 1 connected "m1" "hub.control" "list" "n1").0.sent ≡ [])
        × ((request_fire_and_forget wire 1 connected "m1" "hub.control" "list"
              "n1").0.stats.requests_sent
            ≡ 0)
        × ((request_fire_and_forget wire 1 connected "m1" "hub.control" "list"
              "n1").0.stats.requests_failed
            ≡ 1))
request_fire_and_forget-counts_example =
    request_fire_and_forget-counts wire 1 connected "m1" "hub.control" "list" "n1"

read_all-messages_example :
    read_all connected (map message (("" ∷ []) ∷ []))
    ≡ record connected { messages = ("" ∷ []) ∷ [] }
read_all-messages_example = read_all-messages connected (("" ∷ []) ∷ []) refl (omega arith)

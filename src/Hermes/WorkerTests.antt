-- ===== src/Hermes/WorkerTests.antt =====
-- internal/hermes/worker.go: the theorems at concrete inputs, and runs of the code.
use lucas.Base.{
  List, Option, ◌↔◌, ◌<◌, str_dec, false, ◌==◌, pos, if◌then◌else◌, ◌≡◌, refl, ◌≢◌, [], ◌∷◌, ◌++◌,
  none, some, true,
}
use lucas.Hermes.Wire.{Wire}
use lucas.Hermes.Worker.State.{ready, no_stats, is_connected, connecting, HermesWorker, new_worker}
use lucas.Hermes.Worker.Requests.{request_body, handle_request, process_message, response, Handler}
use lucas.Hermes.Worker.Connecting.{connect-Connects, Connects}
use lucas.Hermes.Worker.Turns.{Turn, message_turn, tick_turn, reconnections, turns}
use lucas.Hermes.Worker.Connection.{
  failed, shifted_delay, finish_reconnect, begin_reconnect, try_reconnect, reconnect_to_broker,
  message, connect_loop, panicked, backoff_delay, connect,
}
use lucas.Hermes.Protocol.{hermes_reply, Bytes, hermes_heartbeat, hermes_request, WorkerMessage}
use Prim.Native.Nat.{ℕ}
use lucas.Hermes.Worker.Backoff.{reconnections-panicked}
use lucas.Hermes.Worker.Heartbeats.{
  start, heartbeat_interval_iff, jitter_span, heartbeat_interval, ticks,
}
use lucas.Hermes.Worker.Replies.{handle_request-IsAnswer, IsAnswer}
use lucas.Hermes.Worker.Accounts.{heartbeats_in}

-- A wire on which a message is its command, and "Q" and "H" arrive as a REQUEST and a HEARTBEAT.
abbrev request_message : WorkerMessage
request_message = message hermes_request "" "c1" "work"

abbrev heartbeat_message : WorkerMessage
heartbeat_message = message hermes_heartbeat "" "" ""

abbrev wire : Wire
wire = record {
  encode_worker = λ m. m.command;
  encode_client = λ m. m.body;
  encode_request = λ r. r.action;
  encode_response = λ r. r.error;
  decode_worker = λ s.
      if s == "Q" then some request_message else if s == "H" then some heartbeat_message else none;
  decode_client = λ s. none;
  decode_response = λ s. none;
  send = λ n msg. none;
  dial = λ n. none;
}

abbrev cut_wire : Wire
cut_wire = record wire { dial = λ n. some "connection refused" }

abbrev fresh : HermesWorker
fresh = record {
  service = "hub.control";
  identity = "hub_1";
  has_socket = true;
  sent = [];
  calls = 0;
  dials = 1;
  heartbeat = 2500000000;
  reconnect = 5000000000;
  liveness = pos 10;
  state = connecting;
  stats = no_stats 0;
  request_count = 0;
  reconnect_attempt = 0;
  max_reconnect_delay = 60000000000;
  queued = 0;
  blocked = false;
  asked = false;
}

abbrev echo : Handler
echo = some λ body. response body

program : Unit {0}
unfolding new_worker connect connect_loop process_message str_dec reconnect_to_broker try_reconnect
    begin_reconnect finish_reconnect backoff_delay shifted_delay turns ticks
program = tt

-- The tenth failed attempt waits a minute, as the fifth does.
backoff_tenth : backoff_delay (record fresh { reconnect_attempt = 10 }) ≡ some 60000000000
unfolding program
backoff_tenth = refl

-- The first heartbeat is sent by the tick after the first request.
first_heartbeat :
    turns wire echo fresh (tick_turn 1 ∷ message_turn 2 ("" ∷ "Q" ∷ []) ∷ tick_turn 3 ∷ []) ≢ none
unfolding program
first_heartbeat = λ e. cc

connect-Connects_example :
    Connects wire 10 fresh (connect wire fresh)
    × ((connect wire fresh).0.state ≡ connecting)
    × (is_connected (connect wire fresh).0 ≡ false)
connect-Connects_example = connect-Connects wire fresh

reconnections-panicked_example :
    ((m : ℕ) → m < 31 → (u : HermesWorker) × (reconnections cut_wire m fresh ≡ failed u))
    × (reconnections cut_wire 31 fresh ≡ panicked)
reconnections-panicked_example =
    reconnections-panicked cut_wire (λ n. ("connection refused", refl)) 31 0 fresh (refl, refl)
      (λ e. cc) refl refl

-- A wire on which a message is its command, both ways.
abbrev command_wire : Wire
command_wire = record wire {
  encode_worker = λ m. m.command;
  decode_worker = λ s. some (message s "" "" "");
}

-- A request makes the worker ready, and the tick after it sends a heartbeat.
abbrev request_then_tick : List Turn
request_then_tick = message_turn 2 ("" ∷ hermes_request ∷ []) ∷ tick_turn 3 ∷ []

abbrev left_with : Option HermesWorker → HermesWorker
left_with none = fresh
left_with (some v) = v

abbrev beaten : HermesWorker
beaten = left_with (
    turns command_wire echo (start command_wire (new_worker "hub.control" "hub_1" 0)).0
      request_then_tick)

beaten_once : heartbeats_in command_wire beaten.sent ≡ 1
unfolding program start heartbeats_in
beaten_once = refl

handle_request-IsAnswer_example :
    let (u, e) = handle_request wire 7 echo fresh "c1" "work" [] in
    (content : Bytes) × (u.sent
      ≡ fresh.sent ++ ("" ∷ wire.encode_worker (message hermes_reply "" "c1" content) ∷ []) ∷ [])
    × IsAnswer wire echo fresh (request_body "work" []) content
    × (u.state ≡ ready)
    × (e ≡ none)
handle_request-IsAnswer_example =
    handle_request-IsAnswer wire 7 echo fresh "c1" "work" [] refl (λ msg. refl)

heartbeat_interval_iff_example :
    ((draw : ℕ) → draw < 10000 → heartbeat_interval 2500000000 draw ≢ none)
    ↔ (jitter_span < 2500000000)
heartbeat_interval_iff_example = heartbeat_interval_iff 2500000000

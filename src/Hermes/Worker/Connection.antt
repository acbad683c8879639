-- ===== src/Hermes/Worker/Connection.antt =====
-- internal/hermes/worker.go: the worker's sends, its connection and its reconnection.
use lucas.Base.{
  ℕ, zero, suc, ◌+◌, ◌-◌, ◌*◌, ◌/◌, ◌%◌, ◌^◌, Bool, true, false, String, [], ◌∷◌, ◌++◌, Option,
  none, some, if◌then◌else◌, ltb, leb, pos,
}
use lucas.Hermes.Protocol.{
  Bytes, WorkerMessage, hermes_worker, hermes_ready, hermes_reply, hermes_heartbeat,
  hermes_disconnect,
}
use lucas.Hermes.Wire.{Wire}
use lucas.Hermes.Worker.State.{
  HermesWorker, Outcome, disconnected, connecting, reconnecting, no_socket, send_failed,
  dial_failed, connect_failed, ready_failed,
}

-- A message from the worker to the broker, with the fields that the literals leave out.
abbrev pub message : String → String → String → Bytes → WorkerMessage
message command service client_id body = record {
  protocol = hermes_worker;
  command = command;
  service = service;
  body = body;
  client_id = client_id;
}

abbrev pub count_sent : ℕ → HermesWorker → HermesWorker
count_sent now v = record v {
  stats = record (v.stats) {
    heartbeats_sent = v.stats.heartbeats_sent + 1;
    last_heartbeat_sent = now;
  };
}

-- `1 << (attempt - 1) * baseDelay` in an int64: `none` if it comes out negative.
unfoldable pub shifted_delay : ℕ → ℕ → Option ℕ
shifted_delay attempt base =
    let bits = (2 ^ (attempt - 1) * base) % 2 ^ 64 in if ltb bits (2 ^ 63) then some bits else none

-- The delay before the jitter; `none` if it is negative.
unfoldable pub backoff_delay : HermesWorker → Option ℕ
backoff_delay v = elim (shifted_delay v.reconnect_attempt v.reconnect) [
  | none ↦ none
  | some d ↦ some (if ltb v.max_reconnect_delay d then v.max_reconnect_delay else d)
]

-- `rand.Int63n` panics unless its argument, twice a quarter of the delay, is positive.
abbrev pub jitter_panics : Option ℕ → Bool
jitter_panics none = true
jitter_panics (some d) = leb (d / 4 * 2) 0

-- A reconnection ends, or its goroutine panics, which ends the program. After `failed` another
-- goroutine reconnects again, unless the worker is shutting down.
pub data Reconnection : Type 0 where
  panicked : Reconnection
  already connected failed : HermesWorker → Reconnection

-- After a round that fails come the rounds that are left.
abbrev pub next_round : Outcome → Outcome → Outcome
next_round (u, none) rest = (u, none)
next_round (u, some e) rest = rest

unfoldable pub begin_reconnect : HermesWorker → HermesWorker
begin_reconnect v = record v {
  state = reconnecting;
  stats = record (v.stats) { reconnections = v.stats.reconnections + 1 };
  reconnect_attempt = v.reconnect_attempt + 1;
}

unfoldable pub finish_reconnect : Outcome → Reconnection
finish_reconnect (v, none) = connected (record v { reconnect_attempt = 0 })
finish_reconnect (v, some e) = failed (record v { state = disconnected })

module _ (w : Wire) where
  -- Sends through the socket; `after` is what a message that was sent counts.
  unfoldable pub post : HermesWorker → WorkerMessage → (HermesWorker → HermesWorker) → Outcome
  post v m after =
      let msg = "" ∷ w.encode_worker m ∷ [] in
      let called = record v { calls = v.calls + 1 } in
      if v.has_socket
      then (elim (w.send v.calls msg) [
        | none ↦ (after (record called { sent = v.sent ++ msg ∷ [] }), none)
        | some e ↦ (called, some (send_failed e))
      ])
      else (v, some no_socket)

  unfoldable pub send_ready : HermesWorker → Outcome
  unfolding post
  send_ready v = post v (message hermes_ready v.service "" "") (λ u. u)

  unfoldable pub send_reply : HermesWorker → String → Bytes → Outcome
  unfolding post
  send_reply v client_id body = post v (message hermes_reply "" client_id body) (λ u. u)

  unfoldable pub send_heartbeat : ℕ → HermesWorker → Outcome
  unfolding post
  send_heartbeat now v = post v (message hermes_heartbeat "" "" "") (count_sent now)

  -- Neither a missing socket nor a failure is an error here.
  unfoldable pub send_disconnect : HermesWorker → HermesWorker
  unfolding post
  send_disconnect v = (post v (message hermes_disconnect "" "" "") (λ u. u)).0

  -- One round of the loop: dial, then READY. The socket of a round that fails is closed.
  unfoldable pub try_connect : HermesWorker → Outcome
  unfolding send_ready
  try_connect v =
      let dialed = record v { dials = v.dials + 1 } in
      elim (w.dial v.dials) [
        | some e ↦ (dialed, some (connect_failed (dial_failed e)))
        | none ↦
            let (u, result) = send_ready (record dialed { has_socket = true; liveness = pos 10 }) in
            elim result [
              | none ↦ (u, none)
              | some e ↦ (record u { has_socket = false }, some (ready_failed e))
            ]
      ]

  -- The rounds that are left; the error of the last one is returned.
  unfoldable pub connect_loop : ℕ → HermesWorker → Outcome
  unfolding try_connect
  connect_loop zero v = try_connect v
  connect_loop (suc n) v = let o = try_connect v in next_round o (connect_loop n o.0)

  -- Ten rounds. The worker is `connecting` from here on, also after a round that succeeds: what
  -- would make it `ready` stands behind the return.
  unfoldable pub connect : HermesWorker → Outcome
  connect v = connect_loop 9 (record v { state = connecting })

  unfoldable pub try_reconnect : HermesWorker → Reconnection
  try_reconnect v =
      let u = begin_reconnect v in
      if jitter_panics (backoff_delay u)
      then panicked
      else finish_reconnect (connect (record u { has_socket = false }))

  unfoldable pub reconnect_to_broker : HermesWorker → Reconnection
  reconnect_to_broker v = elim v.state [ reconnecting ↦ already v | _ ↦ try_reconnect v ]

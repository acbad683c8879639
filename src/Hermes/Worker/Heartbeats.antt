-- ===== src/Hermes/Worker/Heartbeats.antt =====
-- internal/hermes/worker.go: the heartbeat loop, and how the worker starts and stops. Each tick is
-- first put into `heartbeatCh` by a send that blocks; no code receives from it, nor from
-- `reconnectCh`. The jitter of the interval, which decides when ticks come, is not modelled.
use lucas.Base.{
  arith, dec_lt, ◌-◌, leb, ◌↔◌, ◌≢◌, Option, ◌*◌, ◌<◌, ℕ, ◌+◌, ◌&&◌, Bool, true, false, List, [],
  ◌∷◌, none, some, ltb, if◌then◌else◌, pred_ℤ, is_nonpositive,
}
use lucas.Hermes.Wire.{Wire}
use lucas.Hermes.Worker.State.{HermesWorker, WorkerState, Outcome, disconnected, ready}
use lucas.Hermes.Worker.Connection.{connect, send_heartbeat, send_disconnect}
use lucas.Hermes.Protocol.{millisecond}

abbrev pub is_ready : WorkerState → Bool
is_ready ready = true
is_ready _ = false

-- A failed heartbeat costs one of the worker's lives; at none left it asks for a reconnection.
lose_life : HermesWorker → HermesWorker
lose_life v =
    let left = pred_ℤ v.liveness in
    if is_nonpositive left
    then record v { liveness = left; asked = true }
    else record v { liveness = left }

unfoldable pub after_heartbeat : Outcome → HermesWorker
unfolding lose_life
after_heartbeat (v, none) = v
after_heartbeat (v, some e) = lose_life v

abbrev pub heartbeat_capacity : ℕ
heartbeat_capacity = 10

module _ (w : Wire) where
  unfoldable pub beat : ℕ → HermesWorker → HermesWorker
  unfolding after_heartbeat send_heartbeat
  beat now v =
      if is_ready v.state && v.has_socket then after_heartbeat (send_heartbeat w now v) else v

  unfoldable pub tick : HermesWorker → ℕ → HermesWorker
  unfolding beat
  tick v now =
      if v.blocked
      then v
      else if ltb v.queued heartbeat_capacity
      then beat now (record v { queued = v.queued + 1 })
      else record v { blocked = true }

  unfoldable pub ticks : HermesWorker → List ℕ → HermesWorker
  unfolding tick
  ticks v [] = v
  ticks v (now ∷ later) = ticks (tick v now) later

  unfoldable pub start : HermesWorker → Outcome
  unfolding connect
  start v = connect w v

  unfoldable pub stop : HermesWorker → HermesWorker
  unfolding send_disconnect
  stop v = record (send_disconnect w (record v { state = disconnected })) { has_socket = false }

abbrev pub jitter_span : ℕ
jitter_span = 5000 * millisecond

-- The interval of the ticker, from the number below 10000 that `rand.Intn` draws. `NewTicker` and
-- `Reset` panic at an interval that is not positive: `none`.
unfoldable pub heartbeat_interval : ℕ → ℕ → Option ℕ
heartbeat_interval heartbeat draw =
    let shifted = heartbeat + draw * millisecond in
    if leb shifted jitter_span then none else some (shifted - jitter_span)

-- The ticker survives every draw exactly if the heartbeat period is longer than five seconds.
pub heartbeat_interval_iff :
    (heartbeat : ℕ)
    → ((draw : ℕ) → draw < 10000 → heartbeat_interval heartbeat draw ≢ none)
      ↔ (jitter_span < heartbeat)
unfolding heartbeat_interval
heartbeat_interval_iff heartbeat = (
  λ safe. elim (dec_lt jitter_span heartbeat) [
    | yes h ↦ h
    | no h ↦ absurd (safe 0 (omega arith) (ground arith))
  ],
  λ h draw lt. ground arith,
)

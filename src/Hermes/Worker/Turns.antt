-- ===== src/Hermes/Worker/Turns.antt =====
-- internal/hermes/worker.go: the loops of the worker as turns of one state, and the goroutines
-- that reconnect one after another.
use lucas.Base.{ℕ, zero, suc, Option, none, some, List, [], ◌∷◌}
use lucas.Hermes.Wire.{Wire, Msg}
use lucas.Hermes.Worker.State.{HermesWorker}
use lucas.Hermes.Worker.Connection.{
  reconnect_to_broker, Reconnection, panicked, already, connected, failed,
}
use lucas.Hermes.Worker.Requests.{crashed, process_message, handled, Handler, Handled}
use lucas.Hermes.Worker.Heartbeats.{tick}

-- A tick of the heartbeat loop, or a message that the message loop takes.
pub data Turn : Type 0 where
  tick_turn : ℕ → Turn
  message_turn : ℕ → Msg → Turn

-- `none`: the program has panicked. An error goes to the log.
abbrev pub left_by : Handled → Option HermesWorker
left_by (handled (v, e)) = some v
left_by crashed = none

module _ (w : Wire) (handler : Handler) where
  unfoldable pub turn : HermesWorker → Turn → Option HermesWorker
  unfolding tick process_message
  turn v (tick_turn now) = some (tick w v now)
  turn v (message_turn now raw) = left_by (process_message w now handler v raw)

  unfoldable pub turns : HermesWorker → List Turn → Option HermesWorker
  unfolding turn
  turns v [] = some v
  turns v (t ∷ ts) = elim (turn v t) [ none ↦ none | some u ↦ turns u ts ]

module _ (w : Wire) where
  -- A reconnection and, while it fails, as many more.
  unfoldable pub reconnections : ℕ → HermesWorker → Reconnection
  unfolding reconnect_to_broker
  reconnections zero v = reconnect_to_broker w v
  reconnections (suc n) v = elim (reconnect_to_broker w v) [
    | failed u ↦ reconnections n u
    | panicked ↦ panicked
    | already u ↦ already u
    | connected u ↦ connected u
  ]

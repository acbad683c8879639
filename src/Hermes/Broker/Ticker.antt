-- ===== src/Hermes/Broker/Ticker.antt =====
-- internal/hermes/broker.go: the loop that looks for dead workers. Each tick is first put into
-- `heartbeatCh`, of capacity 10, by a send that blocks; no code receives from that channel.
use lucas.Base.{ℕ, ◌+◌, Bool, true, if◌then◌else◌, ltb}
use lucas.Hermes.Broker.State.{Broker}
use lucas.Hermes.Broker.Registry.{check_worker_liveness}

-- `queued`: what waits in the channel; `blocked`: the loop waits for room in it.
pub record Manager : Type 0 where
  pub broker : Broker
  pub queued : ℕ
  pub blocked : Bool

abbrev pub heartbeat_capacity : ℕ
heartbeat_capacity = 10

unfoldable pub tick : Manager → ℕ → Manager
unfolding check_worker_liveness
tick m now =
    if m.blocked
    then m
    else if ltb m.queued heartbeat_capacity
    then record m { queued = m.queued + 1; broker = check_worker_liveness now m.broker }
    else record m { blocked = true }

-- ===== src/Hermes/Worker/Accounts.antt =====
-- internal/hermes/worker.go: what the worker's counters say after any run of its loops.
use lucas.Base.{
  Bool, false, if◌then◌else◌, ◌==◌, ℕ, ◌+◌, ◌≤◌, ◌≡◌, List, [], ◌∷◌, Option, none, some,
}
use lucas.Hermes.Wire.{Wire, Msg}
use lucas.Hermes.Worker.State.{HermesWorker}
use lucas.Hermes.Worker.Connection.{panicked, failed, connected, already, Reconnection}
use lucas.Hermes.Worker.Requests.{crashed, handled, Handled}
use lucas.Hermes.Protocol.{WorkerMessage, hermes_heartbeat}
use lucas.Hermes.Worker.Heartbeats.{heartbeat_capacity}

module _ (w : Wire) where
  abbrev is_heartbeat : Msg → Bool
  is_heartbeat [] = false
  is_heartbeat (delimiter ∷ []) = false
  is_heartbeat (delimiter ∷ content ∷ parts) = elim (w.decode_worker content) [
    | none ↦ false
    | some msg ↦ msg.command == hermes_heartbeat
  ]

  -- How many of the messages are heartbeats, as the broker reads them.
  unfoldable pub heartbeats_in : List Msg → ℕ
  heartbeats_in [] = 0
  heartbeats_in (msg ∷ msgs) = (if is_heartbeat msg then 1 else 0) + heartbeats_in msgs

  -- Of what the encoder wrote, the decoder reads the command back.
  abbrev pub ReadsBack : Type 0
  ReadsBack =
      (m : WorkerMessage)
      → (m' : WorkerMessage) × (w.decode_worker (w.encode_worker m) ≡ some m')
        × (m'.command ≡ m.command)

module _ (w : Wire) (reads : ReadsBack w) where
  -- Each heartbeat that the broker reads is counted, each that is counted has its tick in the channel,
  -- the channel keeps its capacity, and each request is counted once as handled or as failed.
  pub record IsSound (v : HermesWorker) : Type 0 where
    pub shown : heartbeats_in w v.sent ≡ v.stats.heartbeats_sent
    pub beats : v.stats.heartbeats_sent ≤ v.queued
    pub room : v.queued ≤ heartbeat_capacity
    pub counted : v.stats.requests_handled + v.stats.requests_failed ≡ v.request_count

  abbrev AllSound : Handled → Type 0
  AllSound (handled (v, e)) = IsSound v
  AllSound crashed = Unit

  abbrev SoundAfter : Reconnection → Type 0
  SoundAfter panicked = Unit
  SoundAfter (already v) = IsSound v
  SoundAfter (connected v) = IsSound v
  SoundAfter (failed v) = IsSound v

  abbrev SoundIfAny : Option HermesWorker → Type 0
  SoundIfAny none = Unit
  SoundIfAny (some v) = IsSound v

-- ===== src/Hermes/Worker/Connecting.antt =====
-- internal/hermes/worker.go: what a connection leaves behind.
use lucas.Base.{false, true, ◌∙◌, ℕ, zero, suc, ◌+◌, ◌≤◌, ◌≡◌, [], ◌∷◌, ◌++◌, none, some, arith}
use lucas.Hermes.Wire.{Wire}
use lucas.Hermes.Worker.State.{connecting, is_connected, HermesWorker, Outcome}
use lucas.Hermes.Worker.Connection.{next_round, connect, connect_loop, message, try_connect}
use lucas.Hermes.Protocol.{hermes_ready}

-- Identity, counters of requests and heartbeats, and the heartbeat channel are as before.
pub record Keeps (v u : HermesWorker) : Type 0 where
  pub service : u.service ≡ v.service
  pub stats : u.stats ≡ v.stats
  pub request_count : u.request_count ≡ v.request_count
  pub reconnect_attempt : u.reconnect_attempt ≡ v.reconnect_attempt
  pub reconnect : u.reconnect ≡ v.reconnect
  pub max_reconnect_delay : u.max_reconnect_delay ≡ v.max_reconnect_delay
  pub queued : u.queued ≡ v.queued
  pub blocked : u.blocked ≡ v.blocked
  pub state : u.state ≡ v.state

Keeps-trans : {v u t : HermesWorker} → Keeps v u → Keeps u t → Keeps v t
Keeps-trans h k = record {
  service = k.service ∙ h.service;
  stats = k.stats ∙ h.stats;
  request_count = k.request_count ∙ h.request_count;
  reconnect_attempt = k.reconnect_attempt ∙ h.reconnect_attempt;
  reconnect = k.reconnect ∙ h.reconnect;
  max_reconnect_delay = k.max_reconnect_delay ∙ h.max_reconnect_delay;
  queued = k.queued ∙ h.queued;
  blocked = k.blocked ∙ h.blocked;
  state = k.state ∙ h.state;
}

module _ (w : Wire) where
  pub try_connect-Keeps : (v : HermesWorker) → Keeps v (try_connect w v).0
  unfolding try_connect
  try_connect-Keeps v = ground arith

  -- A round dials once. It succeeds with a socket and a READY sent last, or ends without a socket
  -- that was not there before.
  abbrev Tried : HermesWorker → Outcome → Type 0
  Tried v (u, none) =
      (u.dials ≡ v.dials + 1)
      × (u.has_socket ≡ true)
      × (u.sent ≡ v.sent ++ ("" ∷ w.encode_worker (message hermes_ready v.service "" "") ∷ []) ∷ [])
  Tried v (u, some e) = (u.dials ≡ v.dials + 1) × (u.sent ≡ v.sent)

  try_connect-Tried : (v : HermesWorker) → Tried v (try_connect w v)
  unfolding try_connect
  try_connect-Tried v = ground arith

  pub connect_loop-Keeps : (n : ℕ) (v : HermesWorker) → Keeps v (connect_loop w n v).0
  unfolding connect_loop
  connect_loop-Keeps zero v = try_connect-Keeps v
  connect_loop-Keeps (suc n) v = ground (
    arith,
    try_connect-Keeps v,
    Keeps-trans (try_connect-Keeps v) (connect_loop-Keeps n (try_connect w v).0),
  )

  -- What the rounds of the loop come to.
  abbrev pub Connects : ℕ → HermesWorker → Outcome → Type 0
  Connects n v (u, none) =
      (u.dials ≤ v.dials + n)
      × (u.has_socket ≡ true)
      × (u.sent ≡ v.sent ++ ("" ∷ w.encode_worker (message hermes_ready v.service "" "") ∷ []) ∷ [])
  Connects n v (u, some e) = (u.dials ≡ v.dials + n) × (u.sent ≡ v.sent)

  Connects-later :
      (n : ℕ) (v u : HermesWorker) (o : Outcome)
      → u.dials ≡ v.dials + 1
      → u.sent ≡ v.sent
      → u.service ≡ v.service
      → Connects n u o
      → Connects (suc n) v o
  Connects-later n v u (t, none) d s k h = (omega arith, h.1, rw (← s, ← k) h.2)
  Connects-later n v u (t, some e) d s k h = (omega arith, h.1 ∙ s)

  next_round-Connects :
      (n : ℕ) (v : HermesWorker) (o rest : Outcome)
      → Tried v o
      → Keeps v o.0
      → Connects n o.0 rest
      → Connects (suc n) v (next_round o rest)
  next_round-Connects n v (u, none) rest t k h = (omega arith, t.1, t.2)
  next_round-Connects n v (u, some e) rest t k h = Connects-later n v u rest t.0 t.1 k.service h

  connect_loop-Connects : (n : ℕ) (v : HermesWorker) → Connects (suc n) v (connect_loop w n v)
  unfolding connect_loop
  connect_loop-Connects zero v = ground (arith, try_connect-Tried v)
  connect_loop-Connects (suc n) v =
      let o = try_connect w v in
      next_round-Connects (suc n) v o (connect_loop w n o.0) (try_connect-Tried v)
        (try_connect-Keeps v) (connect_loop-Connects n o.0)

-- A connection dials at most ten times. If it succeeds there is a socket, READY was the one message
-- sent, and yet the worker counts as `connecting`, not as connected; it fails only after ten dials,
-- and then nothing was sent.
pub connect-Connects :
    (w : Wire) (v : HermesWorker)
    → Connects w 10 v (connect w v)
      × ((connect w v).0.state ≡ connecting)
      × (is_connected (connect w v).0 ≡ false)
unfolding connect is_connected
connect-Connects w v =
    let v' = record v { state = connecting } in
    let same = (connect_loop-Keeps w 9 v').state in (connect_loop-Connects w 9 v', same, rw same)

-- ===== src/Hermes/Worker/Backoff.antt =====
-- internal/hermes/worker.go: the delays of the reconnections, and where they end.
use Prim.Native.Nat.{min}
use lucas.Base.{
  subst, ◌≤◌, ◌≢◌, ap, ◌∙◌, String, false, ◌^◌, true, ℕ, zero, suc, ◌+◌, ◌-◌, ◌*◌, ◌<◌, ◌≡◌, refl,
  none, some, arith,
}
use native.Mathlib.Nat.{zero-add, mod-eq_of_lt}
use mathlib.Core.Path.{ap₂}
use lucas.Hermes.Wire.{Wire}
use lucas.Hermes.Worker.State.{
  connecting, reconnecting, disconnected, dial_failed, Outcome, connect_failed, WorkerError,
  HermesWorker,
}
use lucas.Hermes.Worker.Connection.{
  panicked, connect, begin_reconnect, next_round, failed, try_reconnect, finish_reconnect,
  reconnect_to_broker, try_connect, connect_loop, jitter_panics, shifted_delay, backoff_delay,
}
use lucas.Hermes.Protocol.{second}
use lucas.Hermes.Worker.Connecting.{Keeps, connect_loop-Keeps}
use lucas.Hermes.Worker.Turns.{reconnections}

shifted_delay-fits :
    (attempt base d : ℕ)
    → 2 ^ (attempt - 1) * base ≡ d
    → d < 2 ^ 63
    → shifted_delay attempt base ≡ some d
unfolding shifted_delay
shifted_delay-fits attempt base d e h = rw e (ground (arith, mod-eq_of_lt {n = d} {m = 2 ^ 64}))

-- While the shifted delay fits an int64, it doubles with each attempt up to the maximum.
pub backoff_delay-min :
    (v : HermesWorker)
    → 2 ^ (v.reconnect_attempt - 1) * v.reconnect < 2 ^ 63
    → backoff_delay v
      ≡ some (min (2 ^ (v.reconnect_attempt - 1) * v.reconnect) v.max_reconnect_delay)
unfolding backoff_delay
backoff_delay-min v h =
    let d : ℕ = 2 ^ (v.reconnect_attempt - 1) * v.reconnect in
    ground (arith, shifted_delay-fits v.reconnect_attempt v.reconnect d refl h)

-- The delays of `NewWorker`.
abbrev pub HasDefaultDelays : HermesWorker → Type 0
HasDefaultDelays v = (v.reconnect ≡ 5 * second) × (v.max_reconnect_delay ≡ 60 * second)

-- A power of two is at least one, and no later one is smaller.
power_positive : (k : ℕ) → 1 ≤ 2 ^ k
power_positive zero = omega arith
power_positive (suc k) = omega (arith, power_positive k)

power_later : (gap k : ℕ) → 2 ^ k ≤ 2 ^ (gap + k)
power_later zero k = omega (arith, ap (λ (j : ℕ). 2 ^ j) (zero-add k))
power_later (suc gap) k =
    let sum : suc gap + k ≡ suc (gap + k) = omega arith in
    let shape : 2 ^ (suc gap + k) ≡ 2 ^ suc (gap + k) = ap (λ (j : ℕ). 2 ^ j) sum in
    omega (arith, power_later gap k)

shift_fits : (k : ℕ) → k < 31 → (3 < 2 ^ k * (5 * second)) × (2 ^ k * (5 * second) < 2 ^ 63)
shift_fits k h =
    let total : (30 - k) + k ≡ 30 = omega arith in
    let at_most : 2 ^ k ≤ 2 ^ 30 =
      subst (λ (j : ℕ). 2 ^ k ≤ 2 ^ j) {x = (30 - k) + k} {y = 30} total (power_later (30 - k) k) in
    omega (arith, power_positive k)

-- The attempts of a worker with the default delays before the counter reaches 32.
default_jitter :
    (k : ℕ) (v : HermesWorker)
    → HasDefaultDelays v
    → v.reconnect_attempt ≡ suc k
    → k < 31
    → jitter_panics (backoff_delay v) ≡ false
unfolding backoff_delay
default_jitter k v (base, limit) e h =
    let d : ℕ = 2 ^ k * (5 * second) in
    let (low, high) = shift_fits k h in
    let shifted : shifted_delay v.reconnect_attempt v.reconnect ≡ some d =
      ap₂ shifted_delay e base
      ∙ shifted_delay-fits (suc k) (5 * second) d
          (ap (λ (j : ℕ). 2 ^ j * (5 * second)) (omega arith)) high in
    ground (arith, shifted)

overflow : shifted_delay 32 (5 * second) ≡ none
unfolding shifted_delay
overflow = refl

default_panic :
    (v : HermesWorker)
    → HasDefaultDelays v
    → v.reconnect_attempt ≡ 32
    → jitter_panics (backoff_delay v) ≡ true
unfolding backoff_delay
default_panic v (base, limit) e =
    let shifted : shifted_delay v.reconnect_attempt v.reconnect ≡ none =
      ap₂ shifted_delay e base ∙ overflow in
    ground (arith, shifted)

-- The broker cannot be reached.
abbrev pub IsUnreachable : Wire → Type 0
IsUnreachable w = (n : ℕ) → (e : String) × (w.dial n ≡ some e)

next_round_fails : (o rest : Outcome) (e : WorkerError) → o.1 ≡ some e → next_round o rest ≡ rest
next_round_fails (u, none) rest e h = cc
next_round_fails (u, some e') rest e h = refl

module _ (w : Wire) (cut : IsUnreachable w) where
  try_connect_fails : (v : HermesWorker) → (e : WorkerError) × ((try_connect w v).1 ≡ some e)
  unfolding try_connect
  try_connect_fails v =
      let (e, p) = cut v.dials in (connect_failed (dial_failed e), ground (arith, p))

  connect_loop_fails :
      (n : ℕ) (v : HermesWorker) → (e : WorkerError) × ((connect_loop w n v).1 ≡ some e)
  unfolding connect_loop
  connect_loop_fails zero v = try_connect_fails v
  connect_loop_fails (suc n) v =
      let o = try_connect w v in
      let (e, p) = try_connect_fails v in
      let (e', p') = connect_loop_fails n o.0 in
      (e', ap (λ r. r.1) (next_round_fails o (connect_loop w n o.0) e p) ∙ p')

  finish_reconnect_fails :
      (o : Outcome) (e : WorkerError)
      → o.1 ≡ some e
      → finish_reconnect o ≡ failed (record (o.0) { state = disconnected })
  unfolding finish_reconnect
  finish_reconnect_fails (u, none) e h = cc
  finish_reconnect_fails (u, some e') e h = refl

  idle_reconnects :
      (v : HermesWorker) → v.state ≢ reconnecting → reconnect_to_broker w v ≡ try_reconnect w v
  unfolding reconnect_to_broker
  idle_reconnects v idle = ground arith

  try_reconnect_goes :
      (v : HermesWorker)
      → jitter_panics (backoff_delay (begin_reconnect v)) ≡ false
      → try_reconnect w v
        ≡ finish_reconnect (connect w (record (begin_reconnect v) { has_socket = false }))
  unfolding try_reconnect
  try_reconnect_goes v e = rw e

  try_reconnect_panics :
      (v : HermesWorker)
      → jitter_panics (backoff_delay (begin_reconnect v)) ≡ true
      → try_reconnect w v ≡ panicked
  unfolding try_reconnect
  try_reconnect_panics v e = rw e

  -- One failed reconnection.
  reconnect_fails :
      (k : ℕ) (v : HermesWorker)
      → HasDefaultDelays v
      → v.state ≢ reconnecting
      → v.reconnect_attempt ≡ k
      → k < 31
      → (u : HermesWorker) × (reconnect_to_broker w v ≡ failed u)
        × HasDefaultDelays u
        × (u.state ≢ reconnecting)
        × (u.reconnect_attempt ≡ suc k)
  unfolding begin_reconnect connect
  reconnect_fails k v (base, limit) idle e h = (
    record (o.0) { state = disconnected },
    idle_reconnects v idle
        ∙ try_reconnect_goes v
            (default_jitter k b (base, limit) (ap (λ (n : ℕ). n + 1) e ∙ omega arith) h)
        ∙ finish_reconnect_fails o fails.0 fails.1,
    (kept.reconnect ∙ base, kept.max_reconnect_delay ∙ limit),
    λ p. cc,
    kept.reconnect_attempt ∙ omega arith,
  )
    where
      b : HermesWorker
      b = begin_reconnect v

      c : HermesWorker
      c = record b { has_socket = false; state = connecting }

      o : Outcome
      o = connect_loop w 9 c

      kept : Keeps c o.0
      kept = connect_loop-Keeps w 9 c

      fails : (e : WorkerError) × (o.1 ≡ some e)
      fails = connect_loop_fails 9 c

  last_reconnect :
      (v : HermesWorker)
      → HasDefaultDelays v
      → v.state ≢ reconnecting
      → v.reconnect_attempt ≡ 31
      → reconnect_to_broker w v ≡ panicked
  unfolding begin_reconnect
  last_reconnect v d idle e =
      idle_reconnects v idle
      ∙ try_reconnect_panics v (default_panic (begin_reconnect v) d (omega arith))

  -- The reconnections after the first one that failed.
  sooner :
      (n : ℕ) (v u : HermesWorker)
      → reconnect_to_broker w v ≡ failed u
      → ((m : ℕ) → m < n → (u' : HermesWorker) × (reconnections w m u ≡ failed u'))
      → (m : ℕ) → m < suc n
      → (u' : HermesWorker) × (reconnections w m v ≡ failed u')
  unfolding reconnections
  sooner n v u eq fails zero lt = (u, eq)
  sooner n v u eq fails (suc m) lt = rw (eq, reconnections) (fails m (omega arith))

  -- With the delays that `NewWorker` sets, a worker whose counter of attempts stands at `k` and whose
  -- broker cannot be dialled fails to reconnect 31 - k times more, each with an error and not with a
  -- panic, and the reconnection after that panics: the shifted delay no longer fits an int64.
  pub reconnections-panicked :
      (n k : ℕ) (v : HermesWorker)
      → HasDefaultDelays v
      → v.state ≢ reconnecting
      → v.reconnect_attempt ≡ k
      → n + k ≡ 31
      → ((m : ℕ) → m < n → (u : HermesWorker) × (reconnections w m v ≡ failed u))
        × (reconnections w n v ≡ panicked)
  unfolding reconnections
  reconnections-panicked zero k v d idle e h =
      ((λ m lt. absurd (omega arith)), last_reconnect v d idle (omega arith))
  reconnections-panicked (suc n) k v d idle e h =
      let (u, eq, d', idle', e') = reconnect_fails k v d idle e (omega arith) in
      let (fails, panics) = reconnections-panicked n (suc k) u d' idle' e' (omega arith) in
      (sooner n v u eq fails, rw (eq, reconnections) panics)

-- ===== src/Hermes/Client/Channel.antt =====
-- The Go channels of capacity 1 on which internal/hermes/client.go answers a request. What panics
-- in Go ends the program: it is a result of its own.
use lucas.Base.{Bool, false, true, Option, none, some, if◌then◌else◌}

pub data Run {ℓ} (Value : Type ℓ) : Type ℓ where
  panicked : Run Value
  ok : Value → Run Value

infixl 5 ◌>>=◌ ◌>>◌
abbrev pub ◌>>=◌ {κ ℓ} :
    {Next : Type κ} {Value : Type ℓ} → Run Value → (Value → Run Next) → Run Next
panicked >>= next = panicked
ok value >>= next = next value

abbrev pub ◌>>◌ {ℓ} : {B : Type ℓ} → Run (Unit {0}) → Run B → Run B
m >> k = m >>= λ _. k

-- What the buffer of capacity 1 holds, and whether the channel is closed.
pub record Channel (A : Type 0) : Type 0 where
  pub held : Option A
  pub is_closed : Bool

abbrev pub open_channel : (A : Type 0) → Channel A
open_channel A = record { held = none; is_closed = false }

module _ {A : Type 0} where
  abbrev pub put : Option A → A → Option A
  put none a = some a
  put (some b) a = some b

  -- `select { case ch <- a: default: }`; `none` is a nil channel, on which nothing is sent.
  unfoldable pub offer : Option (Channel A) → A → Run (Option (Channel A))
  offer none a = ok none
  offer (some ch) a =
      if ch.is_closed then panicked else ok (some (record ch { held = put ch.held a }))

  -- `close(ch)` panics on a nil channel and on a closed one.
  unfoldable pub close : Option (Channel A) → Run (Option (Channel A))
  close none = panicked
  close (some ch) = if ch.is_closed then panicked else ok (some (record ch { is_closed = true }))

  -- `if ch != nil { close(ch) }`.
  unfoldable pub close_if_any : Option (Channel A) → Run (Option (Channel A))
  unfolding close
  close_if_any none = ok none
  close_if_any (some ch) = close (some ch)

  -- `<-ch`: `none` while it blocks; a closed channel that is empty gives the zero value, shown as
  -- `none` too, and the channel that is left.
  unfoldable pub receive : Option (Channel A) → Option (Option A × Option (Channel A))
  receive none = none
  receive (some ch) = elim ch.held [
    | some a ↦ some (some a, some (record ch { held = none }))
    | none ↦ if ch.is_closed then some (none, some ch) else none
  ]

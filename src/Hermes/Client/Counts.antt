-- ===== src/Hermes/Client/Counts.antt =====
-- internal/hermes/client.go: what requests cost: sends, attempts and counters.
use lucas.Base.{
  length-append, ◌≢◌, ◌⊎◌, ℕ, zero, suc, ◌+◌, ◌≤◌, true, String, [], ◌∷◌, none, some, ◌≡◌, arith,
  length,
}
use lucas.Hermes.Protocol.{Bytes}
use lucas.Hermes.Wire.{Wire}
use lucas.Hermes.Client.State.{HermesClient}
use lucas.Hermes.Client.Sends.{
  request_message, Outcome, send_request, connect_rounds, connect, try_dial,
}
use lucas.Hermes.Client.Requests.{store_nonce, forget_nonce, request_fire_and_forget}

-- A request that nobody waits for is counted twice as sent when its one message is sent, and not
-- at all when it is not: then it is one failed request.
pub request_fire_and_forget-counts :
    (w : Wire) (now : ℕ) (c : HermesClient) (message_id service : String) (body : Bytes)
    (nonce : String)
    → let o = request_fire_and_forget w now c message_id service body nonce in
      ((o.1 ≡ none)
        × (length o.0.sent ≡ length c.sent + 1)
        × (o.0.stats.requests_sent ≡ c.stats.requests_sent + 2)
        × (o.0.stats.requests_failed ≡ c.stats.requests_failed))
      ⊎ ((o.1 ≢ none)
          × (o.0.sent ≡ c.sent)
          × (o.0.stats.requests_sent ≡ c.stats.requests_sent)
          × (o.0.stats.requests_failed ≡ c.stats.requests_failed + 1))
unfolding request_fire_and_forget send_request store_nonce forget_nonce
request_fire_and_forget-counts w now c message_id service body nonce = ground (
  arith,
  length-append {0} c.sent
      (("" ∷ w.encode_client (request_message service message_id body) ∷ []) ∷ []),
)

-- How a connection ends, after at most `n` dials: with a socket, or after all of them as it was.
abbrev pub Dials : ℕ → HermesClient → Outcome → Type 0
Dials n c (d, none) = (d.has_socket ≡ true) × (d.dials ≤ c.dials + n) × (suc c.dials ≤ d.dials)
Dials n c (d, some e) = (d.has_socket ≡ c.has_socket) × (d.dials ≡ c.dials + n)

module _ (w : Wire) where
  connect_rounds-Dials : (n : ℕ) (c : HermesClient) → Dials (suc n) c (connect_rounds w n c)
  unfolding connect_rounds try_dial
  connect_rounds-Dials zero c = ground arith
  connect_rounds-Dials (suc n) c = ground (arith, connect_rounds-Dials n (try_dial w c).0)

  -- A connection dials once at least and five times at most; it fails only after five dials, and
  -- then it has not made a socket.
  pub connect-Dials : (c : HermesClient) → Dials 5 c (connect w c)
  unfolding connect
  connect-Dials c = connect_rounds-Dials 4 c

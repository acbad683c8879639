-- ===== src/Hermes/Client/Sends.antt =====
-- internal/hermes/client.go: the client's connection and its one message to the broker.
use lucas.Base.{
  ℕ, zero, suc, ◌+◌, false, true, String, [], ◌∷◌, ◌++◌, Option, none, some, if◌then◌else◌,
}
use lucas.Hermes.Protocol.{Bytes, ClientMessage, hermes_client, hermes_req}
use lucas.Hermes.Wire.{Wire}
use lucas.Hermes.Client.State.{
  HermesClient, ClientError, socket_not_initialized, send_failed, dial_failed,
}

abbrev pub Outcome : Type 0
Outcome = HermesClient × Option ClientError

abbrev pub request_message : String → String → Bytes → ClientMessage
request_message service message_id body = record {
  protocol = hermes_client;
  command = hermes_req;
  service = service;
  body = body;
  message_id = message_id;
}

abbrev pub count_request : ℕ → HermesClient → HermesClient
count_request now c = record c {
  stats = record (c.stats) { requests_sent = c.stats.requests_sent + 1; last_request = now };
}

-- After a round that fails come the rounds that are left.
abbrev next_round : Outcome → Outcome → Outcome
next_round (c, none) rest = (c, none)
next_round (c, some e) rest = rest

module _ (w : Wire) where
  unfoldable pub send_request : ℕ → HermesClient → String → String → Bytes → Outcome
  send_request now c service message_id body =
      let msg = "" ∷ w.encode_client (request_message service message_id body) ∷ [] in
      let called = record c { calls = c.calls + 1 } in
      if c.has_socket
      then (elim (w.send c.calls msg) [
        | none ↦ (count_request now (record called { sent = c.sent ++ msg ∷ [] }), none)
        | some e ↦ (called, some (send_failed e))
      ])
      else (c, some socket_not_initialized)

  -- One round of the loop.
  unfoldable pub try_dial : HermesClient → Outcome
  try_dial c = elim (w.dial c.dials) [
    | some e ↦ (record c { dials = c.dials + 1 }, some (dial_failed e))
    | none ↦ (record c { dials = c.dials + 1; has_socket = true }, none)
  ]

  -- The rounds after this one are counted; the error of the last one is returned.
  unfoldable pub connect_rounds : ℕ → HermesClient → Outcome
  unfolding try_dial
  connect_rounds zero c = try_dial c
  connect_rounds (suc n) c = let o = try_dial c in next_round o (connect_rounds n o.0)

  -- Five rounds.
  unfoldable pub connect : HermesClient → Outcome
  unfolding connect_rounds
  connect c = connect_rounds 4 c

  unfoldable pub attempt_reconnection : HermesClient → HermesClient
  unfolding connect
  attempt_reconnection c = (connect (record c { has_socket = false })).0

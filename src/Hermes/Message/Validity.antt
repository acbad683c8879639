-- ===== src/Hermes/Message/Validity.antt =====
-- internal/hermes/message.go: which messages the validation lets through.
use lucas.Base.{◌≡◌, ◌≢◌, ◌↔◌, ◌⊎◌, none, arith}
use lucas.Hermes.Protocol.{
  hermes_worker, hermes_client, hermes_ready, hermes_reply, hermes_heartbeat, hermes_disconnect,
  hermes_req, commands_distinct,
}
use lucas.Hermes.Message.{AnyMessage, worker, client, request, other, validate_message}

-- What a well-formed message of each type is, independent of the order of the tests.
abbrev pub IsWellFormed : AnyMessage → Type 0
IsWellFormed (worker m) =
    (m.protocol ≡ hermes_worker)
    × (((m.command ≡ hermes_ready) × (m.service ≢ ""))
        ⊎ ((m.command ≡ hermes_reply) × (m.client_id ≢ ""))
        ⊎ (m.command ≡ hermes_heartbeat)
        ⊎ (m.command ≡ hermes_disconnect))
IsWellFormed (client m) =
    (m.protocol ≡ hermes_client) × (m.command ≡ hermes_req) × (m.service ≢ "") × (m.message_id ≢ "")
IsWellFormed (request r) = (r.message_id ≢ "") × (r.service ≢ "") × (r.action ≢ "")
IsWellFormed other = ⊥

-- The validation reports no error exactly on the well-formed messages, of every type.
pub validate_message_iff : (m : AnyMessage) → (validate_message m ≡ none) ↔ IsWellFormed m
unfolding validate_message
validate_message_iff (worker m) = ground (arith, commands_distinct)
validate_message_iff (client m) = ground (arith, commands_distinct)
validate_message_iff (request r) = ground (arith, commands_distinct)
validate_message_iff other = ground (arith, commands_distinct)

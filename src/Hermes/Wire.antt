-- ===== src/Hermes/Wire.antt =====
-- What the Hermes code takes from `encoding/json` and from a zmq4 socket, as a parameter.
use lucas.Base.{ℕ, String, List, Option}
use lucas.Hermes.Protocol.{Bytes, WorkerMessage, ClientMessage, ServiceRequest, ServiceResponse}

-- The frames of a `zmq4.Msg`.
abbrev pub Msg : Type 0
Msg = List Bytes

pub record Wire : Type 0 where
  pub encode_worker : WorkerMessage → Bytes
  pub encode_client : ClientMessage → Bytes
  pub encode_request : ServiceRequest → Bytes
  pub encode_response : ServiceResponse → Bytes
  -- `none`: `json.Unmarshal` fails.
  pub decode_worker : Bytes → Option WorkerMessage
  pub decode_client : Bytes → Option ClientMessage
  pub decode_response : Bytes → Option ServiceResponse
  -- What the `Send` of that number returns for a message: no error, or the text of one.
  pub send : ℕ → Msg → Option String
  -- What the `Dial` of that number returns.
  pub dial : ℕ → Option String

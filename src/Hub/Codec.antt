-- ===== src/Hub/Codec.antt =====
-- What internal/hub and internal/gateway take from `encoding/json` and from the printing of floats
-- and times, as a parameter; and how an ActionResponse is written as JSON.
use lucas.Base.{ℕ, String, List, Option, ◌==◌, if◌then◌else◌}
use lucas.Hermes.Protocol.{Bytes, Json, null, bool, str, obj, Fields, end, field, ServiceRequest}
use lucas.Hub.Device.{ActionResponse}

-- A value, or the text of an error.
pub data Decoded (A : Type 0) : Type 0 where
  decoded : A → Decoded A
  undecodable : String → Decoded A

-- A device command is a device id with the JSON of an action. A latency's average is a float of
-- which only the text is used.
pub record Codec : Type 0 where
  pub decode_request : Bytes → Option ServiceRequest
  -- The error for a command whose action is not JSON.
  pub command_error : String → Bytes → Option String
  pub encode_command : String → Bytes → Bytes
  pub decode_command : Bytes → Decoded (String × Bytes)
  pub time_text : ℕ → String
  pub average_text : List ℕ → String
  pub rate_text : ℕ × ℕ → String

abbrev error_field : String → Fields
error_field e = if e == "" then end else field "error" (str e) end

-- `omitempty` leaves a null and an empty text out.
abbrev data_fields : Json → Fields → Fields
data_fields null rest = rest
data_fields v rest = field "data" v rest

unfoldable pub response_json : ActionResponse → Json
response_json r =
    obj (field "success" (bool r.success) (data_fields r.content (error_field r.error)))

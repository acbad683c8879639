-- ===== src/Hermes/Protocol.antt =====
-- internal/hermes/protocol.go: the constants, the messages, and the frames of RFC 7/MDP.
-- A byte sequence is a text, both where Go has a `string` and where it has a `[]byte`: the code
-- only compares them whole and asks whether they are empty. A duration is a number of nanoseconds.
use text.Mathlib.TextEquality.{eq_iff}
use lucas.Base.{
  ℤ, ◌≢◌, arith, ℕ, ◌*◌, Bool, ◌||◌, String, List, [], ◌∷◌, ◌++◌, Option, none, some, ◌==◌,
  if◌then◌else◌,
}

abbrev pub Bytes : Type 0
Bytes = String

abbrev pub hermes_client : String
hermes_client = "MDPC01"

abbrev pub hermes_worker : String
hermes_worker = "MDPW01"

abbrev pub hermes_ready : String
hermes_ready = "\u{1}"

abbrev pub hermes_request : String
hermes_request = "\u{2}"

abbrev pub hermes_reply : String
hermes_reply = "\u{3}"

abbrev pub hermes_heartbeat : String
hermes_heartbeat = "\u{4}"

abbrev pub hermes_disconnect : String
hermes_disconnect = "\u{5}"

abbrev pub hermes_req : String
hermes_req = "\u{1}"

abbrev pub hermes_rep : String
hermes_rep = "\u{2}"

abbrev pub mdp_client_header : String
mdp_client_header = "MDPC01"

abbrev pub mdp_worker_header : String
mdp_worker_header = "MDPW01"

abbrev pub mdp_heartbeat_liveness : ℕ
mdp_heartbeat_liveness = 3

-- What `encoding/json` puts into an `interface{}`. A number keeps its text.
mutual
  pub data Json : Type 0 where
    null : Json
    bool : Bool → Json
    num : String → Json
    str : String → Json
    arr : Items → Json
    obj : Fields → Json

  pub data Items : Type 0 where
    nil : Items
    cons : Json → Items → Items

  pub data Fields : Type 0 where
    end : Fields
    field : String → Json → Fields → Fields

-- `m[key]` on a decoded object.
unfoldable pub member : String → Fields → Option Json
member k end = none
member k (field j v fs) = if j == k then some v else member k fs

pub record WorkerMessage : Type 0 where
  pub protocol : String
  pub command : String
  pub service : String
  pub body : Bytes
  pub client_id : String

pub record ClientMessage : Type 0 where
  pub protocol : String
  pub command : String
  pub service : String
  pub body : Bytes
  pub message_id : String

pub record ServiceRequest : Type 0 where
  pub message_id : String
  pub service : String
  pub action : String
  pub payload : Bytes
  pub nonce : String
  pub timeout : ℤ

pub record ServiceResponse : Type 0 where
  pub message_id : String
  pub service : String
  pub success : Bool
  pub content : Json
  pub error : String
  pub nonce : String

pub record BrokerStats : Type 0 where
  pub services : ℕ
  pub workers : ℕ
  pub requests : ℕ
  pub responses : ℕ
  pub heartbeats_received : ℕ
  pub heartbeats_sent : ℕ
  pub start_time : ℕ
  pub last_request : ℕ
  pub last_heartbeat : ℕ

abbrev pub millisecond : ℕ
millisecond = 1000000

abbrev pub second : ℕ
second = 1000 * millisecond

abbrev pub get_mdp_heartbeat_interval : ℕ
get_mdp_heartbeat_interval = 2500 * millisecond

abbrev pub get_mdp_heartbeat_expiry : ℕ
get_mdp_heartbeat_expiry = get_mdp_heartbeat_interval * mdp_heartbeat_liveness

unfoldable pub is_valid_mdp_worker_command : String → Bool
is_valid_mdp_worker_command command =
    command == hermes_ready
    || command == hermes_request
    || command == hermes_reply
    || command == hermes_heartbeat
    || command == hermes_disconnect

unfoldable pub is_valid_mdp_client_command : String → Bool
is_valid_mdp_client_command command = command == hermes_req || command == hermes_rep

unfoldable pub format_mdp_worker_frame : String → String → Bytes → List Bytes
format_mdp_worker_frame command service body =
    ("" ∷ mdp_worker_header ∷ command ∷ [])
    ++ ((if service == "" then [] else (service ∷ [])) ++ (if body == "" then [] else (body ∷ [])))

unfoldable pub format_mdp_client_frame : String → String → Bytes → List Bytes
format_mdp_client_frame command service body =
    "" ∷ mdp_client_header ∷ command ∷ service ∷ body ∷ []

-- The worker commands are different texts, and so are the two headers.
pub commands_distinct :
    (hermes_ready ≢ hermes_reply)
    × (hermes_ready ≢ hermes_heartbeat)
    × (hermes_ready ≢ hermes_disconnect)
    × (hermes_reply ≢ hermes_heartbeat)
    × (hermes_reply ≢ hermes_disconnect)
    × (hermes_heartbeat ≢ hermes_disconnect)
    × (hermes_request ≢ hermes_heartbeat)
    × (hermes_request ≢ hermes_disconnect)
    × (hermes_worker ≢ hermes_client)
commands_distinct = (
  ground (arith, eq_iff hermes_ready hermes_reply),
  ground (arith, eq_iff hermes_ready hermes_heartbeat),
  ground (arith, eq_iff hermes_ready hermes_disconnect),
  ground (arith, eq_iff hermes_reply hermes_heartbeat),
  ground (arith, eq_iff hermes_reply hermes_disconnect),
  ground (arith, eq_iff hermes_heartbeat hermes_disconnect),
  ground (arith, eq_iff hermes_request hermes_heartbeat),
  ground (arith, eq_iff hermes_request hermes_disconnect),
  ground (arith, eq_iff hermes_worker hermes_client),
)

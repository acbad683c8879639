-- ===== src/Bravia/Client.antt =====
-- internal/bravia/client.go: the two kinds of requests to a television.
use Prim.Native.String
use lucas.Base.{
  ℕ, Bool, String, List, [], ◌∷◌, Option, none, some, Map, if◌then◌else◌, nat_eq, decimal,
}
use lucas.Bravia.Codes.{ircc_endpoint}
use lucas.Bravia.World.{
  World, Fallible, good, bad, BraviaPayload, HttpRequest, HttpResult, responded, unreachable,
}

pub record BraviaClient : Type 0 where
  pub address : String
  pub credential : String
  pub debug_mode : Bool
  pub test_mode : Bool

unfoldable pub new_bravia_client : String → String → Bool → Bool → BraviaClient
new_bravia_client address credential debug_mode test_mode = record {
  address = address;
  credential = credential;
  debug_mode = debug_mode;
  test_mode = test_mode;
}

infixr 5 ◌⊕◌
abbrev pub ◌⊕◌ : String → String → String
s ⊕ t = String.◌++◌ s t

abbrev pub soap_body : String → String
soap_body code =
    "<?xml version=\"1.0\" encoding=\"utf-8\"?>\n"
    ⊕ "<s:Envelope xmlns:s=\"http://schemas.xmlsoap.org/soap/envelope/\" "
    ⊕ "s:encodingStyle=\"http://schemas.xmlsoap.org/soap/encoding/\">\n" ⊕ "  <s:Body>\n"
    ⊕ "    <u:X_SendIRCC xmlns:u=\"urn:schemas-sony-com:service:IRCC:1\">\n" ⊕ "      <IRCCCode>"
    ⊕ code ⊕ "</IRCCCode>\n    </u:X_SendIRCC>\n  </s:Body>\n</s:Envelope>"

abbrev pub ircc_request : BraviaClient → String → HttpRequest
ircc_request c code = record {
  url = "http://" ⊕ c.address ⊕ ircc_endpoint;
  headers =
      ("Content-Type", "text/xml; charset=utf-8")
      ∷ ("SOAPAction", "\"urn:schemas-sony-com:service:IRCC:1#X_SendIRCC\"")
      ∷ ("X-Auth-PSK", c.credential)
      ∷ [];
  body = soap_body code;
}

abbrev pub control_post : BraviaClient → String → String → HttpRequest
control_post c endpoint json = record {
  url = "http://" ⊕ c.address ⊕ endpoint;
  headers = ("Content-Type", "application/json") ∷ ("X-Auth-PSK", c.credential) ∷ [];
  body = json;
}

abbrev pub create_payload : ℕ → String → List (Map String) → BraviaPayload
create_payload id method params = record {
  id = id;
  version = "1.0";
  method = method;
  params = params;
}

abbrev body_text : Fallible String → String
body_text (good text) = text
body_text (bad e) = ""

-- The status is looked at; the body is read for the error alone.
unfoldable pub remote_error : HttpResult → Option String
remote_error (unreachable e) = some ("failed to send IRCC request: " ⊕ e)
remote_error (responded status body) =
    if nat_eq status 200
    then none
    else some ("IRCC request failed with status " ⊕ decimal status ⊕ ": " ⊕ body_text body)

abbrev control_result : HttpResult → Fallible (Fallible String)
control_result (unreachable e) = bad ("failed to send control request: " ⊕ e)
control_result (responded status body) = good body

module _ (w : World) where
  -- The error, if any, and the requests that were sent; `n` is the number of the next one.
  unfoldable pub remote_request : ℕ → BraviaClient → String → Option String × List HttpRequest
  unfolding remote_error
  remote_request n c code =
      let req = ircc_request c code in
      if c.test_mode then (none, []) else (elim (w.new_request req.url) [
        | some e ↦ (some ("failed to create IRCC request: " ⊕ e), [])
        | none ↦ (remote_error (w.perform n req), req ∷ [])
      ])

  unfoldable pub post_control :
      ℕ → BraviaClient → HttpRequest → Fallible (Fallible String) × List HttpRequest
  post_control n c req = elim (w.new_request req.url) [
    | some e ↦ (bad ("failed to create control request: " ⊕ e), [])
    | none ↦ (control_result (w.perform n req), req ∷ [])
  ]

  -- What reading the response's body gives; its status is not looked at.
  unfoldable pub control_request :
      ℕ → BraviaClient → String → BraviaPayload → Fallible (Fallible String) × List HttpRequest
  unfolding post_control
  control_request n c endpoint payload =
      if c.test_mode
      then (good (good "{\"result\": [{\"status\": \"success\"}]}"), [])
      else (elim (w.encode_payload payload) [
        | bad e ↦ (bad ("failed to marshal payload: " ⊕ e), [])
        | good json ↦ post_control n c (control_post c endpoint json)
      ])

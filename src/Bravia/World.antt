-- ===== src/Bravia/World.antt =====
-- internal/bravia: the data that a television's client exchanges, and what it relies on outside the
-- repository, encoding/json, strconv, fmt and net/http, as a parameter. Of these nothing is assumed.
use lucas.Base.{ℕ, String, List, Option, Map}
use lucas.Hermes.Protocol.{Bytes, Json}

-- A value, or the text of an error.
pub data Fallible (A : Type 0) : Type 0 where
  good : A → Fallible A
  bad : String → Fallible A

-- `parameters` is `none` for a nil map.
pub record ActionRequest : Type 0 where
  pub kind : String
  pub action : String
  pub parameters : Option (Map Json)

pub record BraviaPayload : Type 0 where
  pub id : ℕ
  pub version : String
  pub method : String
  pub params : List (Map String)

-- A POST.
pub record HttpRequest : Type 0 where
  pub url : String
  pub headers : Map String
  pub body : String

-- What `Do` gives at the end, after the redirects that it follows by itself: a status with what
-- reading the body gives, or an error.
pub data HttpResult : Type 0 where
  responded : ℕ → Fallible String → HttpResult
  unreachable : String → HttpResult

-- `new_request` is the error for a bad URL; `perform` is what `Do` gives for the request of that number
-- that it is handed.
-- `truncated` is the text of `int(v)` for a JSON number, `float_text` that of FormatFloat, and
-- `value_text` that of `%v`.
pub record World : Type 0 where
  pub decode_action : Bytes → Fallible ActionRequest
  pub encode_payload : BraviaPayload → Fallible String
  pub decode_json : String → Fallible Json
  pub new_request : String → Option String
  pub perform : ℕ → HttpRequest → HttpResult
  pub truncated : String → String
  pub float_text : String → String
  pub value_text : Json → String

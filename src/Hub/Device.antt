-- ===== src/Hub/Device.antt =====
-- internal/device/device.go: the answers of devices.
use lucas.Base.{Bool, true, false, String, List}
use lucas.Hermes.Protocol.{Json, null}

pub record DeviceInfo : Type 0 where
  pub id : String
  pub name : String
  pub kind : String
  pub model : String
  pub address : String
  pub status : String
  pub capabilities : List String

pub record ActionResponse : Type 0 where
  pub success : Bool
  pub content : Json
  pub error : String

-- A response that only tells of an error.
abbrev pub failed_with : String → ActionResponse
failed_with error = record { success = false; content = null; error = error }

abbrev pub succeeded_with : Json → ActionResponse
succeeded_with content = record { success = true; content = content; error = "" }

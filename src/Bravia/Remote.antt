-- ===== src/Bravia/Remote.antt =====
-- internal/bravia/remote.go: an action, from its JSON to its response. Every function gives the
-- requests that it sent with its result.
use lucas.Base.{
  ℕ, Bool, true, false, String, List, [], ◌∷◌, Option, none, some, Map, if◌then◌else◌, lookup,
  insert, ◌==◌,
}
use lucas.Hermes.Protocol.{Bytes, Json, bool, num, str}
use lucas.Hub.Device.{ActionResponse, DeviceInfo, failed_with, succeeded_with}
use lucas.Hub.DeviceManager.{Devices, processed}
use lucas.Bravia.Codes.{remote_action_map, control_action_map, ControlActionInfo}
use lucas.Bravia.World.{World, Fallible, good, bad, ActionRequest, HttpRequest}
use lucas.Bravia.Client.{
  BraviaClient, new_bravia_client, remote_request, control_request, create_payload, ◌⊕◌,
}

pub record BraviaRemote : Type 0 where
  pub client : BraviaClient
  pub info : DeviceInfo

unfoldable pub new_bravia_remote : String → String → Bool → Bool → BraviaRemote
unfolding new_bravia_client
new_bravia_remote address credential debug test_mode = record {
  client = new_bravia_client address credential debug test_mode;
  info = record {
    id = "";
    name = "";
    kind = "bravia_tv";
    model = "Sony Bravia";
    address = address;
    status = "unknown";
    capabilities =
        "remote_control" ∷ "system_control" ∷ "audio_control" ∷ "content_control" ∷ "app_control"
        ∷ [];
  };
}

abbrev pub Responded : Type 0
Responded = ActionResponse × List HttpRequest

abbrev refused : String → Responded
refused e = (failed_with e, [])

abbrev true_text : Bool → String
true_text true = "true"
true_text false = "false"

module _ (w : World) where
  -- The required fields are not empty.
  unfoldable pub parse_action_request : Bytes → Fallible ActionRequest
  parse_action_request action = elim (w.decode_action action) [
    | bad e ↦ bad ("failed to parse action request: " ⊕ e)
    | good request ↦
        if request.kind == ""
        then bad "action type is required"
        else if request.action == ""
        then bad "action is required"
        else good request
  ]

  abbrev volume_text : Json → Fallible String
  volume_text (num v) = good (w.truncated v)
  volume_text (str v) = good v
  volume_text _ = bad "invalid volume parameter type"

  abbrev status_text : Json → Fallible String
  status_text (bool b) = good (true_text b)
  status_text (str s) = good s
  status_text _ = bad "invalid status parameter type"

  abbrev param_text : Json → String
  param_text (str v) = v
  param_text (num v) = w.float_text v
  param_text (bool b) = true_text b
  param_text v = w.value_text v

  unfoldable pub convert_all : Map Json → Map String
  convert_all [] = []
  convert_all ((key, value) ∷ m) = insert key (param_text value) (convert_all m)

  abbrev nonempty : Map String → List (Map String)
  nonempty [] = []
  nonempty (e ∷ m) = (e ∷ m) ∷ []

  abbrev pub with_volume : Option Json → Fallible (List (Map String))
  with_volume none = bad "volume parameter is required for set_volume action"
  with_volume (some v) = elim (volume_text v) [
    | bad e ↦ bad e
    | good text ↦ good ((("target", "speaker") ∷ ("volume", text) ∷ []) ∷ [])
  ]

  abbrev pub with_status : Option Json → Fallible (List (Map String))
  with_status none = bad "status parameter is required for set_mute action"
  with_status (some v) = elim (status_text v) [
    | bad e ↦ bad e
    | good text ↦ good ((("status", text) ∷ []) ∷ [])
  ]

  unfoldable pub volume_parameters : Option (Map Json) → Fallible (List (Map String))
  volume_parameters none = bad "parameters are required for set_volume action"
  volume_parameters (some m) = with_volume (lookup "volume" m)

  unfoldable pub mute_parameters : Option (Map Json) → Fallible (List (Map String))
  mute_parameters none = bad "parameters are required for set_mute action"
  mute_parameters (some m) = with_status (lookup "status" m)

  unfoldable pub other_parameters : Option (Map Json) → Fallible (List (Map String))
  unfolding convert_all
  other_parameters none = good []
  other_parameters (some m) = good (nonempty (convert_all m))

  unfoldable pub build_control_parameters :
      String → Option (Map Json) → Fallible (List (Map String))
  unfolding volume_parameters mute_parameters other_parameters
  build_control_parameters action params =
      if action == "set_volume"
      then volume_parameters params
      else if action == "set_mute"
      then mute_parameters params
      else other_parameters params

  abbrev remote_response : String → Option String → ActionResponse
  remote_response action (some e) = failed_with ("remote request failed: " ⊕ e)
  remote_response action none =
      succeeded_with (str ("Remote action '" ⊕ action ⊕ "' executed successfully"))

  unfoldable pub process_remote_action : ℕ → BraviaRemote → ActionRequest → Responded
  process_remote_action n br request = elim (lookup request.action remote_action_map) [
    | none ↦ refused ("unsupported remote action: " ⊕ request.action)
    | some code ↦
        let (error, sent) = remote_request w n br.client code in
        (remote_response request.action error, sent)
  ]

  -- A body that is not JSON is passed on as it is.
  abbrev body_response : Fallible String → ActionResponse
  body_response (bad e) = failed_with ("failed to read response: " ⊕ e)
  body_response (good text) = elim (w.decode_json text) [
    | bad e ↦ succeeded_with (str text)
    | good v ↦ succeeded_with v
  ]

  abbrev pub control_response : Fallible (Fallible String) → ActionResponse
  control_response (bad e) = failed_with ("control request failed: " ⊕ e)
  control_response (good body) = body_response body

  unfoldable pub control_with :
      ℕ → BraviaRemote → ControlActionInfo → Fallible (List (Map String)) → Responded
  control_with n br info (bad e) = refused ("invalid parameters: " ⊕ e)
  control_with n br info (good params) =
      let (result, sent) =
        control_request w n br.client info.endpoint (create_payload 1 info.method params) in
      (control_response result, sent)

  unfoldable pub process_control_action : ℕ → BraviaRemote → ActionRequest → Responded
  unfolding control_with build_control_parameters
  process_control_action n br request = elim (lookup request.action control_action_map) [
    | none ↦ refused ("unsupported control action: " ⊕ request.action)
    | some info ↦
        control_with n br info (build_control_parameters request.action request.parameters)
  ]

  unfoldable pub route_action : ℕ → BraviaRemote → ActionRequest → Responded
  unfolding process_remote_action process_control_action
  route_action n br request =
      if request.kind == "remote"
      then process_remote_action n br request
      else if request.kind == "control"
      then process_control_action n br request
      else refused ("unsupported action type: " ⊕ request.kind)

  -- It never returns an error.
  unfoldable pub process : ℕ → BraviaRemote → Bytes → Responded
  unfolding parse_action_request route_action
  process n br action = elim (parse_action_request action) [
    | bad e ↦ refused e
    | good request ↦ route_action n br request
  ]

  -- The televisions as devices of a hub.
  abbrev pub bravia_devices : Devices
  bravia_devices = record {
    Device = BraviaRemote;
    new_bravia_remote = new_bravia_remote;
    device_info = λ br. br.info;
    process = λ br n action. processed (process n br action).0;
  }

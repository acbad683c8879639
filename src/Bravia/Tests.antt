-- ===== src/Bravia/Tests.antt =====
-- internal/bravia: the theorems at concrete inputs, and runs of the code.
use lucas.Base.{
  List, Option, length, ℕ, true, false, String, [], ◌∷◌, none, some, ◌≡◌, ◌↔◌, refl, lookup,
  str_dec,
}
use lucas.Hermes.Protocol.{str, num}
use lucas.Hub.LruList.{list_lru}
use lucas.Hub.NonceCache.{NonceResponse}
use lucas.Hub.DeviceManager.{
  DeviceConfig, DeviceManager, ManagerError, new_device_manager, process_device_action, reload,
}
use lucas.Bravia.Hosting.{last_config, client_of, process_device_action-reload}
use lucas.Bravia.Codes.{control_action_map, remote_action_map}
use lucas.Bravia.World.{World, Fallible, good, ActionRequest, responded}
use lucas.Bravia.Client.{control_request, ircc_request}
use lucas.Bravia.Remote.{
  bravia_devices, BraviaRemote, new_bravia_remote, process, parse_action_request,
  build_control_parameters,
}
use lucas.Bravia.Sending.{IsSendingOf, process-IsSendingOf}
use lucas.Bravia.Status.{answering_with, process-answering_with, process-succeeds_iff}
use lucas.Bravia.Parameters.{IsGood, IsVolume, IsStatus, param, build_control_parameters_iff}

abbrev mute : String
mute = "mute"

abbrev set_volume : String
set_volume = "set_volume"

abbrev mute_request : ActionRequest
mute_request = record { kind = "remote"; action = "mute"; parameters = none }

abbrev volume_request : ActionRequest
volume_request = record {
  kind = "control";
  action = "set_volume";
  parameters = some (("volume", num "12") ∷ []);
}

-- A television that answers every request with that status; the action is always the given one.
abbrev world : ActionRequest → ℕ → World
world request status = record {
  decode_action = λ action. good request;
  encode_payload = λ payload. good payload.method;
  decode_json = λ text. good (str text);
  new_request = λ url. none;
  perform = λ n req. responded status (good "{}");
  truncated = λ v. v;
  float_text = λ v. v;
  value_text = λ v. "";
}

abbrev television : BraviaRemote
television = new_bravia_remote "10.0.0.2" "0000" false false

parsed_mute : parse_action_request (world mute_request 403) "" ≡ good mute_request
unfolding parse_action_request str_dec
parsed_mute = refl

parsed_volume : parse_action_request (world volume_request 403) "" ≡ good volume_request
unfolding parse_action_request str_dec
parsed_volume = refl

television_live : television.client.test_mode ≡ false
unfolding new_bravia_remote
television_live = refl

process-IsSendingOf_example :
    IsSendingOf television.client (process (world volume_request 403) 0 television "").1
process-IsSendingOf_example = process-IsSendingOf (world volume_request 403) 0 television ""

process-answering_with_example :
    process (answering_with 200 (world volume_request 403)) 0 television ""
    ≡ process (world volume_request 403) 0 television ""
process-answering_with_example =
    process-answering_with (world volume_request 403) 0 television 200 "" volume_request
      parsed_volume refl

process-succeeds_iff_example :
    ((process (world mute_request 403) 0 television "").0.success ≡ true) ↔ (
      (code : String) × (lookup "mute" remote_action_map ≡ some code)
      × ((world mute_request 403).new_request (ircc_request television.client code).url ≡ none)
      × (body : Fallible String) × ((world mute_request 403).perform 0
            (ircc_request television.client code)
          ≡ responded 200 body))
process-succeeds_iff_example =
    process-succeeds_iff (world mute_request 403) 0 television "" mute_request television_live
      parsed_mute refl

build_control_parameters_iff_example :
    IsGood
      (build_control_parameters (world volume_request 200) "set_volume" volume_request.parameters)
    ↔ ((set_volume ≡ set_volume → IsVolume (param "volume" volume_request.parameters))
        × (set_volume ≡ "set_mute" → IsStatus (param "status" volume_request.parameters)))
build_control_parameters_iff_example =
    build_control_parameters_iff (world volume_request 200) volume_request.parameters "set_volume"

found_mute : lookup "mute" remote_action_map ≡ some "AAAAAQAAAAEAAAAUAw=="
unfolding remote_action_map lookup str_dec
found_mute = refl

-- A control action that the television refuses counts as success.
refused_action : (process (world volume_request 403) 0 television "").0.success ≡ true
unfolding process lookup str_dec control_action_map new_bravia_remote control_request
refused_action = refl

abbrev configuration : List DeviceConfig
configuration =
    record {
      id = "tv";
      kind = "bravia";
      model = "";
      address = "10.0.0.2";
      credential = "0000";
      capabilities = [];
    }
    ∷ []

abbrev hub : DeviceManager (list_lru NonceResponse) (bravia_devices (world mute_request 403))
hub = new_device_manager (list_lru NonceResponse) (bravia_devices (world mute_request 403)) []

abbrev reloaded :
    DeviceManager (list_lru NonceResponse) (bravia_devices (world mute_request 403))
    × Option ManagerError
reloaded =
    reload (list_lru NonceResponse) (bravia_devices (world mute_request 403)) configuration false
      false hub

reload_succeeds : reloaded.1 ≡ none
unfolding reload str_dec
reload_succeeds = refl

last_config-television :
    last_config "tv" configuration
    ≡ some (record {
      id = "tv";
      kind = "bravia";
      model = "";
      address = "10.0.0.2";
      credential = "0000";
      capabilities = [];
    })
unfolding last_config str_dec
last_config-television = refl

process_device_action-reload_example :
    let w = world mute_request 403 in
    (br : BraviaRemote) × ((process_device_action
        (list_lru NonceResponse)
        (bravia_devices w)
        reloaded.0
        "tv"
        "").0
      ≡ (process w (length reloaded.0.performed) br "").0)
    × IsSendingOf
        (client_of (list_lru NonceResponse) w false false (record {
          id = "tv";
          kind = "bravia";
          model = "";
          address = "10.0.0.2";
          credential = "0000";
          capabilities = [];
        }))
        (process w (length reloaded.0.performed) br "").1
process_device_action-reload_example =
    process_device_action-reload (list_lru NonceResponse) (world mute_request 403) false false
      configuration hub "tv" _ "" reload_succeeds last_config-television

-- ===== src/Bravia/Codes.antt =====
-- internal/bravia/constants.go and the tables of remote.go: the codes of the keys, the endpoints and
-- methods, and the actions that stand for them.
use lucas.Base.{String, [], ◌∷◌, Map}

-- The actions of `remoteActionMap`, in its order, with the codes of their keys.
unfoldable pub remote_action_map : Map String
remote_action_map =
    ("power", "AAAAAQAAAAEAAAAVAw==")
    ∷ ("power_on", "AAAAAQAAAAEAAAAuAw==")
    ∷ ("power_off", "AAAAAQAAAAEAAAAvAw==")
    ∷ ("volume_up", "AAAAAQAAAAEAAAASAw==")
    ∷ ("volume_down", "AAAAAQAAAAEAAAATAw==")
    ∷ ("mute", "AAAAAQAAAAEAAAAUAw==")
    ∷ ("channel_up", "AAAAAQAAAAEAAAAQAw==")
    ∷ ("channel_down", "AAAAAQAAAAEAAAARAw==")
    ∷ ("up", "AAAAAQAAAAEAAAB0Aw==")
    ∷ ("down", "AAAAAQAAAAEAAAB1Aw==")
    ∷ ("left", "AAAAAQAAAAEAAAA0Aw==")
    ∷ ("right", "AAAAAQAAAAEAAAAzAw==")
    ∷ ("confirm", "AAAAAQAAAAEAAABlAw==")
    ∷ ("home", "AAAAAQAAAAEAAABgAw==")
    ∷ ("menu", "AAAAAQAAAAEAAAAbAw==")
    ∷ ("back", "AAAAAQAAAAEAAABjAw==")
    ∷ ("input", "AAAAAQAAAAEAAAAlAw==")
    ∷ ("hdmi1", "AAAAAgAAAAEAAABoAw==")
    ∷ ("hdmi2", "AAAAAgAAAAEAAABpAw==")
    ∷ ("hdmi3", "AAAAAgAAAAEAAABqAw==")
    ∷ ("hdmi4", "AAAAAgAAAAEAAABrAw==")
    ∷ []

abbrev pub ircc_endpoint : String
ircc_endpoint = "/sony/ircc"

pub record ControlActionInfo : Type 0 where
  pub endpoint : String
  pub method : String

abbrev pub control : String → String → ControlActionInfo
control endpoint method = record { endpoint = endpoint; method = method }

unfoldable pub control_action_map : Map ControlActionInfo
control_action_map =
    ("power_status", control "/sony/system" "getPowerStatus")
    ∷ ("system_info", control "/sony/system" "getSystemInformation")
    ∷ ("volume_info", control "/sony/audio" "getVolumeInformation")
    ∷ ("playing_content", control "/sony/avContent" "getPlayingContentInfo")
    ∷ ("app_list", control "/sony/appControl" "getApplicationList")
    ∷ ("content_list", control "/sony/avContent" "getContentList")
    ∷ ("set_volume", control "/sony/audio" "setAudioVolume")
    ∷ ("set_mute", control "/sony/audio" "setAudioMute")
    ∷ []

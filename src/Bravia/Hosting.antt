-- ===== src/Bravia/Hosting.antt =====
-- internal/bravia and internal/hub/device_manager.go: a hub of televisions.
use lucas.Base.{
  subst, Bool, String, List, [], ◌∷◌, Option, none, some, ◌≡◌, refl, ◌∙◌, ap, length, ◌==◌, arith,
  if◌then◌else◌,
}
use lucas.Hermes.Protocol.{Bytes}
use lucas.Hub.Lru.{Lru}
use lucas.Hub.NonceCache.{NonceResponse}
use lucas.Hub.DeviceManager.{
  DeviceConfig, DeviceManager, get_device, process_device_action, reload, ok,
}
use lucas.Hub.Setup.{configured, found, get_device-reload, made}
use lucas.Bravia.World.{World}
use lucas.Bravia.Client.{BraviaClient}
use lucas.Bravia.Remote.{BraviaRemote, process, bravia_devices, new_bravia_remote}
use lucas.Bravia.Sending.{IsSendingOf, process-IsSendingOf}

-- The last configuration of that id.
unfoldable pub last_config : String → List DeviceConfig → Option DeviceConfig
last_config k [] = none
last_config k (c ∷ cs) = elim (last_config k cs) [
  | some later ↦ some later
  | none ↦ if c.id == k then some c else none
]

module _ (l : Lru NonceResponse) (w : World) (debug test_mode : Bool) where
  -- The client of the television that a configuration describes.
  abbrev pub client_of : DeviceConfig → BraviaClient
  client_of c = record {
    address = c.address;
    credential = c.credential;
    debug_mode = debug;
    test_mode = test_mode;
  }

  client-made :
      (c : DeviceConfig) → (made l (bravia_devices w) debug test_mode c).client ≡ client_of c
  unfolding new_bravia_remote
  client-made c = refl

  abbrev made_of : Option DeviceConfig → Option BraviaRemote
  made_of none = none
  made_of (some c) = some (made l (bravia_devices w) debug test_mode c)

  configured-last_config :
      (k : String) (cs : List DeviceConfig)
      → configured l (bravia_devices w) debug test_mode k cs ≡ made_of (last_config k cs)
  unfolding configured last_config
  configured-last_config k [] = refl
  configured-last_config k (c ∷ cs) = ground (arith, configured-last_config k cs)

  -- After a reload that succeeded, an action for a configured television gets what a television
  -- responds that hands at most one request to the HTTP client, none in test mode: a request to the
  -- address of its last configuration, at one of the endpoints, with the credential of that
  -- configuration.
  pub process_device_action-reload :
      (config : List DeviceConfig) (dm : DeviceManager l (bravia_devices w)) (id : String)
      (c : DeviceConfig) (action : Bytes)
      → let ds = bravia_devices w in
        let o = reload l ds config debug test_mode dm in
        o.1 ≡ none
        → last_config id config ≡ some c
        → (br : BraviaRemote) × ((process_device_action l ds o.0 id action).0
            ≡ (process w (length o.0.performed) br action).0)
          × IsSendingOf (client_of c) (process w (length o.0.performed) br action).1
  unfolding process_device_action
  process_device_action-reload config dm id c action e last =
      let ds = bravia_devices w in
      let br : BraviaRemote = made l ds debug test_mode c in
      let o = reload l ds config debug test_mode dm in
      let n = length o.0.performed in
      let held : get_device l ds o.0 id ≡ ok br =
        (get_device-reload l ds debug test_mode config dm).1 e id
        ∙ ap (found l ds debug test_mode id) (configured-last_config id config ∙ ap made_of last) in
      (
        br,
        rw (held, process_device_action),
        subst (λ t. IsSendingOf t (process w n br action).1) (client-made c)
            (process-IsSendingOf w n br action),
      )

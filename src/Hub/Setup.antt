-- ===== src/Hub/Setup.antt =====
-- internal/hub/device_manager.go: which devices a hub has after it read a configuration.
use lucas.Base.{
  ◌⊎◌, Bool, String, List, [], ◌∷◌, Option, none, some, Map, ◌≡◌, ◌≢◌, ◌↔◌, refl, ◌∙◌, arith, All,
  lookup, insert, lookup-insert, if◌then◌else◌, ◌==◌, str_dec, inl, inr,
}
use lucas.Hub.Lru.{Lru}
use lucas.Hub.NonceCache.{NonceResponse}
use lucas.Hub.DeviceManager.{
  device_not_found, get_device, Devices, DeviceManager, DeviceConfig, Result, ok, err, ManagerError,
  create_device, add_devices, initialize, reload, shutdown_manager, credential_required,
  unsupported_device_type,
}

-- A device that can be made: a bravia with a credential.
abbrev pub IsGood : DeviceConfig → Type 0
IsGood c = (c.kind ≡ "bravia") × (c.credential ≢ "")

module _ (l : Lru NonceResponse) (ds : Devices) (debug test_mode : Bool) where
  open ds use {Device, new_bravia_remote}

  abbrev pub made : DeviceConfig → Device
  made c = new_bravia_remote c.address c.credential debug test_mode

  -- The device of the last configuration of that id.
  unfoldable pub configured : String → List DeviceConfig → Option Device
  configured k [] = none
  configured k (c ∷ cs) = elim (configured k cs) [
    | some d ↦ some d
    | none ↦ if c.id == k then some (made c) else none
  ]

  -- What a look for a device gives.
  abbrev pub found : String → Option Device → Result Device
  found k none = err (device_not_found k)
  found k (some d) = ok d

  IsGood-cases : (c : DeviceConfig) → IsGood c ⊎ (¬ (IsGood c))
  IsGood-cases c = elim (str_dec c.kind "bravia") [
    | no other ↦ inr (λ g. other g.0)
    | yes same ↦ elim (str_dec c.credential "") [
      | no full ↦ inl (same, full)
      | yes nil ↦ inr (λ g. g.1 nil)
    ]
  ]

  abbrev or_else : Option Device → Option Device → Option Device
  or_else (some d) e = some d
  or_else none e = e

  create_device-good :
      (c : DeviceConfig) → IsGood c → create_device l ds c debug test_mode ≡ ok (made c)
  unfolding create_device
  create_device-good c g = ground arith

  create_device-bad :
      (c : DeviceConfig)
      → (¬ (IsGood c))
      → (e : ManagerError) × (create_device l ds c debug test_mode ≡ err e)
  unfolding create_device
  create_device-bad c g = elim (str_dec c.kind "bravia") [
    | no other ↦ (unsupported_device_type c.kind, ground arith)
    | yes same ↦ (credential_required, ground arith)
  ]

  some_ne : {e : ManagerError} → ¬ (some e ≡ none)
  some_ne q = cc

  -- After the loop: it fails exactly where a configuration is bad, and otherwise the devices are
  -- the configured ones over those there were.
  abbrev Added :
      List DeviceConfig → DeviceManager l ds → DeviceManager l ds × Option ManagerError → Type 0
  Added cs dm (after, e) =
      ((e ≡ none) ↔ All IsGood cs)
      × (e ≡ none
          → (k : String) → lookup k after.devices ≡ or_else (configured k cs) (lookup k dm.devices))

  or_else-insert :
      (c : DeviceConfig) (cs : List DeviceConfig) (m : Map Device) (k : String)
      → or_else (configured k cs) (lookup k (insert c.id (made c) m))
        ≡ or_else (configured k (c ∷ cs)) (lookup k m)
  unfolding configured
  or_else-insert c cs m k = ground (arith, lookup-insert c.id k (made c) m)

  add_devices-Added :
      (cs : List DeviceConfig) (dm : DeviceManager l ds)
      → Added cs dm (add_devices l ds cs debug test_mode dm)
  unfolding add_devices configured
  add_devices-Added [] dm = (((λ _. tt), (λ _. refl)), (λ _ k. refl))
  add_devices-Added (c ∷ cs) dm =
      let next : DeviceManager l ds = record dm { devices = insert c.id (made c) dm.devices } in
      let rest = add_devices-Added cs next in
      elim (IsGood-cases c) [
        | inl g ↦
            rw (create_device-good c g, add_devices)
              (
                ((λ e. (g, rest.0.0 e)), (λ a. rest.0.1 a.1)),
                (λ e k. rest.1 e k ∙ or_else-insert c cs dm.devices k),
              )
        | inr b ↦
            let (e, fails) = create_device-bad c b in
            rw (fails, add_devices)
              (((λ q. absurd (some_ne q)), (λ a. absurd (b a.0))), (λ q. absurd (some_ne q)))
      ]

  or_else-none : (o : Option Device) → or_else o none ≡ o
  or_else-none none = refl
  or_else-none (some d) = refl

  get_device-found :
      (k : String) (dm : DeviceManager l ds) (o : Option Device)
      → lookup k dm.devices ≡ o
      → get_device l ds dm k ≡ found k o
  unfolding get_device
  get_device-found k dm none e = rw (e, get_device)
  get_device-found k dm (some d) e = rw (e, get_device)

  -- A reload succeeds exactly if every configuration is a bravia with a credential. Whatever the
  -- manager held before, it then has exactly the configured devices, and under an id that is
  -- configured twice the last of them.
  pub get_device-reload :
      (config : List DeviceConfig) (dm : DeviceManager l ds)
      → let o = reload l ds config debug test_mode dm in
        ((o.1 ≡ none) ↔ All IsGood config)
        × (o.1 ≡ none → (k : String) → get_device l ds o.0 k ≡ found k (configured k config))
  unfolding reload initialize shutdown_manager lookup
  get_device-reload config dm =
      let start : DeviceManager l ds = record (shutdown_manager l ds dm) { config = config } in
      let (iff, devices) = add_devices-Added config start in
      (iff, λ e k. get_device-found k _ _ (rw (devices e k) (or_else-none (configured k config))))

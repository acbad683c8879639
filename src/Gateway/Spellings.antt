-- ===== src/Gateway/Spellings.antt =====
-- internal/gateway/broker_service.go: a hub that the database knows under the other spelling alone.
use lucas.Base.{ℕ, String}
use lucas.Hermes.Protocol.{Bytes}
use lucas.Hermes.Wire.{Wire}
use lucas.Gateway.DeviceList.{HubDirectory, extract_hub_id_from_worker_identity}

module _ (now : ℕ) (w : Wire) (worker : String) (response : Bytes) (bs : HubDirectory) where
  abbrev actual : String
  actual = extract_hub_id_from_worker_identity worker

-- ===== src/Hermes/Broker/Frames.antt =====
-- internal/hermes/broker.go: what sending leaves alone.
use lucas.Base.{ℕ, ◌∙◌, ◌≡◌, String, List, [], ◌∷◌, arith}
use lucas.Hermes.Protocol.{Bytes}
use lucas.Hermes.Wire.{Wire}
use lucas.Hermes.Broker.State.{Broker, PendingRequest, deref}
use lucas.Hermes.Broker.Sends.{
  send_heartbeat_response, send_reregistration_request, send_to_worker, send_to_client,
  send_immediate_device_list_request,
}
use lucas.Hermes.Broker.Handlers.{drain}

-- Services, workers and clients are as before.
pub record Keeps (b b' : Broker) : Type 0 where
  pub services : b'.services ≡ b.services
  pub heap : b'.heap ≡ b.heap
  pub workers : b'.workers ≡ b.workers
  pub clients : b'.clients ≡ b.clients
  pub heartbeat : b'.heartbeat ≡ b.heartbeat

pub Keeps-refl : (b : Broker) → Keeps b b
Keeps-refl b = ground arith

pub Keeps-trans : {a b c : Broker} → Keeps a b → Keeps b c → Keeps a c
Keeps-trans h k = record {
  services = k.services ∙ h.services;
  heap = k.heap ∙ h.heap;
  workers = k.workers ∙ h.workers;
  clients = k.clients ∙ h.clients;
  heartbeat = k.heartbeat ∙ h.heartbeat;
}

module _ (w : Wire) where
  pub send_heartbeat_response-Keeps :
      (b : Broker) (worker_id : String) → Keeps b (send_heartbeat_response w b worker_id).0
  unfolding send_heartbeat_response
  send_heartbeat_response-Keeps b worker_id = ground arith

  pub send_reregistration_request-Keeps :
      (b : Broker) (worker_id : String) → Keeps b (send_reregistration_request w b worker_id).0
  unfolding send_reregistration_request
  send_reregistration_request-Keeps b worker_id = ground arith

  pub send_to_worker-Keeps :
      (b : Broker) (worker_id client_id : String) (body : Bytes)
      → Keeps b (send_to_worker w b worker_id client_id body).0
  unfolding send_to_worker
  send_to_worker-Keeps b worker_id client_id body = ground arith

  pub send_to_client-Keeps :
      (b : Broker) (client_id : String) (body : Bytes)
      → Keeps b (send_to_client w b client_id body).0
  unfolding send_to_client
  send_to_client-Keeps b client_id body = ground arith

  pub send_immediate_device_list_request-Keeps :
      (message_id : String) (b : Broker) (hub_id : String)
      → Keeps b (send_immediate_device_list_request w message_id b hub_id)
  unfolding send_immediate_device_list_request
  send_immediate_device_list_request-Keeps message_id b hub_id = ground arith

  pub drain-Keeps :
      (rs : List PendingRequest) (ps : List ℕ) (b : Broker) → Keeps b (drain w rs ps b).0
  unfolding drain
  drain-Keeps [] ps b = Keeps-refl b
  drain-Keeps (r ∷ rs) [] b = Keeps-refl b
  drain-Keeps (r ∷ rs) (p ∷ ps) b =
      Keeps-trans (send_to_worker-Keeps b (deref b p).identity r.client_id r.body)
        (drain-Keeps rs ps _)

-- ===== src/Hub/Resent.antt =====
-- internal/hub/worker_service.go with device_manager.go: a command that reaches the hub twice.
use lucas.Base.{
  sym, ◌∙◌, true, false, String, List, none, some, ◌≡◌, ◌≢◌, ◌-◌, ◌≤◌, refl, arith, ◌==◌, ap, All,
  HasDistinctKeys,
}
use lucas.Hermes.Protocol.{Bytes, Json, ServiceRequest}
use lucas.Hermes.Message.{request, validate_message}
use lucas.Hermes.Wire.{Wire}
use lucas.Hub.Codec.{Codec, decoded, response_json}
use lucas.Hub.Device.{ActionResponse}
use lucas.Hub.Lru.{Lru, IsLru}
use lucas.Hub.Nonce.{validate_nonce}
use lucas.Hub.NonceCache.{NonceResponse, check_nonce}
use lucas.Hub.DeviceManager.{Devices, DeviceManager, process_device_action_with_nonce}
use lucas.Hub.Service.{
  Times, HubServiceHandler, done, handle, perform, dispatch, handle_execute_action, execute_command,
  respond,
}
use lucas.Hub.Once.{Turn, Spares, take_turns, process_device_action_with_nonce-again}

-- The bytes are a valid request to execute an action on a device.
pub record IsExecute (codec : Codec) (bytes : Bytes) (req : ServiceRequest) (d : String)
    (action : Bytes) : Type 0 where
  pub decodes : codec.decode_request bytes ≡ some req
  pub valid : validate_message (request req) ≡ none
  pub executes : req.action ≡ "execute"
  pub command : codec.decode_command req.payload ≡ decoded (d, action)
  pub named : d ≢ ""

module _ (l : Lru NonceResponse) (ds : Devices) (codec : Codec) (w : Wire) where
  pub handle-execute :
      (t : Times) (h : HubServiceHandler l ds) (bytes : Bytes) (req : ServiceRequest) (d : String)
      (action : Bytes)
      → IsExecute codec bytes req d action
      → req.nonce ≢ ""
      → let o = handle l ds codec w t h bytes in
        let p =
          process_device_action_with_nonce l ds t.looked t.stored h.device_mgr d req.nonce action in
        (o.0 ≡ done (w.encode_response (respond req true (response_json p.0) none)))
        × (o.1.device_mgr ≡ p.1)
  unfolding handle handle_execute_action execute_command
  handle-execute t h bytes req d action e full =
      let named : (d == "") ≡ false = ground (arith, e.named) in
      let some_nonce : (req.nonce == "") ≡ false = ground (arith, full) in
      let execute : (req.action == "execute") ≡ true = ground (arith, e.executes) in
      rw
        (
          e.decodes, e.valid, handle, execute, dispatch, perform, e.command, handle_execute_action,
          named, some_nonce,
        )
        (refl, refl)

  valid→ne-nil : (n : String) → validate_nonce n ≡ true → n ≢ ""
  unfolding validate_nonce
  valid→ne-nil n h = ground arith

  abbrev pub meanwhile : HubServiceHandler l ds → List Turn → HubServiceHandler l ds
  meanwhile h ts = record h { device_mgr = take_turns l ds h.device_mgr ts }

  module _ (laws : IsLru l) (t again : Times) (h : HubServiceHandler l ds) (bytes bytes' : Bytes)
      (req req' : ServiceRequest) (d : String) (action action' : Bytes) where
    -- Two valid requests to execute carry one valid nonce and name one device, and the nonce has no
    -- answer yet when the first comes. Whatever the device manager does between them within the
    -- expiration, but for reloading its configuration, shutting down, clearing the device or acting
    -- on it under another nonce: the second
    -- request, which comes at most the expiration after the first was stored, gets the same content,
    -- under its own id, and no device is given anything.
    pub handle-again :
        (ts : List Turn)
        → IsExecute codec bytes req d action
        → IsExecute codec bytes' req' d action'
        → req'.nonce ≡ req.nonce
        → validate_nonce req.nonce ≡ true
        → (check_nonce l t.looked h.device_mgr.nonce_cache d req.nonce).0 ≡ none
        → HasDistinctKeys h.device_mgr.nonce_cache.device_caches
        → All (Spares l ds d req.nonce t.stored h.device_mgr.nonce_cache.expiration) ts
        → again.looked - t.stored ≤ h.device_mgr.nonce_cache.expiration
        → let first = handle l ds codec w t h bytes in
          let later = meanwhile first.1 ts in
          let second = handle l ds codec w again later bytes' in
          (content : Json) × (first.0 ≡ done (w.encode_response (respond req true content none)))
          × (second.0 ≡ done (w.encode_response (respond req' true content none)))
          × (second.1.device_mgr.performed ≡ later.device_mgr.performed)
    handle-again ts e e' same valid miss distinct spared young =
        let full : req.nonce ≢ "" = valid→ne-nil req.nonce valid in
        let o =
          process_device_action_with_nonce l ds t.looked t.stored h.device_mgr d req.nonce action in
        let (r1, m1) = handle-execute t h bytes req d action e full in
        let first = handle l ds codec w t h bytes in
        let (r2, m2) =
          handle-execute again (meanwhile first.1 ts) bytes' req' d action' e' (rw same full) in
        let (r, p) =
          process_device_action_with_nonce-again l ds laws t.looked t.stored h.device_mgr d
            req.nonce again.looked again.stored action action' ts valid miss distinct spared
            young in
        let moved = ap (λ m. acted m req'.nonce) m1 ∙ ap (acted o.1) same in
        let sent = λ (a : ActionResponse).
          done (w.encode_response (respond req' true (response_json a) none)) in
        (
          response_json o.0,
          r1,
          r2 ∙ ap sent (ap (λ p. p.0) moved ∙ r),
          ap (λ m. m.performed) m2
              ∙ ap (λ p. p.1.performed) moved
              ∙ p
              ∙ sym (ap (λ m. (take_turns l ds m ts).performed) m1),
        )
      where
        acted : DeviceManager l ds → String → ActionResponse × DeviceManager l ds
        acted m n =
            process_device_action_with_nonce l ds again.looked again.stored (take_turns l ds m ts) d
              n action'

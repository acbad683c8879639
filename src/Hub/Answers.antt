-- ===== src/Hub/Answers.antt =====
-- internal/hub/worker_service.go: what the handler answers to any bytes, and what it counts.
use lucas.Base.{
  ap, ◌+◌, ◌-◌, false, [], ◌∷◌, ◌++◌, none, some, ◌≡◌, ◌≢◌, ◌⊎◌, inl, inr, refl, arith,
  if◌then◌else◌, Option-cases,
}
use lucas.Hermes.Protocol.{null, Bytes, ServiceRequest, ServiceResponse}
use lucas.Hermes.Message.{create_service_response_with_nonce, request, validate_message}
use lucas.Hermes.Wire.{Wire}
use lucas.Hub.Codec.{Codec}
use lucas.Hub.Lru.{Lru}
use lucas.Hub.NonceCache.{NonceResponse}
use lucas.Hub.DeviceManager.{Devices}
use lucas.Hub.Service.{
  service_error_text, count_processed, respond, Times, HubServiceHandler, Handled, done, failed,
  ServiceError, bad_request, unknown_action, handle, perform, record_error,
}
use lucas.Hub.Outcomes.{dispatch_lem}

module _ (l : Lru NonceResponse) (ds : Devices) (codec : Codec) (w : Wire) where
  abbrev Handler : Type 0
  Handler = HubServiceHandler l ds

  -- Why no response is sent.
  abbrev pub Refuses : Bytes → ServiceError → Type 0
  Refuses bytes e =
      ((e ≡ bad_request) × (codec.decode_request bytes ≡ none))
      ⊎ ((req : ServiceRequest) × (codec.decode_request bytes ≡ some req)
          × ((validate_message (request req) ≢ none)
              ⊎ ((e ≡ unknown_action req.action)
                  × (req.action ≢ "execute")
                  × (req.action ≢ "list")
                  × (req.action ≢ "status")
                  × (req.action ≢ "info"))))

  pub record IsRefused (h h' : Handler) (bytes : Bytes) (e : ServiceError) : Type 0 where
    pub reason : Refuses bytes e
    pub manager : h'.device_mgr ≡ h.device_mgr
    pub failures : h'.stats.requests_failed ≡ h.stats.requests_failed + 1
    pub latencies : h'.stats.latencies ≡ h.stats.latencies

  pub record IsResponse (t : Times) (h h' : Handler) (req : ServiceRequest) (r : ServiceResponse)
      : Type 0 where
    pub message_id : r.message_id ≡ req.message_id
    pub service : r.service ≡ req.service
    pub nonce : r.nonce ≡ req.nonce
    pub failures : h'.stats.requests_failed ≡ h.stats.requests_failed + (if r.success then 0 else 1)
    pub latencies : h'.stats.latencies ≡ h.stats.latencies ++ (t.ended - t.started) ∷ []

  abbrev pub IsAnswer : Times → Handler → Handler → Bytes → Handled Bytes → Type 0
  IsAnswer t h h' bytes (failed e) = IsRefused h h' bytes e
  IsAnswer t h h' bytes (done b) =
      (req : ServiceRequest) × (r : ServiceResponse) × (codec.decode_request bytes ≡ some req)
      × (validate_message (request req) ≡ none)
      × (b ≡ w.encode_response r)
      × IsResponse t h h' req r

  perform_lem :
      (t : Times) (h : Handler) (bytes : Bytes) (req : ServiceRequest)
      → codec.decode_request bytes ≡ some req
      → validate_message (request req) ≡ none
      → let o = perform l ds codec w t h req in
        (o.1.stats.requests_processed ≡ h.stats.requests_processed)
        × (o.1.stats.last_request ≡ h.stats.last_request)
        × (o.1.config ≡ h.config)
        × IsAnswer t h o.1 bytes o.0
  unfolding perform record_error create_service_response_with_nonce
  perform_lem t h bytes req de va = elim (dispatch_lem l ds codec t h req) [
    | inl (e, n0, n1, n2, n3) ↦
        rw (e, perform)
          (
            refl,
            refl,
            refl,
            record {
              reason = inr (req, de, inr (refl, n0, n1, n2, n3));
              manager = refl;
              failures = refl;
              latencies = refl;
            },
          )
    | inr (done r, h', e, o) ↦
        rw (e, perform)
          (
            ap (λ s. s.requests_processed) o.stats,
            ap (λ s. s.last_request) o.stats,
            o.config,
            (
              req,
              r,
              de,
              va,
              refl,
              record {
                message_id = o.responds.0;
                service = o.responds.1;
                nonce = o.responds.2;
                failures = ground (arith, o.stats, o.responds.3);
                latencies = ap (λ s. s.latencies ++ (t.ended - t.started) ∷ []) o.stats;
              },
            ),
          )
    | inr (failed e', h', e, o) ↦
        rw (e, perform)
          (
            ap (λ s. s.requests_processed) o.stats,
            ap (λ s. s.last_request) o.stats,
            o.config,
            (
              req,
              respond req false null (some (service_error_text e')),
              de,
              va,
              refl,
              record {
                message_id = refl;
                service = refl;
                nonce = refl;
                failures = ap (λ s. s.requests_failed + 1) o.stats;
                latencies = ap (λ s. s.latencies ++ (t.ended - t.started) ∷ []) o.stats;
              },
            ),
          )
  ]

  -- The count of requests is no part of it.
  IsAnswer-count_processed :
      (t : Times) (h h' : Handler) (bytes : Bytes) (r : Handled Bytes)
      → IsAnswer t (count_processed l ds t.started h) h' bytes r
      → IsAnswer t h h' bytes r
  IsAnswer-count_processed t h h' bytes (failed e) a = record {
    reason = a.reason;
    manager = a.manager;
    failures = a.failures;
    latencies = a.latencies;
  }
  IsAnswer-count_processed t h h' bytes (done b) (req, r, de, va, e, a) = (
    req,
    r,
    de,
    va,
    e,
    record {
      message_id = a.message_id;
      service = a.service;
      nonce = a.nonce;
      failures = a.failures;
      latencies = a.latencies;
    },
  )

  -- Any bytes are counted as one request. Without a response nothing is done and one failure is
  -- counted, because the bytes are no request, the request is not valid, or its action is not one
  -- of the four. A response goes to a valid request and has its id, its service and its nonce; a
  -- failure is counted exactly if the response is none of success, and the time taken is recorded.
  pub handle-IsAnswer :
      (t : Times) (h : Handler) (bytes : Bytes)
      → let o = handle l ds codec w t h bytes in
        (o.1.stats.requests_processed ≡ h.stats.requests_processed + 1)
        × (o.1.stats.last_request ≡ t.started)
        × (o.1.config ≡ h.config)
        × IsAnswer t h o.1 bytes o.0
  unfolding handle record_error
  handle-IsAnswer t h bytes = elim (Option-cases (codec.decode_request bytes)) [
    | inl e ↦
        rw (e, handle)
          (
            refl,
            refl,
            refl,
            record { reason = inl (refl, e); manager = refl; failures = refl; latencies = refl },
          )
    | inr (req, de) ↦ elim (Option-cases (validate_message (request req))) [
      | inl va ↦
          let counted = count_processed l ds t.started h in
          let (processed, last, config, answer) = perform_lem t counted bytes req de va in
          rw (de, va, handle)
            (processed, last, config, IsAnswer-count_processed t h _ bytes _ answer)
      | inr (e, va) ↦
          rw (de, va, handle)
            (
              refl,
              refl,
              refl,
              record {
                reason = inr (req, de, inl (λ n. cc));
                manager = refl;
                failures = refl;
                latencies = refl;
              },
            )
    ]
  ]

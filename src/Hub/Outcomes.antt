-- ===== src/Hub/Outcomes.antt =====
-- internal/hub/worker_service.go: what each action answers and leaves behind it.
use lucas.Base.{Bool-cases, true, String, none, some, ◌≡◌, ◌≢◌, ◌⊎◌, inl, inr, refl, arith, ◌==◌}
use lucas.Hermes.Protocol.{Bytes, ServiceRequest, ServiceResponse}
use lucas.Hermes.Message.{create_service_response_with_nonce}
use lucas.Hub.Codec.{Codec}
use lucas.Hub.Lru.{Lru}
use lucas.Hub.NonceCache.{NonceResponse}
use lucas.Hub.DeviceManager.{Devices}
use lucas.Hub.Service.{
  Times, HubServiceHandler, Handled, done, failed, dispatch, handle_execute_action,
  handle_list_action, handle_status_action, handle_info_action, execute_command,
}

module _ (l : Lru NonceResponse) (ds : Devices) (codec : Codec) where
  abbrev pub Handler : Type 0
  Handler = HubServiceHandler l ds

  abbrev pub Responds : ServiceRequest → Handled ServiceResponse → Type 0
  Responds req (done r) =
      (r.message_id ≡ req.message_id)
      × (r.service ≡ req.service)
      × (r.nonce ≡ req.nonce)
      × (r.success ≡ true)
  Responds req (failed e) = Unit

  -- What an action leaves behind it: the counts and the configuration; its response is a success.
  pub record IsOutcome (h h' : Handler) (req : ServiceRequest) (r : Handled ServiceResponse)
      : Type 0 where
    pub stats : h'.stats ≡ h.stats
    pub config : h'.config ≡ h.config
    pub responds : Responds req r

  execute_command-IsOutcome :
      (t : Times) (h : Handler) (req : ServiceRequest) (d : String) (action : Bytes)
      → let o = execute_command l ds codec t h req d action in IsOutcome h o.1 req o.0
  unfolding execute_command create_service_response_with_nonce
  execute_command-IsOutcome t h req d action = elim (Bool-cases (req.nonce == "")) [
    | inl e ↦
        rw (e, execute_command)
          (record { stats = refl; config = refl; responds = (refl, refl, refl, refl) })
    | inr e ↦
        rw (e, execute_command)
          (record { stats = refl; config = refl; responds = (refl, refl, refl, refl) })
  ]

  handle_execute_action-IsOutcome :
      (t : Times) (h : Handler) (req : ServiceRequest)
      → let o = handle_execute_action l ds codec t h req in IsOutcome h o.1 req o.0
  unfolding handle_execute_action
  handle_execute_action-IsOutcome t h req = grind (arith, execute_command-IsOutcome)

  handle_list_action-IsOutcome :
      (h : Handler) (req : ServiceRequest)
      → let o = handle_list_action l ds codec h req in IsOutcome h o.1 req o.0
  unfolding handle_list_action create_service_response_with_nonce
  handle_list_action-IsOutcome h req = ground arith

  handle_status_action-IsOutcome :
      (h : Handler) (req : ServiceRequest)
      → let o = handle_status_action l ds codec h req in IsOutcome h o.1 req o.0
  unfolding handle_status_action create_service_response_with_nonce
  handle_status_action-IsOutcome h req = ground arith

  handle_info_action-IsOutcome :
      (h : Handler) (req : ServiceRequest)
      → let o = handle_info_action l ds codec h req in IsOutcome h o.1 req o.0
  unfolding handle_info_action create_service_response_with_nonce
  handle_info_action-IsOutcome h req = ground arith

  -- The four actions, and the others.
  pub dispatch_lem :
      (t : Times) (h : Handler) (req : ServiceRequest)
      → ((dispatch l ds codec t h req ≡ none)
          × (req.action ≢ "execute")
          × (req.action ≢ "list")
          × (req.action ≢ "status")
          × (req.action ≢ "info"))
        ⊎ ((r : Handled ServiceResponse) × (h' : Handler) × (dispatch l ds codec t h req
              ≡ some (r, h'))
            × IsOutcome h h' req r)
  unfolding dispatch
  dispatch_lem t h req = elim (Bool-cases (req.action == "execute")) [
    | inl e ↦
        let o = handle_execute_action l ds codec t h req in
        inr (o.0, o.1, rw (e, dispatch), handle_execute_action-IsOutcome t h req)
    | inr e ↦ elim (Bool-cases (req.action == "list")) [
      | inl e' ↦
          let o = handle_list_action l ds codec h req in
          inr (o.0, o.1, rw (e, e', dispatch), handle_list_action-IsOutcome h req)
      | inr e' ↦ elim (Bool-cases (req.action == "status")) [
        | inl e2 ↦
            let o = handle_status_action l ds codec h req in
            inr (o.0, o.1, rw (e, e', e2, dispatch), handle_status_action-IsOutcome h req)
        | inr e2 ↦ elim (Bool-cases (req.action == "info")) [
          | inl e3 ↦
              let o = handle_info_action l ds codec h req in
              inr (o.0, o.1, rw (e, e', e2, e3, dispatch), handle_info_action-IsOutcome h req)
          | inr e3 ↦
              inl (
                rw (e, e', e2, e3, dispatch),
                ground arith,
                ground arith,
                ground arith,
                ground arith,
              )
        ]
      ]
    ]
  ]

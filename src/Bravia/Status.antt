-- ===== src/Bravia/Status.antt =====
-- internal/bravia: how the status of the television's answer decides the response to an action.
use lucas.Base.{
  ◌==◌, str_dec, ap, sym, Map, ◌∙◌, ℕ, true, false, String, List, Option, none, some, ◌≡◌, ◌↔◌,
  refl, arith, lookup, Option-cases, inl, inr,
}
use lucas.Hermes.Protocol.{Bytes}
use lucas.Bravia.Codes.{remote_action_map, control_action_map, ControlActionInfo}
use lucas.Bravia.World.{
  BraviaPayload, World, Fallible, good, bad, ActionRequest, HttpResult, responded, unreachable,
}
use lucas.Bravia.Client.{
  create_payload, BraviaClient, remote_request, remote_error, control_request, post_control,
  ircc_request,
}
use lucas.Bravia.Remote.{
  control_response, BraviaRemote, process, route_action, process_remote_action,
  process_control_action, control_with, parse_action_request,
}

abbrev pub with_status : ℕ → HttpResult → HttpResult
with_status s (responded status body) = responded s body
with_status s (unreachable e) = unreachable e

-- The world in which the television answers with that status throughout.
abbrev pub answering_with : ℕ → World → World
answering_with s w = record w { perform = λ n req. with_status s (w.perform n req) }

module _ (w : World) (n : ℕ) (br : BraviaRemote) (action : Bytes) (request : ActionRequest) where
  not_remote : request.kind ≡ "control" → (request.kind == "remote") ≡ false
  unfolding str_dec
  not_remote control = rw control refl

  process-control :
      parse_action_request w action ≡ good request
      → request.kind ≡ "control"
      → process w n br action ≡ process_control_action w n br request
  unfolding process route_action
  process-control parsed control = ground (arith, parsed, control, not_remote control)

  process-remote :
      parse_action_request w action ≡ good request
      → request.kind ≡ "remote"
      → process w n br action ≡ process_remote_action w n br request
  unfolding process route_action
  process-remote parsed remote = ground (arith, parsed, remote)

module _ (w : World) (n : ℕ) (br : BraviaRemote) where
  module _ (s : ℕ) where
    control_request-answering_with :
        (c : BraviaClient) (endpoint : String) (payload : BraviaPayload)
        → control_request (answering_with s w) n c endpoint payload
          ≡ control_request w n c endpoint payload
    unfolding control_request post_control
    control_request-answering_with c endpoint payload = ground arith

    control_with-answering_with :
        (info : ControlActionInfo) (built : Fallible (List (Map String)))
        → control_with (answering_with s w) n br info built ≡ control_with w n br info built
    unfolding control_with
    control_with-answering_with info (bad e) = refl
    control_with-answering_with info (good params) =
        ap (λ o. (control_response w o.0, o.1))
          (control_request-answering_with br.client info.endpoint
            (create_payload 1 info.method params))

    process_control_action-answering_with :
        (request : ActionRequest)
        → process_control_action (answering_with s w) n br request
          ≡ process_control_action w n br request
    unfolding process_control_action
    process_control_action-answering_with request =
        elim (Option-cases (lookup request.action control_action_map)) [
          | inl e ↦ rw (e, process_control_action)
          | inr (info, e) ↦ rw (e, process_control_action) (control_with-answering_with info _)
        ]

    -- A control action that parses has the same response and sends the same requests whatever status
    -- the television answers with: an error that only the status tells of makes no difference.
    pub process-answering_with :
        (action : Bytes) (request : ActionRequest)
        → parse_action_request w action ≡ good request
        → request.kind ≡ "control"
        → process (answering_with s w) n br action ≡ process w n br action
    unfolding parse_action_request
    process-answering_with action request parsed control =
        process-control (answering_with s w) n br action request parsed control
        ∙ process_control_action-answering_with request
        ∙ sym (process-control w n br action request parsed control)

  remote_error_iff :
      (r : HttpResult)
      → (remote_error r ≡ none) ↔ ((body : Fallible String) × (r ≡ responded 200 body))
  unfolding remote_error
  remote_error_iff (unreachable e) = ((λ h. absurd (some_ne h)), λ h. absurd (away h.1))
    where
      some_ne : {t : String} → ¬ (some t ≡ none)
      some_ne q = cc

      away : {b : Fallible String} → ¬ (unreachable e ≡ responded 200 b)
      away q = cc
  remote_error_iff (responded status body) =
      (λ h. (body, ground (arith, h)), λ h. ground (arith, h.1))

  -- What a request for a key comes to.
  remote_request_iff :
      (code : String)
      → br.client.test_mode ≡ false
      → ((remote_request w n br.client code).0 ≡ none) ↔ (
          (w.new_request (ircc_request br.client code).url ≡ none)
          × (body : Fallible String) × (w.perform n (ircc_request br.client code)
              ≡ responded 200 body))
  unfolding remote_request
  remote_request_iff code live =
      elim (Option-cases (w.new_request (ircc_request br.client code).url)) [
        | inl e ↦
            let (to, from) = remote_error_iff (w.perform n (ircc_request br.client code)) in
            (
              (λ h. let (body, q) = to (ground (arith, h, live, e)) in (e, body, q)),
              (λ (_, body, q). ground (arith, live, e, from (body, q))),
            )
        | inr (e, q) ↦ ((λ h. ground (arith, h, live, q)), (λ h. ground (arith, h.0, q)))
      ]

  process_remote_action-success :
      (request : ActionRequest) (code : String)
      → lookup request.action remote_action_map ≡ some code
      → ((process_remote_action w n br request).0.success ≡ true)
        ↔ ((remote_request w n br.client code).0 ≡ none)
  unfolding process_remote_action
  process_remote_action-success request code e =
      ((λ h. ground (arith, h, e)), (λ h. ground (arith, h, e)))

  unknown-fails :
      (request : ActionRequest)
      → lookup request.action remote_action_map ≡ none
      → ¬ ((process_remote_action w n br request).0.success ≡ true)
  unfolding process_remote_action
  unknown-fails request e h = ground (arith, e, h)

  -- A remote action that parses, of a television that is not in test mode, succeeds exactly if the
  -- action is known, the television's URL is valid and the television answers with status 200.
  pub process-succeeds_iff :
      (action : Bytes) (request : ActionRequest)
      → br.client.test_mode ≡ false
      → parse_action_request w action ≡ good request
      → request.kind ≡ "remote"
      → ((process w n br action).0.success ≡ true) ↔ (
          (code : String) × (lookup request.action remote_action_map ≡ some code)
          × (w.new_request (ircc_request br.client code).url ≡ none)
          × (body : Fallible String) × (w.perform n (ircc_request br.client code)
              ≡ responded 200 body))
  process-succeeds_iff action request live parsed remote =
      rw (process-remote w n br action request parsed remote)
        (elim (Option-cases (lookup request.action remote_action_map)) [
          | inl e ↦ (
            (λ h. absurd (unknown-fails request e h)),
            (λ (code, known, url, body, q). absurd (some_ne e known)),
          )
          | inr (code, e) ↦
              let (succeeded, success) = process_remote_action-success request code e in
              let (to, from) = remote_request_iff code live in
              (
                (λ h. let (url, body, q) = to (succeeded h) in (code, e, url, body, q)),
                (λ (key, known, url, body, q).
                    (process_remote_action-success request key known).1
                      ((remote_request_iff key live).1 (url, body, q))),
              )
        ])
    where
      some_ne : {code : String} {o : Option String} → o ≡ none → ¬ (o ≡ some code)
      some_ne e known = cc

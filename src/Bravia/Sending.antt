-- ===== src/Bravia/Sending.antt =====
-- internal/bravia: what an action sends to the television.
use lucas.Base.{
  ◌⊎◌, ◌∙◌, Map, str_dec, sym, ◌==◌, inr, inl, Bool-cases, ℕ, ◌≤◌, true, false, String, List, [],
  ◌∷◌, some, ◌≡◌, refl, arith, All, All-lookup, lookup, contains, length, Option-cases,
}
use lucas.Hermes.Protocol.{Bytes}
use lucas.Hub.Device.{failed_with}
use lucas.Bravia.Codes.{remote_action_map, ControlActionInfo, control_action_map, ircc_endpoint}
use lucas.Bravia.World.{World, Fallible, good, bad, ActionRequest, BraviaPayload, HttpRequest}
use lucas.Bravia.Client.{
  control_post, ircc_request, BraviaClient, remote_request, control_request, post_control, ◌⊕◌,
}
use lucas.Bravia.Remote.{
  BraviaRemote, Responded, process, route_action, process_remote_action, process_control_action,
  control_with, parse_action_request,
}

abbrev pub endpoints : List String
endpoints =
    ircc_endpoint ∷ "/sony/system" ∷ "/sony/audio" ∷ "/sony/avContent" ∷ "/sony/appControl" ∷ []

-- The request goes to the television, to one of the endpoints, with its credential.
pub record IsFor (c : BraviaClient) (req : HttpRequest) : Type 0 where
  pub endpoint : String
  pub known : contains endpoint endpoints ≡ true
  pub to : req.url ≡ "http://" ⊕ c.address ⊕ endpoint
  pub with_key : lookup "X-Auth-PSK" req.headers ≡ some c.credential

abbrev pub IsSendingOf : BraviaClient → List HttpRequest → Type 0
IsSendingOf c sent = (length sent ≤ 1) × All (IsFor c) sent × (c.test_mode ≡ true → sent ≡ [])

control_action_map-known : All (λ e. contains e.1.endpoint endpoints ≡ true) control_action_map
unfolding control_action_map contains
control_action_map-known = ground arith

ircc_request-IsFor : (c : BraviaClient) (code : String) → IsFor c (ircc_request c code)
unfolding contains lookup str_dec
ircc_request-IsFor c code = record {
  endpoint = ircc_endpoint;
  known = refl;
  to = refl;
  with_key = refl;
}

control_post-IsFor :
    (c : BraviaClient) (endpoint json : String)
    → contains endpoint endpoints ≡ true
    → IsFor c (control_post c endpoint json)
unfolding lookup str_dec
control_post-IsFor c endpoint json known = record {
  endpoint = endpoint;
  known = known;
  to = refl;
  with_key = refl;
}

none_sent : (c : BraviaClient) → IsSendingOf c []
none_sent c = (omega arith, tt, λ _. refl)

one_sent :
    (c : BraviaClient) (req : HttpRequest)
    → c.test_mode ≡ false
    → IsFor c req
    → IsSendingOf c (req ∷ [])
one_sent c req f p = (omega arith, (p, tt), λ t. absurd (true_ne (sym f ∙ t)))
  where
    true_ne : ¬ (false ≡ true)
    true_ne e = cc

module _ (w : World) (n : ℕ) where
  module _ (c : BraviaClient) where
    remote_request-cases :
        (code : String)
        → let sent = (remote_request w n c code).1 in
          (sent ≡ []) ⊎ ((sent ≡ ircc_request c code ∷ []) × (c.test_mode ≡ false))
    unfolding remote_request
    remote_request-cases code = elim (Bool-cases c.test_mode) [
      | inl t ↦ inl (ground arith)
      | inr f ↦ elim (Option-cases (w.new_request (ircc_request c code).url)) [
        | inl e ↦ inr (ground arith, f)
        | inr (e, q) ↦ inl (ground arith)
      ]
    ]

    remote_request-IsSendingOf : (code : String) → IsSendingOf c (remote_request w n c code).1
    remote_request-IsSendingOf code = elim (remote_request-cases code) [
      | inl e ↦ rw e (none_sent c)
      | inr (e, f) ↦ rw e (one_sent c _ f (ircc_request-IsFor c code))
    ]

    control_request-cases :
        (endpoint : String) (payload : BraviaPayload)
        → let sent = (control_request w n c endpoint payload).1 in
          (sent ≡ [])
          ⊎ ((json : String) × (sent ≡ control_post c endpoint json ∷ []) × (c.test_mode ≡ false))
    unfolding control_request post_control
    control_request-cases endpoint payload = elim (Bool-cases c.test_mode) [
      | inl t ↦ inl (ground arith)
      | inr f ↦ encoded f (w.encode_payload payload) refl
    ]
      where
        encoded :
            c.test_mode ≡ false
            → (r : Fallible String) → w.encode_payload payload ≡ r
            → let sent = (control_request w n c endpoint payload).1 in
              (sent ≡ [])
              ⊎ ((json : String) × (sent ≡ control_post c endpoint json ∷ [])
                  × (c.test_mode ≡ false))
        encoded f (bad e) q = inl (ground arith)
        encoded f (good json) q =
            elim (Option-cases (w.new_request (control_post c endpoint json).url)) [
              | inl e ↦ inr (json, ground arith, f)
              | inr (e, u) ↦ inl (ground arith)
            ]

    control_request-IsSendingOf :
        (endpoint : String) (payload : BraviaPayload)
        → contains endpoint endpoints ≡ true
        → IsSendingOf c (control_request w n c endpoint payload).1
    control_request-IsSendingOf endpoint payload known =
        elim (control_request-cases endpoint payload) [
          | inl e ↦ rw e (none_sent c)
          | inr (json, e, f) ↦ rw e (one_sent c _ f (control_post-IsFor c endpoint json known))
        ]

  module _ (br : BraviaRemote) where
    control_with-IsSendingOf :
        (info : ControlActionInfo) (built : Fallible (List (Map String)))
        → contains info.endpoint endpoints ≡ true
        → IsSendingOf br.client (control_with w n br info built).1
    unfolding control_with
    control_with-IsSendingOf info (bad e) known = none_sent br.client
    control_with-IsSendingOf info (good params) known =
        control_request-IsSendingOf br.client info.endpoint _ known

    route_action-IsSendingOf :
        (request : ActionRequest) → IsSendingOf br.client (route_action w n br request).1
    unfolding route_action process_remote_action process_control_action
    route_action-IsSendingOf request = elim (Bool-cases (request.kind == "remote")) [
      | inl r ↦ elim (Option-cases (lookup request.action remote_action_map)) [
        | inl e ↦ rw (r, e, process_remote_action) (none_sent br.client)
        | inr (code, e) ↦
            rw (r, e, process_remote_action) (remote_request-IsSendingOf br.client code)
      ]
      | inr not_r ↦ elim (Bool-cases (request.kind == "control")) [
        | inr other ↦ rw (not_r, other) (none_sent br.client)
        | inl c ↦ elim (Option-cases (lookup request.action control_action_map)) [
          | inl e ↦ rw (not_r, c, e, process_control_action) (none_sent br.client)
          | inr (info, e) ↦
              rw (not_r, c, e, process_control_action)
                (control_with-IsSendingOf info _ (
                  All-lookup (λ e. contains e.1.endpoint endpoints ≡ true) request.action
                    control_action_map e control_action_map-known))
        ]
      ]
    ]

    -- Whatever an action is and whatever the HTTP client gives, at most one request is handed to it:
    -- a request to one of the television's endpoints that carries its credential, and none in test
    -- mode. What the HTTP client sends by itself, to follow a redirect, is not among these.
    pub process-IsSendingOf : (action : Bytes) → IsSendingOf br.client (process w n br action).1
    unfolding process
    process-IsSendingOf action = parsed (parse_action_request w action)
      where
        parsed :
            (r : Fallible ActionRequest)
            → IsSendingOf br.client
                (elim r as (λ _. Responded) [
                  | bad e ↦ (failed_with e, [])
                  | good request ↦ route_action w n br request
                ]).1
        parsed (bad e) = none_sent br.client
        parsed (good request) = route_action-IsSendingOf request

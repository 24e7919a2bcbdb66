-- ===== src/Broker/Requests/Integration.antt =====
-- Every request that an integration makes is one that its policy permits.
use strange_claw.Prelude.{ℕ, ◌≡◌, refl, ◌∙◌, ap, Bool, true, false, Option, none, some, inl}
use strange_claw.Text.{Text}
use strange_claw.Assoc.{Assoc, Headers, lookup}
use strange_claw.Value.{Dict}
use strange_claw.Python.{Platform, returned}
use strange_claw.Broker.Policy.{Policy}
use strange_claw.Broker.Host.{Host, Exec, consume_rate_limit, trace-consume_rate_limit}
use strange_claw.Broker.Host.Triple.{
  Triple, Triple-pure, Triple-lift, Triple-if, Triple-bind, Triple-weaken, Triple_of_state,
}
use strange_claw.Broker.Validate.{inject, validate_or_deny}
use strange_claw.Broker.Validate.Laws.{Permits, Permits-with_method, validate_or_deny_lem}
use strange_claw.Broker.Redirect.{execute_with_redirects, max_redirect_hops}
use strange_claw.Broker.Redirect.Follow.{follow-Triple}
use strange_claw.Broker.Requests.{
  execute_policy_request, policy_redirect_guard, unless_denied, within_limit, rate_limited,
}
use strange_claw.Broker.Requests.Sends.{one_request-Triple}
use strange_claw.Broker.Safety.{Safe, Justified}

module _ {W : Type 0} (py : Platform W) (policies : Assoc Policy) (integration : Text) (p : Policy)
    (configured : lookup integration policies ≡ some p) (model_headers : Headers) where
  abbrev Ready : Text → Text → Host W → Type 0
  Ready method url h = Permits py p method url model_headers × Safe py policies h

  justify :
      (method url : Text) (body : Option Text) (h : Host W)
      → Ready method url h
      → Justified py policies
          (record { method = method; url = url; headers = inject p model_headers; body = body })
          h.trace
        × Safe py policies h
  justify method url body h (permitted, safe) = (
    inl (record {
      integration = integration;
      policy = p;
      configured = configured;
      model_headers = model_headers;
      permitted = permitted;
      headers_eq = refl;
    }),
    safe,
  )

  guard-Triple :
      (name method url first : Text)
      → Permits py p method first model_headers
      → Triple
          (Safe py policies)
          (policy_redirect_guard py p name model_headers url method)
          (λ d h. Safe py policies h × (d ≡ none → Ready method url h))
          (Safe py policies)
  unfolding policy_redirect_guard
  guard-Triple name method url first already =
      Triple-lift _
        (λ d h e safe. (
          safe,
          λ passed. (
            Permits-with_method py p method (py.upper method) url first model_headers already (
                (validate_or_deny_lem py p name method url model_headers).0
                  (e ∙ ap returned passed)),
            safe,
          ),
        ))
        (λ h safe. safe)

  redirects-Triple :
      (name method url : Text) (body : Option Text) (max_bytes : ℕ) (decode_utf8 : Bool)
      → Triple
          (Ready (py.upper method) url)
          (execute_with_redirects py method url
            (inject p model_headers)
            body
            max_bytes
            decode_utf8
            (policy_redirect_guard py p name model_headers))
          (λ _. Safe py policies)
          (Safe py policies)
  unfolding execute_with_redirects
  redirects-Triple name method url body max_bytes decode_utf8 = record {
    at = λ h ready.
        (follow-Triple py (py.upper method) url (inject p model_headers) body max_bytes decode_utf8
            (policy_redirect_guard py p name model_headers) (Safe py policies)
            (Ready (py.upper method))
            (λ u.
              Triple-weaken _
                (one_request-Triple py policies (py.upper method) url (inject p model_headers) body
                  max_bytes decode_utf8 (policy_redirect_guard py p name model_headers) u)
                (justify (py.upper method) u body) (λ a h' safe. safe))
            (λ u. guard-Triple name (py.upper method) u url ready.0) max_redirect_hops url).at
          h ready;
  }

  within_limit-Triple :
      (method url : Text) (key : Option Text)
      → Triple (Ready method url) (within_limit py key) (λ _. Ready method url) (Safe py policies)
  unfolding within_limit
  within_limit-Triple method url none = Triple-pure true (λ h k. k)
  within_limit-Triple method url (some key) =
      Triple_of_state _ _ _ (λ h k. k.1) (consume_rate_limit py key)
        λ h k. (k.0, rw (trace-consume_rate_limit py key h) k.1)

  after_validation :
      (name method url : Text) (body key : Option Text) (d : Option Dict) (next : Exec W Dict)
      → Triple (Ready (py.upper method) url) next (λ _. Safe py policies) (Safe py policies)
      → Triple
          (λ h. Safe py policies h × (d ≡ none → Ready (py.upper method) url h))
          (unless_denied d next)
          (λ _. Safe py policies)
          (Safe py policies)
  unfolding unless_denied
  after_validation name method url body key none next t =
      Triple-weaken next t (λ h k. k.1 refl) (λ a h k. k)
  after_validation name method url body key (some denial) next t = Triple-pure denial (λ h k. k.0)

  -- A request of an integration keeps the trace safe, whatever comes back from the network.
  pub execute_policy_request-Safe :
      (name method url : Text) (body key : Option Text)
      → Triple
          (Safe py policies)
          (execute_policy_request py p name method url model_headers body key)
          (λ _. Safe py policies)
          (Safe py policies)
  unfolding execute_policy_request
  execute_policy_request-Safe name method url body key =
      Triple-bind _ _
        (Triple-lift (validate_or_deny py p name method url model_headers)
          (λ d h e safe. (
            safe,
            λ passed. (
              (validate_or_deny_lem py p name method url model_headers).0 (e ∙ ap returned passed),
              safe,
            ),
          ))
          (λ h safe. safe))
        λ d. after_validation name method url body key d _ (
          Triple-bind _ _ (within_limit-Triple (py.upper method) url key) λ granted.
            Triple-if granted _ _
              (λ _. redirects-Triple name method url body p.max_response_bytes false)
              (λ _. Triple-pure (rate_limited name) (λ h k. k.1)))

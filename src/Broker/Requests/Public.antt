-- ===== src/Broker/Requests/Public.antt =====
-- Every public request goes to a public target and carries no credential.
use strange_claw.Prelude.{
  ℕ, ◌≡◌, refl, ◌∙◌, ap, Bool, true, false, Option, none, some, List, [], ◌∷◌, inr,
}
use strange_claw.Text.{Text, codes, text_eq}
use strange_claw.Assoc.{Assoc, Headers, update}
use strange_claw.Value.{Dict}
use strange_claw.Python.{Platform, returned}
use strange_claw.Broker.Policy.{Policy}
use strange_claw.Broker.Host.{Host, Exec}
use strange_claw.Broker.Host.Triple.{Triple, Triple-pure, Triple-lift, Triple-bind, Triple-weaken}
use strange_claw.Broker.Validate.{inject}
use strange_claw.Broker.Validate.Laws.{NoneProtected, validate_or_deny_lem}
use strange_claw.Broker.Config.{public_policy}
use strange_claw.Broker.Public.Laws.{ssrf_or_deny-Triple}
use strange_claw.Broker.Redirect.{execute_with_redirects, max_redirect_hops}
use strange_claw.Broker.Redirect.Follow.{follow-Triple}
use strange_claw.Broker.Requests.{
  execute_public_request, public_redirect_guard, unless_denied, unless_guarded, validation, ssrf,
}
use strange_claw.Broker.Requests.Sends.{one_request-Triple}
use strange_claw.Broker.Safety.{Safe, Justified, IsPublicTarget}

module _ {W : Type 0} (py : Platform W) (policies : Assoc Policy) (methods : List Text) (size : ℕ)
    (model_headers : Headers) where
  abbrev policy : Policy
  policy = public_policy methods size

  abbrev Unauthorized : Type 0
  Unauthorized = NoneProtected py.lower (codes "Authorization" ∷ []) model_headers

  abbrev Ready : Text → Host W → Type 0
  Ready url h = IsPublicTarget py url h.trace × Safe py policies h

  inject-public : inject policy model_headers ≡ update [] model_headers
  unfolding inject text_eq update
  inject-public = refl

  justify :
      (method url : Text) (body : Option Text) (h : Host W)
      → Unauthorized
      → Ready url h
      → Justified py policies
          (record {
            method = method;
            url = url;
            headers = inject policy model_headers;
            body = body;
          })
          h.trace
        × Safe py policies h
  justify method url body h free (target, safe) = (
    inr (record {
      target = target;
      model_headers = model_headers;
      headers_eq = inject-public;
      unauthorized = free;
    }),
    safe,
  )

  validation-Triple :
      (enforce : Bool) (name method url : Text)
      → (enforce ≡ false → Unauthorized)
      → Triple
          (Safe py policies)
          (validation py enforce policy name method url model_headers)
          (λ d h. Safe py policies h × (d ≡ none → Unauthorized))
          (Safe py policies)
  unfolding validation
  validation-Triple true name method url free =
      Triple-lift _
        (λ d h e safe. (
          safe,
          λ passed.
              let permitted =
                (validate_or_deny_lem py policy name method url model_headers).0
                  (e ∙ ap returned passed) in
              permitted.none_protected,
        ))
        (λ h safe. safe)
  validation-Triple false name method url free =
      Triple-pure none (λ h safe. (safe, λ passed. free refl))

  after_validation :
      (name method url : Text) (d : Option Dict)
      → Triple
          (Safe py policies)
          (unless_guarded d (ssrf py true name method url))
          (λ d' h. Safe py policies h × (d' ≡ none → Ready url h))
          (Safe py policies)
  unfolding unless_guarded ssrf
  after_validation name method url none =
      Triple-weaken _ (ssrf_or_deny-Triple py policies name method url) (λ h safe. safe)
        (λ d h known. (known.0, λ passed. (known.1 passed, known.0)))
  after_validation name method url (some denial) =
      Triple-pure (some denial) (λ h safe. (safe, λ passed. absurd (cc)))

  guard-Triple :
      (name url method : Text) (enforce : Bool)
      → (enforce ≡ false → Unauthorized)
      → Triple
          (Safe py policies)
          (public_redirect_guard py policy name model_headers enforce true url method)
          (λ d h. Safe py policies h × (d ≡ none → Ready url h))
          (Safe py policies)
  unfolding public_redirect_guard
  guard-Triple name url method enforce free =
      Triple-bind {Q = λ d h. Safe py policies h} _ _
        (Triple-weaken _ (validation-Triple enforce name method url free) (λ h safe. safe)
          (λ d h known. known.0))
        λ d. after_validation name method url d

  redirects-Triple :
      (name method url : Text) (body : Option Text) (max_bytes : ℕ) (decode_utf8 enforce : Bool)
      → Unauthorized
      → Triple
          (Ready url)
          (execute_with_redirects py method url
            (inject policy model_headers)
            body
            max_bytes
            decode_utf8
            (public_redirect_guard py policy name model_headers enforce true))
          (λ _. Safe py policies)
          (Safe py policies)
  unfolding execute_with_redirects
  redirects-Triple name method url body max_bytes decode_utf8 enforce free =
      follow-Triple py (py.upper method) url (inject policy model_headers) body max_bytes
        decode_utf8 (public_redirect_guard py policy name model_headers enforce true)
        (Safe py policies) Ready
        (λ u.
          Triple-weaken _
            (one_request-Triple py policies (py.upper method) url (inject policy model_headers) body
              max_bytes decode_utf8
              (public_redirect_guard py policy name model_headers enforce true) u)
            (λ h. justify (py.upper method) u body h free) (λ a h safe. safe))
        (λ u. guard-Triple name u (py.upper method) enforce (λ _. free)) max_redirect_hops url

  unless_denied-Triple :
      (d : Option Dict) (next : Exec W Dict) (P : Host W → Type 0)
      → Triple P next (λ _. Safe py policies) (Safe py policies)
      → Triple
          (λ h. Safe py policies h × (d ≡ none → P h))
          (unless_denied d next)
          (λ _. Safe py policies)
          (Safe py policies)
  unfolding unless_denied
  unless_denied-Triple none next P t = Triple-weaken next t (λ h k. k.1 refl) (λ a h k. k)
  unless_denied-Triple (some denial) next P t = Triple-pure denial (λ h k. k.0)

  -- A public request keeps the trace safe, if it checks addresses before the request and before each
  -- redirect, and its headers hold no authorization where they are not validated.
  pub execute_public_request-Safe :
      (name method url : Text) (body : Option Text) (max_bytes : ℕ) (enforce decode_utf8 : Bool)
      → (enforce ≡ false → Unauthorized)
      → Triple
          (Safe py policies)
          (execute_public_request py policy name method url model_headers body max_bytes (record {
            enforce_validation = enforce;
            enforce_initial_ssrf = true;
            enforce_redirect_ssrf = true;
            decode_utf8 = decode_utf8;
          }))
          (λ _. Safe py policies)
          (Safe py policies)
  unfolding execute_public_request ssrf
  execute_public_request-Safe name method url body max_bytes enforce decode_utf8 free =
      Triple-bind _ _ (validation-Triple enforce name method url free) λ d.
        Triple-weaken {P = λ h. Safe py policies h × (d ≡ none → Safe py policies h × Unauthorized)}
          _
          (unless_denied-Triple d _ (λ h. Safe py policies h × Unauthorized)
            (record {
              at = λ h k.
                  (Triple-bind _ _ (ssrf_or_deny-Triple py policies name method url) λ denial.
                      Triple-weaken _
                        (unless_denied-Triple denial _ (Ready url)
                          (redirects-Triple name method url body max_bytes decode_utf8 enforce k.1))
                        (λ h' known. (known.0, λ passed. (known.1 passed, known.0)))
                        (λ a h' safe. safe)).at
                    h k.0;
            }))
          (λ h k. (k.0, λ passed. (k.0, k.1 passed))) (λ a h safe. safe)

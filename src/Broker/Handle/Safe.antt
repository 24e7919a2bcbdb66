-- ===== src/Broker/Handle/Safe.antt =====
-- `handle` keeps the trace safe, whatever the payload and whatever the network answers.
use strange_claw.Prelude.{
  ℕ, ◌≡◌, refl, Bool, true, false, not, Option, none, some, List, [], ◌∷◌, inl, inr,
}
use strange_claw.Text.{Text, codes, text_eq}
use strange_claw.Assoc.{Headers, lookup}
use strange_claw.Value.{Value, boolean, Dict}
use strange_claw.Python.{Platform, Outcome, returned, raised}
use strange_claw.Broker.Policy.{Policy, field_or}
use strange_claw.Broker.Host.{Host, Exec, pure}
use strange_claw.Broker.Host.Triple.{Triple, Triple-pure, Triple-lift, Triple-if, Triple-bind, Post}
use strange_claw.Broker.Payload.{Parsed, HttpRequest}
use strange_claw.Broker.Config.{public_policy_config, public_policy, build_public_policy-eq, truth}
use strange_claw.Broker.Redirect.{is_failure}
use strange_claw.Broker.Requests.{execute_public_request}
use strange_claw.Broker.Validate.Laws.{NoneProtected}
use strange_claw.Broker.Requests.Integration.{execute_policy_request-Safe}
use strange_claw.Broker.Requests.Public.{execute_public_request-Safe}
use strange_claw.Broker.Safety.{Safe}
use strange_claw.Broker.Handle.{
  RequestBroker, public_request, by_policy, http_request, handle_http_request, web_fetch,
  handle_web_fetch, search_by, web_search, handle_web_search, handle_list_integrations, dispatch_on,
  dispatch, handle,
}

module _ {W : Type 0} (py : Platform W) (b : RequestBroker) where
  abbrev Keeps : Exec W Dict → Type 0
  Keeps m = Triple (Safe py b.policies) m (λ _. Safe py b.policies) (Safe py b.policies)

  Keeps-pure : (d : Dict) → Keeps (pure d)
  Keeps-pure d = Triple-pure d (λ h safe. safe)

  abbrev Public : Policy → Type 0
  Public p = (methods : List Text) × (size : ℕ) × (p ≡ public_policy methods size)

  by_policy-Keeps :
      (r : HttpRequest) (integration : Text) (found : Option Policy)
      → lookup integration b.policies ≡ found
      → Keeps (by_policy py b r integration found)
  unfolding by_policy
  by_policy-Keeps r integration none e = Keeps-pure _
  by_policy-Keeps r integration (some p) e =
      execute_policy_request-Safe py b.policies integration p e r.model_headers integration r.method
        r.url r.body (some integration)

  -- A request with the public policy, whichever way it is built.
  public-Keeps :
      (p : Policy) (name method url : Text) (model_headers : Headers) (body : Option Text)
      (max_bytes : ℕ) (enforce decode_utf8 : Bool)
      → ((methods : List Text) × (size : ℕ) × (p ≡ public_policy methods size))
      → (enforce ≡ false → NoneProtected py.lower (codes "Authorization" ∷ []) model_headers)
      → Keeps (
          execute_public_request py p name method url model_headers body max_bytes (record {
            enforce_validation = enforce;
            enforce_initial_ssrf = true;
            enforce_redirect_ssrf = true;
            decode_utf8 = decode_utf8;
          }))
  public-Keeps p name method url model_headers body max_bytes enforce decode_utf8 (methods, size, e)
        free =
      rw e (
        execute_public_request-Safe py b.policies methods size model_headers name method url body
          max_bytes enforce decode_utf8 free)

  public_request-Keeps : (r : HttpRequest) → Keeps (public_request py b r)
  unfolding public_request
  public_request-Keeps r =
      Triple-if (not (truth (field_or "enabled" (boolean true) (public_policy_config b.config)))) _
        _ (λ _. Keeps-pure _)
        λ _.
          Triple-bind {Q = λ p h. Safe py b.policies h × Public p} _ _
            (Triple-lift _ (λ p h e safe. (safe, build_public_policy-eq py _ p e)) (λ h safe. safe))
            λ p. record {
              at = λ h k.
                  (public-Keeps p (codes "_public") r.method r.url r.model_headers r.body
                      p.max_response_bytes true false k.1 (λ off. absurd (cc))).at
                    h k.0;
            }

  http_request-Keeps : (r : Parsed HttpRequest) → Keeps (http_request py b r)
  unfolding http_request
  http_request-Keeps (inr reply) = Keeps-pure reply
  http_request-Keeps (inl r) = by_integration r.integration
    where
      by_integration :
          (i : Option Text)
          → Keeps (elim i [
            | none ↦ public_request py b r
            | some n ↦ by_policy py b r n (lookup n b.policies)
          ])
      by_integration none = public_request-Keeps r
      by_integration (some n) = by_policy-Keeps r n (lookup n b.policies) refl

  web_fetch-Keeps : (url : Parsed Text) → Keeps (web_fetch py b url)
  unfolding web_fetch
  web_fetch-Keeps (inr reply) = Keeps-pure reply
  web_fetch-Keeps (inl url) =
      Triple-bind {Q = λ p h. Safe py b.policies h × Public p} _ _
        (Triple-lift _ (λ p h e safe. (safe, build_public_policy-eq py _ p e)) (λ h safe. safe))
        λ p.
          Triple-bind {Q = λ n h. Safe py b.policies h × Public p} _ _
            (Triple-lift _ (λ n h e k. k) (λ h k. k.0))
            λ n. record {
              at = λ h k.
                  (public-Keeps p (codes "_web_fetch") (codes "GET") url [] none n false true k.1
                      (λ _. tt)).at
                    h k.0;
            }

  search_by-Keeps :
      (p : Policy) (parsed : Parsed (Text × ℕ))
      → lookup (codes "_web_search") b.policies ≡ some p
      → Keeps (search_by py b p parsed)
  unfolding search_by
  search_by-Keeps p (inr reply) e = Keeps-pure reply
  search_by-Keeps p (inl (query, max_results)) e =
      Triple-bind _ _ (Triple-lift _ (λ a h _ safe. safe) (λ h safe. safe)) λ url.
        Triple-bind _ _
          (execute_policy_request-Safe py b.policies (codes "_web_search") p e []
            (codes "_web_search") (codes "GET") url none none)
          λ result.
            Triple-if (is_failure result) _ _ (λ _. Keeps-pure result)
              (λ _. Triple-lift _ (λ a h _ safe. safe) (λ h safe. safe))

  web_search-Keeps :
      (payload : Dict) (found : Option Policy)
      → lookup (codes "_web_search") b.policies ≡ found
      → Keeps (web_search py b payload found)
  unfolding web_search
  web_search-Keeps payload none e = Keeps-pure _
  web_search-Keeps payload (some p) e =
      Triple-bind _ _ (Triple-lift _ (λ a h _ safe. safe) (λ h safe. safe)) λ n.
        Triple-bind _ _ (Triple-lift _ (λ a h _ safe. safe) (λ h safe. safe))
          λ parsed. search_by-Keeps p parsed e

  dispatch_on-Keeps :
      (action : Text) (payload : Dict) (raw : Value) → Keeps (dispatch_on py b action payload raw)
  unfolding dispatch_on handle_http_request handle_web_fetch handle_web_search
      handle_list_integrations
  dispatch_on-Keeps action payload raw =
      Triple-if (text_eq action (codes "http_request")) _ _ (λ _. http_request-Keeps _)
        λ _.
          Triple-if (text_eq action (codes "web_fetch")) _ _ (λ _. web_fetch-Keeps _)
            λ _.
              Triple-if (text_eq action (codes "web_search")) _ _
                (λ _. web_search-Keeps payload (lookup (codes "_web_search") b.policies) refl)
                λ _.
                  Triple-if (text_eq action (codes "list_integrations")) _ _ (λ _. Keeps-pure _)
                    (λ _. Keeps-pure _)

  state_of_Post :
      (x : Outcome Dict × Host W)
      → Post (λ _. Safe py b.policies) (Safe py b.policies) x
      → Safe py b.policies x.1
  state_of_Post (returned d, h) k = k
  state_of_Post (raised e, h) k = k

  -- Whatever the payload, and whatever the network answers: if every request so far was justified,
  -- so is every request that the broker makes for this payload. A request of an integration is
  -- permitted by its policy at its very URL and method, redirects included, and carries that policy's
  -- credential; every other one is to a host of which the lookup just before gave no blocked address,
  -- and carries no credential.
  pub handle-Safe :
      (payload : Dict) (h : Host W)
      → Safe py b.policies h
      → Safe py b.policies (handle py b payload h).1
  unfolding handle dispatch
  handle-Safe payload h safe =
      state_of_Post (dispatch py b payload h) ((dispatch_on-Keeps _ payload _).at h safe)

-- ===== src/Broker/Handle.antt =====
-- sandbox/broker.py: `RequestBroker` itself, its handlers and `handle`.
pub mod Safe
pub mod Reply
use strange_claw.Prelude.{
  ℕ, Bool, true, false, not, Option, none, some, List, [], ◌∷◌, ◌++◌, map, filter, ltb, ◌==◌, ◌&&◌,
  ◌||◌, inl, inr, String, if◌then◌else◌,
}
use strange_claw.Text.{Text, codes, text_eq, is_prefix}
use strange_claw.Assoc.{Assoc, Headers, lookup}
use strange_claw.Text.Order.{sorted}
use strange_claw.Value.{
  Value, null, boolean, str, list, dict, Dict, empty, field, text, items, get_field,
}
use strange_claw.Python.{
  Platform, Outcome, returned, raised, Loaded, to_str, value, decode_error, failed,
}
use strange_claw.Broker.Policy.{Policy, field_or_none, field_or}
use strange_claw.Broker.Host.{Host, Exec, pure, lift, ◌>>=◌}
use strange_claw.Broker.Validate.{deny}
use strange_claw.Broker.Payload.{
  Parsed, HttpRequest, parse_http_request_payload, parse_web_fetch_payload,
  parse_web_search_payload,
}
use strange_claw.Broker.Config.{
  section, truth, public_policy_config, build_public_policy, web_fetch_max_response_bytes,
  web_search_endpoint, is_searxng, web_search_max_results,
}
use strange_claw.Broker.Search.{
  append_query_params, normalize_brave_results, normalize_searxng_results,
}
use strange_claw.Broker.Redirect.{is_failure}
use strange_claw.Broker.Requests.{PublicOptions, execute_policy_request, execute_public_request}
use strange_claw.Broker.Redact.{redact_value}

pub record RequestBroker : Type 0 where
  pub policies : Assoc Policy
  pub config : Dict
  pub redaction_tokens : List Text

-- host_secrets.py: the names that do not begin with `_`.
pub list_integration_names : Assoc Policy → List Text
list_integration_names ps =
    sorted (filter (λ n. not (is_prefix (codes "_") n)) (map (λ (e : Text × Policy). e.0) ps))

module _ {W : Type 0} (py : Platform W) (b : RequestBroker) where
  public_request : HttpRequest → Exec W Dict
  public_request r =
      let public_cfg = public_policy_config b.config in
      if not (truth (field_or "enabled" (boolean true) public_cfg))
      then pure (
          deny py (codes "_public") r.method r.url
            (codes "public requests disabled; specify an integration name"))
      else do
        p ← lift (build_public_policy py public_cfg)
        execute_public_request py p (codes "_public") r.method r.url r.model_headers r.body
            p.max_response_bytes
            (record {
              enforce_validation = true;
              enforce_initial_ssrf = true;
              enforce_redirect_ssrf = true;
              decode_utf8 = false;
            })

  by_policy : HttpRequest → Text → Option Policy → Exec W Dict
  by_policy r integration none = pure (
      deny py integration r.method r.url
        (codes "integration '" ++ integration ++ codes "' not found in secrets.yaml"))
  by_policy r integration (some p) =
      execute_policy_request py p integration r.method r.url r.model_headers r.body
        (some integration)

  http_request : Parsed HttpRequest → Exec W Dict
  unfolding public_request by_policy
  http_request (inr reply) = pure reply
  http_request (inl r) = elim r.integration [
    | none ↦ public_request r
    | some integration ↦ by_policy r integration (lookup integration b.policies)
  ]

  pub handle_http_request : Dict → Exec W Dict
  unfolding http_request
  handle_http_request payload = http_request (parse_http_request_payload py payload)

  web_fetch : Parsed Text → Exec W Dict
  web_fetch (inr reply) = pure reply
  web_fetch (inl url) = do
    p ← lift (build_public_policy py empty)
    max_bytes ← lift (web_fetch_max_response_bytes py b.config)
    execute_public_request py p (codes "_web_fetch") (codes "GET") url [] none max_bytes (record {
      enforce_validation = false;
      enforce_initial_ssrf = true;
      enforce_redirect_ssrf = true;
      decode_utf8 = true;
    })

  pub handle_web_fetch : Dict → Exec W Dict
  unfolding web_fetch
  handle_web_fetch payload = web_fetch (parse_web_fetch_payload py payload)

  abbrev invalid_json : Text → Dict
  invalid_json detail =
      field "success" (boolean false)
        (field "error" (text "invalid_json") (field "detail" (str detail) empty))

  results_of : ℕ → Loaded → Outcome Dict
  results_of max_results (value (dict payload)) = returned (
      field "success" (boolean true) (
        field "results"
          (list (
            items (
              if is_searxng py b.config
              then normalize_searxng_results py payload max_results
              else normalize_brave_results py payload max_results)))
          empty))
  results_of max_results (value _) = returned (invalid_json (codes "expected object payload"))
  results_of max_results (decode_error e) = returned (invalid_json e)
  results_of max_results (failed e) = raised e

  abbrev query_params : Text → Headers
  query_params query =
      if is_searxng py b.config
      then (codes "q", query) ∷ (codes "format", codes "json") ∷ []
      else (codes "q", query) ∷ []

  search_by : Policy → Parsed (Text × ℕ) → Exec W Dict
  unfolding results_of
  search_by p (inr reply) = pure reply
  search_by p (inl (query, max_results)) = do
    search_url ←
        lift (append_query_params py (web_search_endpoint py b.config) (query_params query))
    result ← execute_policy_request py p (codes "_web_search") (codes "GET") search_url [] none none
    (if is_failure result
        then pure result
        else lift
            (results_of max_results (py.json_loads (to_str py (field_or "body" (text "") result)))))

  web_search : Dict → Option Policy → Exec W Dict
  unfolding search_by
  web_search payload none = pure (
      deny py (codes "_web_search") (codes "GET") (web_search_endpoint py b.config)
        (codes "web_search integration not configured in secrets.yaml"))
  web_search payload (some p) = do
    default_max_results ← lift (web_search_max_results py b.config)
    parsed ← lift (parse_web_search_payload py payload default_max_results)
    search_by p parsed

  pub handle_web_search : Dict → Exec W Dict
  unfolding web_search
  handle_web_search payload = web_search payload (lookup (codes "_web_search") b.policies)

  pub handle_list_integrations : Dict → Exec W Dict
  handle_list_integrations payload = pure (
      field "success" (boolean true)
        (field "integrations" (list (items (map str (list_integration_names b.policies)))) empty))

  unknown_action : Value → Dict
  unknown_action action =
      field "success" (boolean false)
        (field "error" (str (codes "unknown action: " ++ to_str py action)) empty)

  dispatch_on : Text → Dict → Value → Exec W Dict
  unfolding unknown_action
  dispatch_on action payload raw =
      if text_eq action (codes "http_request")
      then handle_http_request payload
      else if text_eq action (codes "web_fetch")
      then handle_web_fetch payload
      else if text_eq action (codes "web_search")
      then handle_web_search payload
      else if text_eq action (codes "list_integrations")
      then handle_list_integrations payload
      else pure (unknown_action raw)

  abbrev action_text : Value → Text
  action_text (str s) = s
  action_text _ = []

  -- The handler of the action, or the reply to an unknown one.
  pub dispatch : Dict → Exec W Dict
  unfolding dispatch_on
  dispatch payload =
      let raw = field_or_none "action" payload in dispatch_on (action_text raw) payload raw

-- An exception of a handler becomes a reply.
pub caught : Outcome Dict → Dict
caught (returned result) = result
caught (raised e) =
    field "success" (boolean false)
      (field "error" (text "internal_error") (field "detail" (str e) empty))

abbrev pub missing_envelope : Dict
missing_envelope = field "success" (boolean false) (
    field "error" (text "internal_error")
      (field "detail" (text "invalid broker response: missing success envelope") empty))

abbrev pub not_a_dict : Dict
not_a_dict =
    field "success" (boolean false) (
      field "error" (text "internal_error") (field "detail" (text "invalid broker response") empty))

with_success : Dict → Option Value → Dict
with_success d (some (boolean s)) = d
with_success d _ = missing_envelope

-- The redacted reply, if it is a mapping whose `success` is a boolean.
pub enveloped : Value → Dict
unfolding with_success
enveloped (dict d) = with_success d (get_field "success" d)
enveloped _ = not_a_dict

pub handle : {W : Type 0} → Platform W → RequestBroker → Dict → Host W → Dict × Host W
unfolding caught enveloped
handle py b payload h =
    let (r, h') = dispatch py b payload h in
    (enveloped (redact_value b.redaction_tokens (dict (caught r))), h')

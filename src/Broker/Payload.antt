-- ===== src/Broker/Payload.antt =====
-- sandbox/broker.py: the parsers of the payloads, `_normalize_headers` and `_invalid_request`.
use strange_claw.Prelude.{
  ℕ, false, Option, none, some, [], ◌∷◌, String, ◌⊎◌, inl, inr, if◌then◌else◌,
}
use strange_claw.Text.{Text, is_empty}
use strange_claw.Assoc.{Headers, insert}
use strange_claw.Value.{Value, null, boolean, str, dict, Dict, empty, entry, name, field, text}
use strange_claw.Python.{Platform, Outcome, returned, raised}
use strange_claw.Broker.Numbers.{to_positive_int}
use strange_claw.Broker.Policy.{field_or_none, field_or}

abbrev pub invalid_request : String → Dict
invalid_request reason =
    field "success" (boolean false)
      (field "error" (text "invalid_request") (field "reason" (text reason) empty))

-- A parsed payload, or the reply that refuses it.
abbrev pub Parsed : Type 0 → Type 0
Parsed A = A ⊎ Dict

infixl 5 ◌>>=◌
unfoldable pub ◌>>=◌ : {A B : Type 0} → Parsed A → (A → Parsed B) → Parsed B
inl a >>= f = f a
inr reply >>= f = inr reply

pub record HttpRequest : Type 0 where
  pub integration : Option Text
  pub method : Text
  pub url : Text
  pub model_headers : Headers
  pub body : Option Text

abbrev text_or_none : Text → Option Text
text_or_none [] = none
text_or_none (c ∷ s) = some (c ∷ s)

header_items : Headers → Dict → Parsed Headers
header_items hs empty = inl hs
header_items hs (entry (name k) (str v) d) = header_items (insert k v hs) d
header_items hs (entry _ _ d) =
    inr (invalid_request "http_request.headers must contain only string keys and values")

unfoldable pub normalize_headers : Value → Parsed Headers
unfolding header_items
normalize_headers (dict d) = header_items [] d
normalize_headers _ = inr (invalid_request "http_request.headers must be an object when provided")

-- `payload.get("headers", {})`, where `None` is no headers
abbrev headers_value : Value → Value
headers_value null = dict empty
headers_value v = v

body_of : Value → Parsed (Option Text)
body_of null = inl none
body_of (str s) = inl (some s)
body_of _ = inr (invalid_request "http_request.body must be a string or null")

module _ {W : Type 0} (py : Platform W) where
  non_blank : Text → String → Parsed Text
  non_blank s reason =
      if is_empty (py.strip s) then inr (invalid_request reason) else inl (py.strip s)

  -- A text that is not blank, without the space around it.
  pub stripped : Value → String → Parsed Text
  unfolding non_blank
  stripped (str s) reason = non_blank s reason
  stripped _ reason = inr (invalid_request reason)

  integration_of : Value → Parsed (Option Text)
  integration_of null = inl none
  integration_of (str s) = inl (text_or_none (py.strip s))
  integration_of _ = inr (invalid_request "http_request.integration must be a string or null")

  unfoldable pub parse_http_request_payload : Dict → Parsed HttpRequest
  unfolding stripped integration_of normalize_headers body_of ◌>>=◌
  parse_http_request_payload payload = do
    method ←
        stripped (field_or_none "method" payload) "http_request.method must be a non-empty string"
    url ← stripped (field_or_none "url" payload) "http_request.url must be a non-empty string"
    integration ← integration_of (field_or_none "integration" payload)
    model_headers ← normalize_headers (headers_value (field_or "headers" (dict empty) payload))
    body ← body_of (field_or_none "body" payload)
    inl (record {
      integration = integration;
      method = py.upper method;
      url = url;
      model_headers = model_headers;
      body = body;
    })

  unfoldable pub parse_web_fetch_payload : Dict → Parsed Text
  unfolding stripped
  parse_web_fetch_payload payload =
      stripped (field_or_none "url" payload) "web_fetch.url must be a non-empty string"

  positive_or_refused : Option ℕ → Parsed ℕ
  positive_or_refused none =
      inr (invalid_request "web_search.max_results must be a positive integer")
  positive_or_refused (some n) = inl n

  limit_of : ℕ → Value → Outcome (Parsed ℕ)
  unfolding positive_or_refused
  limit_of default_max_results null = returned (inl default_max_results)
  limit_of default_max_results v = elim (to_positive_int py v) [
    | returned n ↦ returned (positive_or_refused n)
    | raised e ↦ raised e
  ]

  with_query : Text → Outcome (Parsed ℕ) → Outcome (Parsed (Text × ℕ))
  with_query query (returned (inl n)) = returned (inl (query, n))
  with_query query (returned (inr reply)) = returned (inr reply)
  with_query query (raised e) = raised e

  after_query : ℕ → Dict → Parsed Text → Outcome (Parsed (Text × ℕ))
  unfolding with_query limit_of
  after_query default_max_results payload (inl query) =
      with_query query (limit_of default_max_results (field_or_none "max_results" payload))
  after_query default_max_results payload (inr reply) = returned (inr reply)

  unfoldable pub parse_web_search_payload : Dict → ℕ → Outcome (Parsed (Text × ℕ))
  unfolding stripped after_query
  parse_web_search_payload payload default_max_results =
      after_query default_max_results payload
        (stripped (field_or_none "query" payload) "web_search.query must be a non-empty string")

-- ===== src/Broker/Policy.antt =====
-- sandbox/broker.py: `Policy`, `Policy.from_record` and the helpers that it calls.
use strange_claw.Prelude.{
  ℕ, Bool, true, false, not, ◌&&◌, Option, none, some, List, [], ◌∷◌, ◌++◌, map, String,
  if◌then◌else◌,
}
use strange_claw.Text.{Text, codes, text_eq, elem, is_empty}
use strange_claw.Assoc.{Headers, insert}
use strange_claw.Value.{
  Value, null, str, list, dict, Items, nil, cons, Dict, empty, entry, Key, name, other, get,
  get_field, text, items,
}
use strange_claw.Python.{Platform, Outcome, returned, raised}
use strange_claw.Broker.Checked.{Checked, ok, value_error, crashed, ◌>>=◌, ◌>>◌, require}
use strange_claw.Broker.Numbers.{Period, to_positive_int, to_positive_float}
pub mod Values
pub mod Laws
pub mod Tests

pub record Policy : Type 0 where
  pub integration : Text
  pub auth_type : Text
  pub token : Text
  pub header_name : Text
  pub allowed_hosts : List Text
  pub allowed_methods : List Text
  pub allowed_paths : List Text
  pub allowed_schemes : List Text
  pub protected_headers : List Text
  pub default_headers : Headers
  pub max_response_bytes : ℕ
  pub rate_limit_requests : Option ℕ
  pub rate_limit_period_seconds : Option Period

abbrev or_value : Value → Option Value → Value
or_value d none = d
or_value d (some v) = v

-- `record.get("...")` and `record.get("...", default)`
abbrev pub field_or_none : String → Dict → Value
field_or_none k d = or_value null (get_field k d)

abbrev pub field_or : String → Value → Dict → Value
field_or k v d = or_value v (get_field k d)

-- A text, or the error that the field is none.
pub as_text : Text → Value → Checked Text
as_text e (str s) = ok s
as_text e _ = value_error e

pub non_empty : Text → Text → Checked Text
non_empty e [] = value_error e
non_empty e (c ∷ s) = ok (c ∷ s)

pub from_outcome {ℓ} : {A : Type ℓ} → Outcome A → Checked A
from_outcome (returned a) = ok a
from_outcome (raised e) = crashed e

pub must {ℓ} : {A : Type ℓ} → Text → Option A → Checked A
must e none = value_error e
must e (some a) = ok a

-- `default_headers[key] = value` for every item, if all keys and values are texts
string_items : Headers → Dict → Option Headers
string_items hs empty = some hs
string_items hs (entry (name k) (str v) d) = string_items (insert k v hs) d
string_items hs (entry _ _ d) = none

pub default_headers_of : Value → Checked Headers
unfolding string_items
default_headers_of (dict d) =
    must (codes "default_headers must be a mapping of string keys and values") (string_items [] d)
default_headers_of _ = value_error (codes "default_headers must be a mapping")

abbrev list_error : String → Text
list_error field_name = codes field_name ++ codes " must be a non-empty list of strings"

module _ {W : Type 0} (py : Platform W) where
  string_list : Text → Items → Checked (List Text)
  string_list e nil = ok []
  string_list e (cons (str s) xs) =
      let rest = string_list e xs in
      if is_empty (py.strip s) then value_error e else (rest >>= λ ts. ok (py.strip s ∷ ts))
  string_list e (cons _ xs) = value_error e

  pub as_string_tuple : Value → String → Checked (List Text)
  as_string_tuple (list (cons v xs)) field_name = string_list (list_error field_name) (cons v xs)
  as_string_tuple _ field_name = value_error (list_error field_name)

  normalize_allowed_scheme : Text → Checked Text
  normalize_allowed_scheme raw =
      let lowered = py.lower raw in
      do
        require (elem lowered (codes "http" ∷ codes "https" ∷ []))
            (codes "allowed_schemes must contain only: http, https")
        ok lowered

  pub normalize_schemes : List Text → Checked (List Text)
  normalize_schemes [] = ok []
  normalize_schemes (s ∷ ss) = do
    scheme ← normalize_allowed_scheme s
    rest ← normalize_schemes ss
    ok (scheme ∷ rest)

  pub ensure_protected_header : List Text → Option Text → List Text
  ensure_protected_header hs none = hs
  ensure_protected_header hs (some required) =
      if elem (py.lower required) (map py.lower hs) then hs else hs ++ required ∷ []

  pub header_name_of : Dict → Checked Text
  unfolding as_text non_empty
  header_name_of record_fields =
      let e = codes "header_name must be a non-empty string for header auth" in
      do
        raw ← as_text e (field_or "header_name" (text "Authorization") record_fields)
        non_empty e (py.strip raw)

  -- The rate limit is optional, and an invalid one is none.
  pub limits_of : Value → Checked (Option ℕ × Option Period)
  unfolding from_outcome
  limits_of (dict d) = do
    requests ← from_outcome (to_positive_int py (field_or_none "requests" d))
    period ← from_outcome (to_positive_float py (field_or_none "per_seconds" d))
    ok (requests, period)
  limits_of _ = ok (none, none)

  pub from_record : Text → Dict → Checked Policy
  from_record integration fields = do
    auth_type_raw ← as_text (codes "auth_type must be a string") (field_or_none "auth_type" fields)
    let auth_type = py.lower (py.strip auth_type_raw)
    require (elem auth_type (codes "bearer" ∷ codes "header" ∷ []))
        (codes "auth_type must be one of: bearer, header")
    token_text ← as_text (codes "token must be a non-empty string") (field_or_none "token" fields)
    token ← non_empty (codes "token must be a non-empty string") token_text
    hosts ← as_string_tuple (field_or_none "allowed_hosts" fields) "allowed_hosts"
    methods ← as_string_tuple (field_or_none "allowed_methods" fields) "allowed_methods"
    paths ← as_string_tuple (field_or_none "allowed_paths" fields) "allowed_paths"
    schemes ←
        as_string_tuple (field_or "allowed_schemes" (list (items (text "https" ∷ []))) fields)
          "allowed_schemes"
    allowed_schemes ← normalize_schemes schemes
    protected ← as_string_tuple (field_or_none "protected_headers" fields) "protected_headers"
    defaults ← default_headers_of (field_or_none "default_headers" fields)
    max_bytes ← from_outcome (to_positive_int py (field_or_none "max_response_bytes" fields))
    max_response_bytes ← must (codes "max_response_bytes must be a positive integer") max_bytes
    limits ← limits_of (field_or_none "rate_limit" fields)
    let by_header = text_eq auth_type (codes "header")
    header_name ← (if by_header then header_name_of fields else ok (codes "Authorization"))
    ok (record {
      integration = integration;
      auth_type = auth_type;
      token = token;
      header_name = header_name;
      allowed_hosts = hosts;
      allowed_methods = map py.upper methods;
      allowed_paths = paths;
      allowed_schemes = allowed_schemes;
      protected_headers =
          ensure_protected_header protected (if by_header then some header_name else none);
      default_headers = defaults;
      max_response_bytes = max_response_bytes;
      rate_limit_requests = limits.0;
      rate_limit_period_seconds = limits.1;
    })

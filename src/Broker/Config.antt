-- ===== src/Broker/Config.antt =====
-- sandbox/broker.py: what `RequestBroker` reads of the configuration, and the policy of public requests.
use strange_claw.Prelude.{
  ◌≡◌, inl, inr, arith, ℕ, Bool, true, false, not, ◌||◌, Option, none, some, List, [], ◌∷◌, ◌==◌,
  ◌^◌, String, if◌then◌else◌,
}
use strange_claw.Prelude.Int.{pos, negsuc}
use strange_claw.Text.{Text, codes, text_eq, is_empty}
use strange_claw.Value.{
  Value, null, boolean, int, float, str, list, tuple, dict, Items, nil, cons, Dict, empty, entry,
  get_field, items, text,
}
use strange_claw.Python.{Platform, Outcome, Outcome-cases, returned, raised, to_str}
use strange_claw.Broker.Numbers.{to_positive_int}
use strange_claw.Broker.Policy.{Policy, field_or_none, field_or}

abbrev pub default_max_response_bytes : ℕ
default_max_response_bytes = 524288

-- A section that is no mapping counts as empty.
abbrev pub section : String → Dict → Dict
section k config = elim (get_field k config) [ some (dict d) ↦ d | _ ↦ empty ]

-- `bool(value)`; the floats 0.0 and -0.0 are false.
unfoldable pub truth : Value → Bool
truth null = false
truth (boolean b) = b
truth (int (pos n)) = not (n == 0)
truth (int (negsuc n)) = true
truth (float n) = not (n == 0 || n == 2 ^ 63)
truth (str s) = not (is_empty s)
truth (list nil) = false
truth (list (cons v xs)) = true
truth (tuple nil) = false
truth (tuple (cons v xs)) = true
truth (dict empty) = false
truth (dict (entry k v d)) = true

or_default : ℕ → Option ℕ → ℕ
or_default d none = d
or_default d (some n) = n

abbrev pub public_policy_config : Dict → Dict
public_policy_config config = section "public_policy" (section "broker" config)

non_empty_methods : List Text → List Text
non_empty_methods [] = codes "GET" ∷ []
non_empty_methods (m ∷ ms) = m ∷ ms

abbrev pub public_policy : List Text → ℕ → Policy
public_policy methods max_bytes = record {
  integration = codes "_public";
  auth_type = codes "none";
  token = [];
  header_name = codes "Authorization";
  allowed_hosts = codes "*" ∷ [];
  allowed_methods = methods;
  allowed_paths = codes "/*" ∷ [];
  allowed_schemes = codes "http" ∷ codes "https" ∷ [];
  protected_headers = codes "Authorization" ∷ [];
  default_headers = [];
  max_response_bytes = max_bytes;
  rate_limit_requests = none;
  rate_limit_period_seconds = none;
}

module _ {W : Type 0} (py : Platform W) where
  positive_or : ℕ → Value → Outcome ℕ
  unfolding or_default
  positive_or d v = elim (to_positive_int py v) [
    | returned n ↦ returned (or_default d n)
    | raised e ↦ raised e
  ]

  methods_in : Items → List Text
  methods_in nil = []
  methods_in (cons (str s) xs) =
      let rest = methods_in xs in if is_empty (py.strip s) then rest else py.upper s ∷ rest
  methods_in (cons _ xs) = methods_in xs

  public_methods : Value → List Text
  unfolding methods_in non_empty_methods
  public_methods (list xs) = non_empty_methods (methods_in xs)
  public_methods _ = codes "GET" ∷ []

  unfoldable pub build_public_policy : Dict → Outcome Policy
  unfolding public_methods positive_or
  build_public_policy public_cfg =
      elim (positive_or default_max_response_bytes
        (field_or_none "max_response_bytes" public_cfg)) [
          | returned n ↦ returned (
              public_policy
                (public_methods
                  (field_or "allowed_methods" (list (items (text "GET" ∷ []))) public_cfg))
                n)
          | raised e ↦ raised e
        ]

  unfoldable pub web_fetch_max_response_bytes : Dict → Outcome ℕ
  unfolding positive_or
  web_fetch_max_response_bytes config =
      positive_or default_max_response_bytes
        (field_or_none "max_response_bytes" (section "web_fetch" config))

  endpoint_text : Value → Text
  endpoint_text (str s) = py.strip s
  endpoint_text _ = []

  unfoldable pub web_search_endpoint : Dict → Text
  unfolding endpoint_text
  web_search_endpoint config =
      endpoint_text (field_or_none "endpoint" (section "web_search" config))

  -- Whether the format is `searxng`; every other one counts as `brave`.
  unfoldable pub is_searxng : Dict → Bool
  is_searxng config =
      text_eq
        (py.lower
          (py.strip (to_str py (field_or "format" (text "brave") (section "web_search" config)))))
        (codes "searxng")

  unfoldable pub web_search_max_results : Dict → Outcome ℕ
  unfolding positive_or
  web_search_max_results config =
      positive_or 10 (field_or_none "max_results" (section "web_search" config))

  -- Every public policy that is built is `public_policy` at some methods and some size.
  pub build_public_policy-eq :
      (cfg : Dict) (p : Policy)
      → build_public_policy cfg ≡ returned p
      → (methods : List Text) × (size : ℕ) × (p ≡ public_policy methods size)
  unfolding build_public_policy
  build_public_policy-eq cfg p e =
      elim (Outcome-cases
        (positive_or default_max_response_bytes (field_or_none "max_response_bytes" cfg))) [
          | inl (n, positive) ↦ (
            public_methods (field_or "allowed_methods" (list (items (text "GET" ∷ []))) cfg),
            n,
            ground arith,
          )
          | inr (x, raises) ↦ absurd (ground arith)
        ]

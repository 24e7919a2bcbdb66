-- ===== src/Example.antt =====
-- A small platform and a configured integration, on which the tests run the code.
use strange_claw.Prelude.{
  ℕ, suc, ◌+◌, ◌-◌, false, ◌&&◌, ◌||◌, none, some, [], ◌∷◌, map, leb, if◌then◌else◌,
}
use strange_claw.Prelude.Int.{pos}
use strange_claw.Text.{Text, codes, text_eq}
use strange_claw.Value.{Value, str, list, dict, int, Dict, empty, entry, name, field, text, items}
use strange_claw.Python.{
  Platform, Outcome, returned, Url, invalid, no_float, value, v4, infos, finished, chunk, Reply,
  response, Outbound,
}
use strange_claw.Broker.Policy.{Policy}
use strange_claw.Broker.Handle.{RequestBroker}
use strange_claw.Broker.Host.{Host}

abbrev lower_ascii : ℕ → ℕ
lower_ascii c = if leb b'A' c && leb c b'Z' then c + 32 else c

abbrev upper_ascii : ℕ → ℕ
upper_ascii c = if leb b'a' c && leb c b'z' then c - 32 else c

-- Every text is an `https` URL of one host, and its path is the text itself.
abbrev parse_example : Text → Outcome Url
parse_example url =
    returned
      (record { scheme = codes "https"; hostname = some (codes "api.github.com"); path = url })

abbrev respond : Outbound → ℕ → Reply × ℕ
respond o w = (response 200 [] none (chunk (codes "body") finished), suc w)

abbrev pub py : Platform ℕ
py = record {
  lower = map lower_ascii;
  upper = map upper_ascii;
  strip = λ s. s;
  str_of = λ v. codes "value";
  repr_list = λ ts. codes "[]";
  int_of_str = λ s. invalid;
  int_of_float = λ n. invalid;
  ticks = λ v. no_float;
  fnmatch = λ s pattern. text_eq pattern (codes "*") || text_eq s pattern;
  urlparse = parse_example;
  urljoin = λ base target. returned target;
  urlsplit =
      λ url. returned (record { scheme = []; netloc = []; path = url; query = []; fragment = [] });
  urlunsplit = λ u. u.path;
  parse_qsl = λ q. returned [];
  urlencode = λ ps. [];
  json_loads = λ s. value (dict empty);
  decode = λ encoding raw. returned raw;
  ip_address = λ s. some (v4 0x5db8d822);
  ip_text = λ ip. codes "93.184.216.34";
  is_private = λ ip. false;
  getaddrinfo = λ hostname w. (infos (some (codes "93.184.216.34") ∷ []), w);
  request = respond;
  monotonic = λ w. (w, w);
}

abbrev texts : Text → Value
texts s = list (items (str s ∷ []))

abbrev pub github : Text
github = codes "github"

abbrev pub github_record : Dict
github_record = field "auth_type" (text "header") (
    field "token" (text "ghp_secret") (
      field "header_name" (text "X-Token") (
        field "allowed_hosts" (texts (codes "api.github.com")) (
          field "allowed_methods" (texts (codes "get")) (
            field "allowed_paths" (texts (codes "*")) (
              field "protected_headers" (texts (codes "Authorization")) (
                field "default_headers" (dict empty)
                  (field "max_response_bytes" (int (pos 1024)) empty))))))))

abbrev pub github_policy : Policy
github_policy = record {
  integration = github;
  auth_type = codes "header";
  token = codes "ghp_secret";
  header_name = codes "X-Token";
  allowed_hosts = codes "api.github.com" ∷ [];
  allowed_methods = codes "GET" ∷ [];
  allowed_paths = codes "*" ∷ [];
  allowed_schemes = codes "https" ∷ [];
  protected_headers = codes "Authorization" ∷ codes "X-Token" ∷ [];
  default_headers = [];
  max_response_bytes = 1024;
  rate_limit_requests = none;
  rate_limit_period_seconds = none;
}

abbrev pub credentials : Dict
credentials = entry (name github) (dict github_record) empty

abbrev pub broker : RequestBroker
broker = record {
  policies = (github, github_policy) ∷ [];
  config = empty;
  redaction_tokens = codes "ghp_secret" ∷ [];
}

abbrev pub host : Host ℕ
host = record { world = 0; trace = []; limiters = [] }

abbrev pub payload : Dict
payload = field "action" (text "http_request") (
    field "integration" (str github)
      (field "method" (text "get") (field "url" (text "https://api.github.com/user") empty)))

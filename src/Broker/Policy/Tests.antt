-- ===== src/Broker/Policy/Tests.antt =====
-- A record of an integration, and the policy that it gives.
use strange_claw.Prelude.{◌≡◌, refl}
use strange_claw.Text.{elem}
use strange_claw.Value.{get, key_eq}
use strange_claw.Broker.Checked.{ok, ◌>>=◌}
use strange_claw.Broker.Numbers.{to_positive_int, to_positive_float}
use strange_claw.Broker.Policy.{
  from_record, as_text, non_empty, from_outcome, must, default_headers_of, string_list,
  as_string_tuple, normalize_schemes, normalize_allowed_scheme, ensure_protected_header,
  header_name_of, limits_of,
}
use strange_claw.Example.{py, github, github_record, github_policy}

pub from_record-github : from_record py github github_record ≡ ok github_policy
unfolding from_record as_text non_empty from_outcome must default_headers_of string_list
    as_string_tuple normalize_schemes normalize_allowed_scheme ensure_protected_header
    header_name_of limits_of to_positive_int to_positive_float get key_eq elem ◌>>=◌
from_record-github = refl

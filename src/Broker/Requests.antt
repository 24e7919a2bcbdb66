-- ===== src/Broker/Requests.antt =====
-- sandbox/broker.py: `_execute_policy_request`, `_execute_public_request`, and the guards of their
-- redirects.
pub mod Sends
pub mod Integration
pub mod Public
use strange_claw.Prelude.{
  ℕ, Bool, true, false, ◌&&◌, not, Option, none, some, List, [], ◌∷◌, ◌++◌, if◌then◌else◌,
}
use strange_claw.Text.{Text, codes}
use strange_claw.Assoc.{Headers}
use strange_claw.Value.{boolean, str, Dict, empty, field, text}
use strange_claw.Python.{Platform}
use strange_claw.Broker.Policy.{Policy}
use strange_claw.Broker.Host.{Exec, pure, lift, ◌>>=◌, consume_rate_limit}
use strange_claw.Broker.Validate.{validate_or_deny, inject}
use strange_claw.Broker.Public.{ssrf_or_deny}
use strange_claw.Broker.Redirect.{execute_with_redirects}

rate_limited : Text → Dict
rate_limited integration = field "success" (boolean false) (
    field "error" (text "rate_limited") (
      field "reason"
        (str (codes "rate limit exceeded for integration '" ++ integration ++ codes "'")) empty))

-- The keyword arguments of `_execute_public_request`.
pub record PublicOptions : Type 0 where
  pub enforce_validation : Bool
  pub enforce_initial_ssrf : Bool
  pub enforce_redirect_ssrf : Bool
  pub decode_utf8 : Bool

module _ {W : Type 0} where
  -- `if denial is not None: return denial`
  pub unless_denied : Option Dict → Exec W Dict → Exec W Dict
  unless_denied none next = next
  unless_denied (some denial) next = pure denial

  -- The same inside a guard, which returns the denial.
  pub unless_guarded : Option Dict → Exec W (Option Dict) → Exec W (Option Dict)
  unless_guarded none next = next
  unless_guarded (some denial) next = pure (some denial)

module _ {W : Type 0} (py : Platform W) where
  -- `rate_limit_key is not None and not self._consume_rate_limit(...)`, as its negation
  within_limit : Option Text → Exec W Bool
  within_limit none = pure true
  within_limit (some key) = consume_rate_limit py key

  pub policy_redirect_guard : Policy → Text → Headers → Text → Text → Exec W (Option Dict)
  policy_redirect_guard p integration model_headers redirect_url redirect_method =
      lift (validate_or_deny py p integration redirect_method redirect_url model_headers)

  pub execute_policy_request :
      Policy → Text → Text → Text → Headers → Option Text → Option Text → Exec W Dict
  unfolding unless_denied within_limit
  execute_policy_request p integration method url model_headers body rate_limit_key = do
    denial ← lift (validate_or_deny py p integration method url model_headers)
    unless_denied denial do
      granted ← within_limit rate_limit_key
      (if granted
          then execute_with_redirects py method url (inject p model_headers) body
              p.max_response_bytes false (policy_redirect_guard p integration model_headers)
          else pure (rate_limited integration))

  validation : Bool → Policy → Text → Text → Text → Headers → Exec W (Option Dict)
  validation enforce p integration method url model_headers =
      if enforce
      then lift (validate_or_deny py p integration method url model_headers)
      else pure none

  ssrf : Bool → Text → Text → Text → Exec W (Option Dict)
  ssrf enforce integration method url =
      if enforce then ssrf_or_deny py integration method url else pure none

  pub public_redirect_guard :
      Policy → Text → Headers → Bool → Bool → Text → Text → Exec W (Option Dict)
  unfolding validation ssrf unless_guarded
  public_redirect_guard p integration model_headers enforce_validation enforce_redirect_ssrf
        redirect_url redirect_method =
      do
        denial ←
            validation enforce_validation p integration redirect_method redirect_url model_headers
        unless_guarded denial (ssrf enforce_redirect_ssrf integration redirect_method redirect_url)

  pub execute_public_request :
      Policy → Text → Text → Text → Headers → Option Text → ℕ → PublicOptions → Exec W Dict
  unfolding validation ssrf unless_denied
  execute_public_request p integration method url model_headers body max_bytes options = do
    denial ← validation options.enforce_validation p integration method url model_headers
    unless_denied denial do
      ssrf_denial ← ssrf options.enforce_initial_ssrf integration method url
      unless_denied ssrf_denial (
          execute_with_redirects py method url (inject p model_headers) body max_bytes
            options.decode_utf8
            (public_redirect_guard p integration model_headers options.enforce_validation
              options.enforce_redirect_ssrf))

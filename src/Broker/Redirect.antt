-- ===== src/Broker/Redirect.antt =====
-- sandbox/broker.py: `_redirect_target_from_result` and `RequestBroker._execute_with_redirects`.
pub mod Follow
use strange_claw.Prelude.{
  ℕ, zero, suc, Bool, true, false, not, ◌||◌, ◌&&◌, Option, none, some, List, [], ◌∷◌, ◌++◌, ◌==◌,
  if◌then◌else◌,
}
use strange_claw.Prelude.Int.{ℤ, pos, negsuc}
use strange_claw.Text.{Text, codes, text_eq, is_empty}
use strange_claw.Assoc.{Headers}
use strange_claw.Value.{
  Value, null, boolean, int, str, dict, Dict, empty, entry, Key, name, other, get_field, field,
  text,
}
use strange_claw.Python.{Platform, Outcome, returned, raised, Outbound}
use strange_claw.Broker.Numbers.{to_int}
use strange_claw.Broker.Policy.{field_or_none}
use strange_claw.Broker.Host.{Exec, pure, lift, ◌>>=◌}
use strange_claw.Broker.Fetch.{execute}

abbrev pub max_redirect_hops : ℕ
max_redirect_hops = 5

is_redirect : Option ℤ → Bool
is_redirect none = false
is_redirect (some (pos n)) = n == 301 || n == 302 || n == 303 || n == 307 || n == 308
is_redirect (some (negsuc n)) = false

-- `result.get("success") is False`
pub is_failure : Dict → Bool
is_failure d = elim (get_field "success" d) [ some (boolean false) ↦ true | _ ↦ false ]

abbrev as_location : Value → Option Text
as_location (str s) = some s
as_location _ = none

-- The value of the first header named `location` in any spelling, if it is a text.
location : (Text → Text) → Dict → Option Text
location lower empty = none
location lower (entry (name k) v d) =
    let rest = location lower d in
    if text_eq (lower k) (codes "location") then as_location v else rest
location lower (entry (other n) v d) = location lower d

location_of : (Text → Text) → Value → Option Text
unfolding location
location_of lower (dict d) = location lower d
location_of lower _ = none

abbrev status_text : (Value → Text) → Option ℤ → Text
status_text str_of none = str_of null
status_text str_of (some n) = str_of (int n)

module _ {W : Type 0} (py : Platform W) where
  joined : Outcome Text → Outcome (Option Text)
  joined (returned url) = returned (some url)
  joined (raised e) = raised e

  target : Text → Option Text → Outcome (Option Text)
  unfolding joined
  target base_url none = returned none
  target base_url (some raw) =
      if is_empty (py.strip raw) then returned none else joined (py.urljoin base_url (py.strip raw))

  pub redirect_target_from_result : Text → Option ℤ → Dict → Outcome (Option Text)
  unfolding target is_redirect location_of
  redirect_target_from_result base_url status result =
      if is_redirect status
      then target base_url (location_of py.lower (field_or_none "headers" result))
      else returned none

  unsupported_redirect : Text → Option ℤ → Dict
  unsupported_redirect method status = field "success" (boolean false) (
      field "error" (text "unsupported_redirect") (
        field "detail"
          (str (
            codes "redirect handling for non-GET methods is disabled (method="
            ++ method
            ++ codes ", status="
            ++ status_text py.str_of status
            ++ codes ")"))
          empty))

  too_many_redirects : Text → Dict
  too_many_redirects url = field "success" (boolean false) (
      field "error" (text "too_many_redirects")
        (field "detail" (str (codes "redirect limit exceeded (5) for " ++ url)) empty))

  -- The loop. `hops` is `_MAX_REDIRECT_HOPS - redirects_followed`, so that the loop ends with it; both
  -- callers pass a guard.
  module _ (method url : Text) (headers : Headers) (body : Option Text) (max_bytes : ℕ)
      (decode_utf8 : Bool) (guard : Text → Text → Exec W (Option Dict)) where
    after_guard : (Text → Exec W Dict) → Text → Option Dict → Exec W Dict
    after_guard again next_url none = again next_url
    after_guard again next_url (some denial) = pure denial

    -- What follows a response that is a redirect to `next_url`.
    redirect : ℕ → (Text → Exec W Dict) → Option ℤ → Text → Exec W Dict
    unfolding after_guard unsupported_redirect too_many_redirects
    redirect hops again status next_url =
        if not (text_eq method (codes "GET"))
        then pure (unsupported_redirect method status)
        else elim hops [
          | zero ↦ pure (too_many_redirects url)
          | suc left ↦ do denial ← guard next_url method; after_guard again next_url denial
        ]

    after_target : ℕ → (Text → Exec W Dict) → Dict → Option ℤ → Option Text → Exec W Dict
    unfolding redirect
    after_target hops again result status none = pure result
    after_target hops again result status (some next_url) = redirect hops again status next_url

    after_response : ℕ → (Text → Exec W Dict) → Text → Dict → Exec W Dict
    unfolding is_failure redirect_target_from_result after_target
    after_response hops again current_url result = if is_failure result then pure result else do
      status ← lift (to_int py (field_or_none "status_code" result))
      next_url ← lift (redirect_target_from_result current_url status result)
      after_target hops again result status next_url

    unfoldable pub one_request : Text → Exec W Dict
    one_request current_url =
        execute py (record { method = method; url = current_url; headers = headers; body = body })
          max_bytes decode_utf8

    -- With no hops left nothing is requested again.
    pub follow : ℕ → Text → Exec W Dict
    unfolding after_response one_request
    follow zero current_url = do
      result ← one_request current_url
      after_response zero (λ _. pure result) current_url result
    follow (suc hops) current_url = do
      result ← one_request current_url
      after_response (suc hops) (follow hops) current_url result

  -- `current_method` is the method in upper case.
  unfoldable pub execute_with_redirects :
      Text
      → Text
      → Headers
      → Option Text
      → ℕ
      → Bool
      → (Text → Text → Exec W (Option Dict))
      → Exec W Dict
  unfolding follow
  execute_with_redirects method url headers body max_bytes decode_utf8 guard =
      follow (py.upper method) url headers body max_bytes decode_utf8 guard max_redirect_hops url

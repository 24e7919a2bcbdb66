-- ===== src/Broker/Requests/Sends.antt =====
-- One request, and one lookup, as steps of the trace.
use strange_claw.Prelude.{ℕ, Bool, Option}
use strange_claw.Text.{Text}
use strange_claw.Assoc.{Assoc, Headers}
use strange_claw.Value.{Dict}
use strange_claw.Python.{Platform, Outbound}
use strange_claw.Broker.Policy.{Policy}
use strange_claw.Broker.Host.{Exec, request}
use strange_claw.Broker.Host.Triple.{Triple, Triple-bind, Triple-lift}
use strange_claw.Broker.Fetch.{execute}
use strange_claw.Broker.Redirect.{one_request}
use strange_claw.Broker.Safety.{Justified, Safe}

module _ {W : Type 0} (py : Platform W) (policies : Assoc Policy) where
  request-Triple :
      (o : Outbound)
      → Triple
          (λ h. Justified py policies o h.trace × Safe py policies h)
          (request py o)
          (λ _. Safe py policies)
          (Safe py policies)
  unfolding request
  request-Triple o = record { at = λ h k. k }

  execute-Triple :
      (o : Outbound) (max_bytes : ℕ) (decode_utf8 : Bool)
      → Triple
          (λ h. Justified py policies o h.trace × Safe py policies h)
          (execute py o max_bytes decode_utf8)
          (λ _. Safe py policies)
          (Safe py policies)
  unfolding execute
  execute-Triple o max_bytes decode_utf8 =
      Triple-bind _ _ (request-Triple o) λ reply. Triple-lift _ (λ a h e k. k) (λ h k. k)

  pub one_request-Triple :
      (method url : Text) (headers : Headers) (body : Option Text) (max_bytes : ℕ)
      (decode_utf8 : Bool) (guard : Text → Text → Exec W (Option Dict)) (u : Text)
      → let o : Outbound = record { method = method; url = u; headers = headers; body = body } in
        Triple
          (λ h. Justified py policies o h.trace × Safe py policies h)
          (one_request py method url headers body max_bytes decode_utf8 guard u)
          (λ _. Safe py policies)
          (Safe py policies)
  unfolding one_request
  one_request-Triple method url headers body max_bytes decode_utf8 guard u =
      execute-Triple _ max_bytes decode_utf8

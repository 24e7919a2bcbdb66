-- ===== src/Broker/Handle/Reply.antt =====
-- Every reply of `handle` has a boolean `success`, and no token occurs in it.
use strange_claw.Prelude.{◌≡◌, refl, Bool, false, Option, some, List, All, ◌⊎◌, inl, inr}
use strange_claw.Text.{Text}
use strange_claw.Value.{Value, boolean, dict, Dict, get, get_field, key_eq}
use strange_claw.Python.{Platform}
use strange_claw.Broker.Host.{Host}
use strange_claw.Broker.Redact.{redact_value}
use strange_claw.Broker.Redact.Clean.{
  Redactable, CleanDict, Clean, redact_value-Clean, redact_value-dict,
}
use strange_claw.Broker.Handle.{
  RequestBroker, dispatch, caught, missing_envelope, not_a_dict, with_success, enveloped, handle,
}

abbrev pub HasSuccess : Dict → Type 0
HasSuccess d = (s : Bool) × (get_field "success" d ≡ some (boolean s))

missing_envelope-HasSuccess : HasSuccess missing_envelope
unfolding get key_eq
missing_envelope-HasSuccess = (false, refl)

with_success-HasSuccess :
    (d : Dict) (found : Option Value)
    → get_field "success" d ≡ found
    → HasSuccess (with_success d found)
unfolding with_success
with_success-HasSuccess d (some (boolean s)) e = (s, e)
with_success-HasSuccess d _ e = missing_envelope-HasSuccess

not_a_dict-HasSuccess : HasSuccess not_a_dict
unfolding get key_eq
not_a_dict-HasSuccess = (false, refl)

enveloped-HasSuccess : (v : Value) → HasSuccess (enveloped v)
unfolding enveloped
enveloped-HasSuccess (dict d) = with_success-HasSuccess d (get_field "success" d) refl
enveloped-HasSuccess _ = not_a_dict-HasSuccess

-- Whatever the action, the payload and the exceptions, the reply has a boolean `success`.
pub handle-HasSuccess :
    {W : Type 0} (py : Platform W) (b : RequestBroker) (payload : Dict) (h : Host W)
    → HasSuccess (handle py b payload h).0
unfolding handle
handle-HasSuccess py b payload h =
    enveloped-HasSuccess
      (redact_value b.redaction_tokens (dict (caught (dispatch py b payload h).0)))

with_success-Clean :
    (ts : List Text) (d : Dict) (found : Option Value)
    → CleanDict ts d
    → CleanDict ts (with_success d found) ⊎ (with_success d found ≡ missing_envelope)
unfolding with_success
with_success-Clean ts d (some (boolean s)) c = inl c
with_success-Clean ts d _ c = inr refl

redacted-Clean :
    (ts : List Text) (d : Dict)
    → All Redactable ts
    → CleanDict ts (enveloped (redact_value ts (dict d)))
      ⊎ (enveloped (redact_value ts (dict d)) ≡ missing_envelope)
unfolding enveloped
redacted-Clean ts d rs =
    let (d', e) = redact_value-dict ts d in
    let c : Clean ts (dict d') = rw e at (redact_value-Clean ts (dict d) rs) in
    rw e (with_success-Clean ts d' (get_field "success" d') c)

-- If every token of the broker is non-empty, has no bracket and does not occur in "REDACTED", then
-- no token occurs in any text or key of a reply, the error replies included. The one other reply is
-- the fixed one that stands for a reply without a boolean `success`.
pub handle-Clean :
    {W : Type 0} (py : Platform W) (b : RequestBroker) (payload : Dict) (h : Host W)
    → All Redactable b.redaction_tokens
    → CleanDict b.redaction_tokens (handle py b payload h).0
      ⊎ ((handle py b payload h).0 ≡ missing_envelope)
unfolding handle
handle-Clean py b payload h rs =
    redacted-Clean b.redaction_tokens (caught (dispatch py b payload h).0) rs

-- ===== src/Agent/Protocol.antt =====
-- agent/protocol.py: `validate_event` and the `_require_...` functions. A `ProtocolError` is a
-- ValueError.
use strange_claw.Prelude.{
  Bool, true, false, not, Option, none, some, List, [], ◌∷◌, ◌++◌, String, if◌then◌else◌,
}
use strange_claw.Text.{Text, codes, text_eq, elem}
use strange_claw.Value.{Value, null, boolean, str, list, dict, Dict, get_field}
use strange_claw.Broker.Checked.{Checked, ok, value_error, ◌>>=◌}
pub mod Event
pub mod Tests

abbrev pub event_types : List Text
event_types =
    codes "task"
    ∷ codes "user_reply"
    ∷ codes "stop"
    ∷ codes "agent_ready"
    ∷ codes "message"
    ∷ codes "action"
    ∷ codes "done"
    ∷ codes "broker_request"
    ∷ codes "broker_response"
    ∷ []

abbrev pub message_roles : List Text
message_roles = codes "plan" ∷ codes "clarification" ∷ codes "status" ∷ codes "reply" ∷ []

abbrev wrong {ℓ} : {A : Type ℓ} → String → String → Checked A
wrong key rest = value_error (codes "Event field '" ++ codes key ++ codes rest)

require_str : Dict → String → Checked Text
require_str event key = elim (get_field key event) [
  | some (str s) ↦ ok s
  | _ ↦ wrong key "' is required and must be a string."
]

require_bool : Dict → String → Checked Bool
require_bool event key = elim (get_field key event) [
  | some (boolean b) ↦ ok b
  | _ ↦ wrong key "' is required and must be a boolean."
]

require_dict : Dict → String → Checked Dict
require_dict event key = elim (get_field key event) [
  | some (dict d) ↦ ok d
  | _ ↦ wrong key "' is required and must be an object."
]

-- `key in event`
abbrev has : String → Dict → Bool
has key event = elim (get_field key event) [ none ↦ false | some v ↦ true ]

abbrev accept : Checked (Unit {0})
accept = ok tt

check_files : Option Value → Checked (Unit {0})
check_files none = accept
check_files (some null) = accept
check_files (some (list xs)) = accept
check_files (some _) = value_error (codes "Event field 'files' must be an array when provided.")

validate_task : Dict → Checked (Unit {0})
validate_task event = do
  _ ← require_str event "text"
  _ ← require_str event "session_id"
  _ ← require_str event "approval_mode"
  (if has "llm" event
      then value_error (
          codes
            "Event field 'llm' is not supported on task events. Pass LLM config at agent construction time.")
      else accept)

validate_user_reply : Dict → Checked (Unit {0})
validate_user_reply event = do
  _ ← require_str event "text"
  _ ← require_bool event "approved"
  accept

validate_message : Dict → Checked (Unit {0})
validate_message event = do
  role ← require_str event "role"
  (if not (elem role message_roles)
      then value_error (codes "Unsupported message role: " ++ role)
      else if not (has "content" event)
      then value_error (codes "Event field 'content' is required for message events.")
      else accept)

validate_action : Dict → Checked (Unit {0})
validate_action event = do
  _ ← require_str event "tool"
  _ ← require_dict event "args"
  _ ← require_dict event "result"
  accept

validate_done : Dict → Checked (Unit {0})
validate_done event = do
  _ ← require_bool event "success"
  _ ← require_str event "reply"
  _ ← require_dict event "state"
  check_files (get_field "files" event)

validate_broker_request : Dict → Checked (Unit {0})
validate_broker_request event = do
  _ ← require_str event "request_id"
  _ ← require_str event "service"
  _ ← require_dict event "payload"
  accept

outcome_of : Dict → Bool → Checked (Unit {0})
outcome_of event true = require_dict event "payload" >>= λ _. accept
outcome_of event false = require_str event "error" >>= λ _. accept

validate_broker_response : Dict → Checked (Unit {0})
validate_broker_response event = do
  _ ← require_str event "request_id"
  success ← require_bool event "success"
  outcome_of event success

-- The chain of `if event_type == ...`, which ends with nothing to check.
validate_typed : Text → Dict → Checked (Unit {0})
validate_typed t event =
    if text_eq t (codes "task")
    then validate_task event
    else if text_eq t (codes "user_reply")
    then validate_user_reply event
    else if text_eq t (codes "stop")
    then accept
    else if text_eq t (codes "agent_ready")
    then accept
    else if text_eq t (codes "message")
    then validate_message event
    else if text_eq t (codes "action")
    then validate_action event
    else if text_eq t (codes "done")
    then validate_done event
    else if text_eq t (codes "broker_request")
    then validate_broker_request event
    else if text_eq t (codes "broker_response")
    then validate_broker_response event
    else accept

-- The type as `event.get("type")` gives it
by_type : Dict → Option Value → Checked (Unit {0})
by_type event (some (str t)) =
    if not (elem t event_types)
    then value_error (codes "Unsupported event type: " ++ t)
    else validate_typed t event
by_type event _ = value_error (codes "Event field 'type' is required and must be a string.")

pub validate_event : Dict → Checked (Unit {0})
unfolding by_type
validate_event event = by_type event (get_field "type" event)

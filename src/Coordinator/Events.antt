-- ===== src/Coordinator/Events.antt =====
-- coordinator.py: `submit_reply`, `_handle_worker_event`, `_handle_worker_error`;
-- adapters/session_persistence.py: `persist_done_event`, with the writing of its files as an argument.
use strange_claw.Prelude.{
  ℕ, Bool, true, false, ◌&&◌, Option, none, some, [], ◌∷◌, ◌++◌, if◌then◌else◌,
}
use strange_claw.Text.{Text, codes, text_eq}
use strange_claw.Value.{Value, boolean, str, list, dict, Dict, empty, get_field, field, text, items}
use strange_claw.Assoc.{insert, lookup}
use strange_claw.Python.{Outcome, returned, raised}
use strange_claw.Agent.Run.{type_is, is_type}
use strange_claw.Session.{redact_entries}
use strange_claw.Coordinator.{
  ReplyRole, plan_role, clarification_role, SessionRecord, Outside, asked, answered, Coordinator,
  record_of,
}

module _ {W : Type 0} (out : Outside W) where
  abbrev reply_dict : Bool → Text → Dict
  reply_dict approved reply = field "approved" (boolean approved) (field "text" (str reply) empty)

  abbrev pub taken :
      Text
      → Dict
      → SessionRecord
      → Option ℕ
      → Option ReplyRole
      → Coordinator W
      → Bool × Coordinator W
  taken sid reply r none role c = (false, c)
  taken sid reply r (some k) none c = (false, c)
  taken sid reply r (some k) (some role) c = (
    true,
    record c {
      sessions = insert sid (record r { pending_role = none }) c.sessions;
      log = answered sid reply ∷ c.log;
    },
  )

  abbrev pub taken_by : Text → Dict → Option SessionRecord → Coordinator W → Bool × Coordinator W
  taken_by sid reply none c = (false, c)
  taken_by sid reply (some r) c = taken sid reply r r.worker r.pending_role c

  unfoldable pub submit_reply : Text → Bool → Text → Coordinator W → Bool × Coordinator W
  submit_reply sid approved reply c =
      taken_by sid (reply_dict approved reply) (lookup sid c.sessions) c

  -- The role that the event makes the session wait for
  unfoldable pub asked_role : Dict → Option ReplyRole
  asked_role event =
      if is_type "message" event
      then if type_is "plan" (get_field "role" event) && text_eq out.approval_mode (codes "review")
        then some plan_role
        else if type_is "clarification" (get_field "role" event)
        then some clarification_role
        else none
      else none

  abbrev pub ask_for : Text → Option ReplyRole → Coordinator W → Coordinator W
  ask_for sid none c = record c { sessions = insert sid (record_of sid c.sessions) c.sessions }
  ask_for sid (some role) c = record c {
    sessions =
        insert sid (record (record_of sid c.sessions) { pending_role = some role }) c.sessions;
    log = asked sid ∷ c.log;
  }

  abbrev stored : Dict → Outcome (Unit {0}) × W → Outcome (Option Dict) × W
  stored state (returned u, w) = (returned (some state), w)
  stored state (raised e, w) = (raised e, w)

  abbrev persist_redacted : Text → Outcome Dict → W → Outcome (Option Dict) × W
  persist_redacted sid (returned state) w = stored state (out.store sid state w)
  persist_redacted sid (raised e) w = (raised e, w)

  abbrev persist_state : Text → Option Value → W → Outcome (Option Dict) × W
  persist_state sid (some (dict state)) w =
      persist_redacted sid (redact_entries out.lower empty state) w
  persist_state sid _ w = (returned none, w)

  unfoldable pub persist_done_event : Text → Dict → W → Outcome (Option Dict) × W
  persist_done_event sid event w = persist_state sid (get_field "state" event) w

  abbrev pub with_state : Option Dict → SessionRecord → SessionRecord
  with_state none r = r
  with_state (some state) r = record r { latest_state = some state }

  abbrev pub completed : ℕ × W → Text → Option Dict → Coordinator W → Coordinator W
  completed (now, w) sid state c = record c {
    sessions =
        insert sid
          (record (with_state state (record_of sid c.sessions)) {
            last_task_completed_at = some now;
          })
          c.sessions;
    world = w;
  }

  abbrev pub persisted :
      Text → Outcome (Option Dict) × W → Coordinator W → Outcome (Unit {0}) × Coordinator W
  persisted sid (returned state, w) c = (returned tt, completed (out.monotonic w) sid state c)
  persisted sid (raised e, w) c = (raised e, record c { world = w })

  abbrev pub settled : Text → Coordinator W → Coordinator W
  settled sid c = record c {
    sessions = insert sid (record (record_of sid c.sessions) { pending_role = none }) c.sessions;
  }

  abbrev pub finish_task : Bool → Text → Dict → Coordinator W → Outcome (Unit {0}) × Coordinator W
  finish_task false sid event c = (returned tt, c)
  finish_task true sid event c =
      persisted sid (persist_done_event sid event c.world) (settled sid c)

  -- The section of `_handle_worker_event` under the lock
  unfoldable pub event_section : Text → Dict → Coordinator W → Outcome (Unit {0}) × Coordinator W
  unfolding asked_role
  event_section sid event c =
      finish_task (is_type "done" event) sid event (ask_for sid (asked_role event) c)

  abbrev shown : Option ℕ → Dict → W → W
  shown none event w = w
  shown (some sink) event w = out.emit sink event w

  abbrev pub show :
      Text → Dict → Outcome (Unit {0}) × Coordinator W → Outcome (Unit {0}) × Coordinator W
  show sid event (returned u, c) =
      (returned tt, record c { world = shown ((record_of sid c.sessions).sink) event c.world })
  show sid event (raised e, c) = (raised e, c)

  unfoldable pub handle_worker_event :
      Text → Dict → Coordinator W → Outcome (Unit {0}) × Coordinator W
  unfolding event_section
  handle_worker_event sid event c =
      show sid event (event_section sid event (record c { world = out.journal sid event c.world }))

  abbrev status_event : Text → Dict
  status_event e =
      field "type" (text "message") (field "role" (text "status") (field "content" (str e) empty))

  abbrev failed_event : Text → Dict
  failed_event e = field "type" (text "done") (
      field "success" (boolean false) (
        field "reply" (str e) (field "state" (dict empty) (field "files" (list (items [])) empty))))

  abbrev pub then_done :
      Text → Text → Outcome (Unit {0}) × Coordinator W → Outcome (Unit {0}) × Coordinator W
  then_done sid e (returned u, c) = handle_worker_event sid (failed_event e) c
  then_done sid e (raised x, c) = (raised x, c)

  unfoldable pub handle_worker_error :
      Text → Text → Coordinator W → Outcome (Unit {0}) × Coordinator W
  unfolding handle_worker_event
  handle_worker_error sid error c =
      let message = codes "Sandbox runtime error: " ++ error in
      then_done sid message (handle_worker_event sid (status_event message) c)

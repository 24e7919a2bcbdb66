-- ===== src/Agent/Task.antt =====
-- agent/agent.py: `_run_task`, `_run_task_guarded`, `_resume_context`, `_load_integrations`,
-- `_wait_for_task_event`, `run`.
pub mod Setup
pub mod Course
pub mod Ends
pub mod Laws
pub mod Tests
use strange_claw.Prelude.{
  ℕ, zero, suc, ◌+◌, ◌-◌, ltb, leb, Bool, true, false, not, Option, none, some, List, [], ◌∷◌, ◌++◌,
  length, ◌⊎◌, inl, inr, String, if◌then◌else◌,
}
use strange_claw.Text.{Text, codes, text_eq, is_empty}
use strange_claw.Text.Order.{sorted}
use strange_claw.Value.{
  Value, null, str, list, dict, Items, nil, cons, Dict, empty, get_field, field, text,
}
use strange_claw.Assoc.{Assoc}
use strange_claw.Python.{to_str}
use strange_claw.Broker.Config.{truth}
use strange_claw.Agent.Run.{
  Called, answered, service_error, call_crashed, Runtime, ToolCall, Incoming, no_event, arrival,
  receive_error, Loop, Failure, agent_error, runtime_error, other_error, blocked, Answer, returned,
  failed, Run, pure, fail, catch_agent, ◌>>=◌, ◌>>◌, send, append_history, is_type,
}
use strange_claw.Agent.Envelope.{max_iterations_reply}
use strange_claw.Agent.Plan.{
  message_event, emit_decision_parse_error, planning_phase, normalize_plan,
  activate_referenced_skills, skip_to,
}
use strange_claw.Agent.Decide.{choose_next_decision}
use strange_claw.Agent.Output.{build_done_event}
use strange_claw.Agent.Act.{Acted, send_done, act_on_decision}

-- How `_run_task` returns: after its done event, or without one when its time budget is used up.
pub data End : Type 0 where
  finished : End
  timed_out : End

module _ {W : Type 0} (rt : Runtime W) where
  abbrev text_names : Items → List Text
  text_names nil = []
  text_names (cons (str s) rest) =
      let later = text_names rest in if is_empty (rt.py.strip s) then later else s ∷ later
  text_names (cons _ rest) = text_names rest

  abbrev names_of : Option Value → List Text
  names_of (some (list xs)) = sorted (text_names xs)
  names_of _ = []

  abbrev integrations_of : Called × W → Loop W → Answer (Unit {0}) × Loop W
  integrations_of (answered payload, w) s = (
    returned tt,
    record s { world = w; integrations = names_of (get_field "integrations" payload) },
  )
  integrations_of (service_error e, w) s = (returned tt, record s { world = w; integrations = [] })
  integrations_of (call_crashed e, w) s = (failed (other_error e), record s { world = w })

  unfoldable pub load_with : Option (Text → Dict → W → Called × W) → Run (Loop W) (Unit {0})
  load_with none s = (returned tt, record s { integrations = [] })
  load_with (some call) s =
      integrations_of
        (call (codes "broker") (field "action" (text "list_integrations") empty) s.world) s

  -- `self._integrations = self._load_integrations()`
  unfoldable pub load_integrations : Run (Loop W) (Unit {0})
  load_integrations = load_with rt.call_broker

  abbrev timed : ℕ × W → ℕ → Loop W → Loop W
  timed (now, w) seconds s = record s { world = w; deadline = some (now + seconds) }

  abbrev with_deadline : Option ℕ → Loop W → Loop W
  with_deadline none s = record s { deadline = none }
  with_deadline (some seconds) s = timed (rt.py.monotonic s.world) seconds s

  -- `str(task_event.get("session_id") or "")`
  abbrev session_of : Option Value → Text
  session_of none = []
  session_of (some v) = if truth v then to_str rt.py v else []

  unfoldable pub set_up : Dict → Run (Loop W) (Unit {0})
  set_up task s = (
    returned tt,
    with_deadline rt.task_timeout (record s {
      active_session_id = session_of (get_field "session_id" task);
      children_spawned = 0;
    }),
  )

  abbrev dicts_in : Items → List Dict
  dicts_in nil = []
  dicts_in (cons (dict d) rest) = d ∷ dicts_in rest
  dicts_in (cons _ rest) = dicts_in rest

  abbrev history_in : Option Value → List Dict
  history_in (some (list xs)) = dicts_in xs
  history_in _ = []

  abbrev summary_in : Option Value → Option Text
  summary_in (some (str s)) = if is_empty (rt.py.strip s) then none else some s
  summary_in _ = none

  abbrev summarized : List Dict → ℕ
  summarized history =
      if ltb rt.summary_threshold (length history) then length history - rt.summary_threshold else 0

  -- A plan that is `None` is no plan.
  abbrev pub plan_in : Option Value → Option Value
  plan_in none = none
  plan_in (some null) = none
  plan_in (some plan) = some plan

  abbrev pub resumed_plan : Option Value → Option Value
  resumed_plan (some (dict state)) = plan_in (get_field "plan" state)
  resumed_plan _ = none

  abbrev resumed : Option Value → Loop W → Loop W
  resumed (some (dict state)) s =
      let history = history_in (get_field "history" state) in
      record s {
        history = history;
        history_summary = summary_in (get_field "summary" state);
        history_summarized_count = summarized history;
      }
  resumed _ s = record s { history = []; history_summary = none; history_summarized_count = 0 }

  -- The reset of the summary, and the context of the task's state
  unfoldable pub resume_context : Dict → Run (Loop W) (Option Value)
  resume_context task s =
      let state = get_field "state" task in (returned (resumed_plan state), resumed state s)

  unfoldable pub plan_or : Option Value → Text → Text → Run (Loop W) Value
  plan_or (some plan) goal approval_mode = pure plan
  plan_or none goal approval_mode = planning_phase rt goal approval_mode

  abbrev pub or_null : Option Value → Value
  or_null none = null
  or_null (some v) = v

  -- The `except AgentError` around planning
  unfoldable pub give_up : Text → Value → Text → Run (Loop W) (Unit {0})
  give_up goal plan e = do
    event ← emit_decision_parse_error rt e
    append_history event
    send_done rt goal plan false (codes "Unable to continue: " ++ e)

  abbrev pub is_past : Option ℕ → ℕ × W → Loop W → Answer Bool × Loop W
  is_past none reading s = (returned false, s)
  is_past (some deadline) (now, w) s = (returned (leb deadline now), record s { world = w })

  unfoldable pub out_of_time : Run (Loop W) Bool
  out_of_time s = is_past s.deadline (rt.py.monotonic s.world) s

  unfoldable pub observe : Option Dict → Run (Loop W) (Unit {0})
  observe none = pure tt
  observe (some observation) = append_history observation

  -- `if outcome.get("replanned")`
  unfoldable pub adopt :
      Text → Text → Acted → Assoc Dict → Option Value → Run (Loop W) (Dict × Assoc Dict)
  adopt goal approval_mode outcome activated none = pure (outcome.plan, activated)
  adopt goal approval_mode outcome activated (some raw) =
      activate_referenced_skills rt goal approval_mode (normalize_plan rt raw goal)

  abbrev pub stop_or : Bool → End → Run (Loop W) End → Run (Loop W) End
  stop_or true end next = pure end
  stop_or false end next = next

  unfoldable pub end_of_iterations : Text → Dict → Run (Loop W) End
  end_of_iterations goal plan = do
    send (
        message_event "clarification" (
          text
            "I reached the maximum iteration limit before finishing. Please clarify the goal or constraints."))
    send_done rt goal (dict plan) false max_iterations_reply
    pure finished

  -- What follows the decision of one iteration
  unfoldable pub after_choice :
      (Dict → Assoc Dict → Run (Loop W) End)
      → Text
      → Text
      → Dict
      → Assoc Dict
      → Option ToolCall
      → Run (Loop W) End
  after_choice again goal approval_mode plan activated none = again plan activated
  after_choice again goal approval_mode plan activated (some decision) = do
    outcome ← act_on_decision rt decision goal approval_mode plan activated
    adopted ← adopt goal approval_mode outcome activated outcome.replanned
    observe outcome.observation
    stop_or outcome.done finished (again adopted.0 adopted.1)

  -- The number is how many iterations are left.
  pub iterate : ℕ → Text → Text → Dict → Assoc Dict → Run (Loop W) End
  iterate zero goal approval_mode plan activated = end_of_iterations goal plan
  iterate (suc left) goal approval_mode plan activated = do
    late ← out_of_time
    stop_or late timed_out do
      choice ← choose_next_decision rt goal plan activated
      after_choice (iterate left goal approval_mode) goal approval_mode plan activated choice

  unfoldable pub after_activation :
      Text → Text → Dict → (Dict × Assoc Dict) ⊎ Text → Run (Loop W) End
  unfolding iterate
  after_activation goal approval_mode plan (inl (current, activated)) =
      iterate rt.max_iterations goal approval_mode current activated
  after_activation goal approval_mode plan (inr e) = do give_up goal (dict plan) e; pure finished

  unfoldable pub after_planning : Text → Text → Option Value → Value ⊎ Text → Run (Loop W) End
  after_planning goal approval_mode resumed (inl raw) =
      let plan = normalize_plan rt raw goal in
      catch_agent (activate_referenced_skills rt goal approval_mode plan)
      >>= after_activation goal approval_mode plan
  after_planning goal approval_mode resumed (inr e) = do
    give_up goal (or_null resumed) e
    pure finished

  -- `task_event[key]`; the transport yields valid events only, whose fields are texts.
  abbrev text_of : String → Option Value → Run (Loop W) Text
  text_of key (some (str s)) = pure s
  text_of key _ = fail (other_error (codes key))

  unfoldable pub run_task : Dict → Run (Loop W) End
  run_task task = do
    goal ← text_of "text" (get_field "text" task)
    approval_mode ← text_of "approval_mode" (get_field "approval_mode" task)
    set_up task
    load_integrations
    plan ← resume_context task
    planned ← catch_agent (plan_or plan goal approval_mode)
    after_planning goal approval_mode plan planned

  abbrev goal_text : Option Value → Text
  goal_text none = []
  goal_text (some v) = to_str rt.py v

  abbrev message_of : Failure → Text
  message_of (agent_error e) = e
  message_of (runtime_error e) = e
  message_of (other_error e) = e
  message_of blocked = []

  -- The last `except Exception`. Waiting for ever is no exception.
  unfoldable pub guarded : Dict → Answer End × Loop W → Answer End × Loop W
  guarded task (returned end, s) = (returned end, s)
  guarded task (failed blocked, s) = (failed blocked, s)
  guarded task (failed e, s) =
      (do
        send (
            build_done_event rt s (goal_text (get_field "text" task)) null [] false
              (codes "Internal error: " ++ message_of e))
        pure finished)
        s

  unfoldable pub run_task_guarded : Dict → Run (Loop W) End
  run_task_guarded task s = guarded task (run_task task s)

  -- `_wait_for_task_event`, by the events that are to be received
  pub wait_for_task : List Incoming → Run (Loop W) (Option Dict)
  wait_for_task [] s = (failed blocked, skip_to rt [] s)
  wait_for_task (no_event ∷ rest) s = wait_for_task rest s
  wait_for_task (receive_error e ∷ rest) s = (failed (other_error e), skip_to rt rest s)
  wait_for_task (arrival event ∷ rest) s =
      let later = wait_for_task rest s in
      if is_type "stop" event
      then (returned none, skip_to rt rest s)
      else if is_type "task" event
      then (returned (some event), skip_to rt rest s)
      else later

  unfoldable pub wait_for_task_event : Run (Loop W) (Option Dict)
  unfolding wait_for_task
  wait_for_task_event s = wait_for_task s.inbox s

  abbrev run_if : Option Dict → Run (Loop W) (Unit {0})
  run_if none = pure tt
  run_if (some task) = do run_task_guarded task; pure tt

  -- `run`
  unfoldable pub run_one : Run (Loop W) (Unit {0})
  run_one = wait_for_task_event >>= run_if

-- ===== src/Agent/Plan.antt =====
-- agent/agent.py: `_planning_phase`, `_generate_plan`, `_normalize_plan`, `_activate_referenced_skills`,
-- `_wait_for_user_reply`, `_parse_json_if_possible`, and the events for errors.
pub mod Approval
use strange_claw.Prelude.{
  ℕ, zero, suc, ◌-◌, ◌==◌, Bool, true, false, not, ◌||◌, Option, none, some, List, [], ◌∷◌, ◌++◌,
  String, ◌⊎◌, inl, inr, if◌then◌else◌,
}
use strange_claw.Prelude.Int.{ℤ, pos}
use strange_claw.Text.{Text, codes, text_eq, is_empty}
use strange_claw.Value.{
  Value, null, int, str, list, dict, Items, nil, cons, Dict, empty, get_field, field, text, items,
}
use strange_claw.Assoc.{Assoc, insert}
use strange_claw.Python.{Platform, to_str}
use strange_claw.Broker.Config.{truth}
use strange_claw.Agent.Run.{
  Prompt, planning, Completion, response, llm_error, llm_crashed, Runtime, ToolResult, Incoming,
  no_event, arrival, receive_error, Loop, Action, sent, replied, Failure, agent_error,
  runtime_error, other_error, blocked, Answer, returned, failed, Run, pure, fail, continue,
  catch_agent, catch_runtime, ◌>>=◌, ◌>>◌, send, append_history, record_action, is_type,
}

-- `asdict(result)`
abbrev pub result_dict : ToolResult → Dict
result_dict r =
    field "exit_code" (int r.exit_code)
      (field "stdout" (str r.stdout) (field "stderr" (str r.stderr) empty))

abbrev pub action_event : Text → Dict → ToolResult → Dict
action_event tool args result = field "type" (text "action") (
    field "tool" (str tool)
      (field "args" (dict args) (field "result" (dict (result_dict result)) empty)))

abbrev pub error_result : Text → ToolResult
error_result message = record { exit_code = pos 1; stdout = []; stderr = message }

abbrev pub message_event : String → Value → Dict
message_event role content =
    field "type" (text "message") (field "role" (text role) (field "content" content empty))

abbrev is_container : Value → Bool
is_container (list xs) = true
is_container (dict d) = true
is_container _ = false

abbrev opens : ℕ → Bool
opens c = c == b'{' || c == b'['

-- `reply.get("text", "")`
abbrev pub feedback_of : Option Value → Value
feedback_of none = text ""
feedback_of (some v) = v

module _ {W : Type 0} (rt : Runtime W) where
  abbrev answer_of : Completion × W → Loop W → Answer Text × Loop W
  answer_of (response text action, w) s = (returned text, record s { world = w })
  answer_of (llm_error e, w) s = (failed (runtime_error e), record s { world = w })
  answer_of (llm_crashed e, w) s = (failed (other_error e), record s { world = w })

  -- `llm.complete(messages)`, of which the text is used
  unfoldable pub complete_text : Prompt → Run (Loop W) Text
  complete_text prompt s = answer_of (rt.complete prompt s.world) s

  or_later : Option Value → Option Value → Option Value
  or_later (some (list xs)) later = some (list xs)
  or_later (some (dict d)) later = some (dict d)
  or_later _ later = later

  first_json_object_or_array : Text → Option Value
  unfolding or_later
  first_json_object_or_array [] = none
  first_json_object_or_array (c ∷ cs) =
      let later = first_json_object_or_array cs in
      if opens c then or_later (rt.raw_decode (c ∷ cs)) later else later

  found_or : Text → Option Value → Value
  found_or t none = str t
  found_or t (some v) = v

  parse_json_if_possible : Text → Value
  unfolding found_or first_json_object_or_array
  parse_json_if_possible t = found_or t (first_json_object_or_array t)

  unfoldable pub generate_plan : Text → Option Value → Run (Loop W) Value
  unfolding parse_json_if_possible
  generate_plan goal feedback = do
    answer ← complete_text (planning goal feedback)
    pure (parse_json_if_possible answer)

  abbrev pub runtime_error_event : Text → Dict
  runtime_error_event e =
      action_event (codes "agent_decision_error")
        (field "category" (text "llm_runtime_error") empty) (error_result e)

  unfoldable pub emit_llm_runtime_error : Text → Run (Loop W) Dict
  emit_llm_runtime_error e = do send (runtime_error_event e); pure (runtime_error_event e)

  abbrev pub parse_error_event : Text → Dict
  parse_error_event e = action_event (codes "agent_decision_error") empty (
      error_result (
        codes "Decision parse error: "
        ++ e
        ++ codes " Return a valid JSON tool call with tool/args and re-check the skill contracts."))

  unfoldable pub emit_decision_parse_error : Text → Run (Loop W) Dict
  emit_decision_parse_error e = do send (parse_error_event e); pure (parse_error_event e)

  -- What follows an attempt to make a plan
  unfoldable pub retry : Run (Loop W) Value → Value ⊎ Text → Run (Loop W) Value
  retry again (inl plan) = pure plan
  retry again (inr e) = do observation ← emit_llm_runtime_error e; append_history observation; again

  -- The first number is how many more errors of the model are forgiven.
  pub attempt_plan : ℕ → Text → Option Value → Run (Loop W) Value
  attempt_plan zero goal feedback =
      catch_runtime (generate_plan goal feedback)
      >>= retry (fail (agent_error (codes "LLM runtime failed repeatedly during planning.")))
  attempt_plan (suc more) goal feedback =
      catch_runtime (generate_plan goal feedback) >>= retry (attempt_plan more goal feedback)

  -- One turn of the planning loop up to the message; `max_iterations` errors in a row end it.
  pub propose : Text → Option Value → Run (Loop W) Value
  unfolding attempt_plan
  propose goal feedback = do
    plan ← attempt_plan (rt.max_iterations - 1) goal feedback
    send (message_event "plan" plan)
    pure plan

  abbrev pub take_reply : Dict → List Incoming → Loop W → Loop W
  take_reply reply rest s = record_action (replied reply) (record s { inbox = rest })

  abbrev pub skip_to : List Incoming → Loop W → Loop W
  skip_to rest s = record s { inbox = rest }

  -- `reply["approved"]`; a plan that is turned down is made again with the feedback.
  pub judge : (Value → Run (Loop W) Value) → Text → Value → Option Value → Dict → Run (Loop W) Value
  unfolding propose
  judge again goal plan none reply = fail (other_error (codes "'approved'"))
  judge again goal plan (some v) reply =
      if truth v
      then pure plan
      else propose goal (some (feedback_of (get_field "text" reply))) >>= again

  -- The rest of the planning loop in review mode, by the events that are to be received.
  pub review : List Incoming → Text → Value → Run (Loop W) Value
  unfolding judge
  review [] goal plan s = (failed blocked, skip_to [] s)
  review (no_event ∷ rest) goal plan s = review rest goal plan s
  review (receive_error e ∷ rest) goal plan s = (failed (other_error e), skip_to rest s)
  review (arrival event ∷ rest) goal plan s =
      let later = review rest goal plan s in
      if is_type "stop" event
      then (
        failed (agent_error (codes "Received stop while waiting for user reply.")),
        skip_to rest s,
      )
      else if is_type "user_reply" event
      then judge (review rest goal) goal plan (get_field "approved" event) event
          (take_reply event rest s)
      else later

  abbrev pub review_inbox : Text → Value → Run (Loop W) Value
  review_inbox goal plan s = review s.inbox goal plan s

  pub planning_phase : Text → Text → Run (Loop W) Value
  unfolding review propose
  planning_phase goal approval_mode = do
    plan ← propose goal none
    (if not (text_eq approval_mode (codes "review")) then pure plan else review_inbox goal plan)

  -- `_wait_for_user_reply`, by the events that are to be received
  pub wait_in : List Incoming → Run (Loop W) Dict
  wait_in [] s = (failed blocked, skip_to [] s)
  wait_in (no_event ∷ rest) s = wait_in rest s
  wait_in (receive_error e ∷ rest) s = (failed (other_error e), skip_to rest s)
  wait_in (arrival event ∷ rest) s =
      let later = wait_in rest s in
      if is_type "stop" event
      then (
        failed (agent_error (codes "Received stop while waiting for user reply.")),
        skip_to rest s,
      )
      else if is_type "user_reply" event
      then (returned event, take_reply event rest s)
      else later

  unfoldable pub wait_for_user_reply : Run (Loop W) Dict
  unfolding wait_in
  wait_for_user_reply s = wait_in s.inbox s

  -- The texts of the items that are not blank, and the items that are such texts
  steps_of : Items → List Value
  steps_of nil = []
  steps_of (cons v rest) =
      let later = steps_of rest in
      if is_empty (rt.py.strip (to_str rt.py v))
      then later
      else str (rt.py.strip (to_str rt.py v)) ∷ later

  refs_of : Items → List Value
  refs_of nil = []
  refs_of (cons (str s) rest) =
      let later = refs_of rest in
      if is_empty (rt.py.strip s) then later else str (rt.py.strip s) ∷ later
  refs_of (cons _ rest) = refs_of rest

  abbrev listed : (Items → List Value) → Option Value → Value
  listed f (some (list xs)) = list (items (f xs))
  listed f _ = list nil

  abbrev goal_of : Text → Option Value → Value
  goal_of goal (some (str s)) = if is_empty (rt.py.strip s) then str goal else str s
  goal_of goal _ = str goal

  abbrev plan_of : Value → Value → Value → Dict
  plan_of goal steps refs =
      field "goal" goal (field "steps" steps (field "referenced_skills" refs empty))

  pub normalize_plan : Value → Text → Dict
  unfolding steps_of refs_of
  normalize_plan (dict plan) goal =
      plan_of (goal_of goal (get_field "goal" plan)) (listed steps_of (get_field "steps" plan))
        (listed refs_of (get_field "referenced_skills" plan))
  normalize_plan (str plan) goal = plan_of (str goal) (list (items (str plan ∷ []))) (list nil)
  normalize_plan _ goal = plan_of (str goal) (list nil) (list nil)

  abbrev with_doc :
      (Assoc Dict → Assoc Dict ⊎ Text) → Assoc Dict → Text → Dict ⊎ Text → Assoc Dict ⊎ Text
  with_doc next activated name (inl doc) = next (insert name doc activated)
  with_doc next activated name (inr e) = inr (
      codes "Unknown referenced skill '"
      ++ name
      ++ codes "' in plan: "
      ++ e
      ++ codes ". Re-planning with available skills only.")

  -- The documents of the skills, or what is wrong with the first that is unknown
  activate_names : Items → Assoc Dict → Assoc Dict ⊎ Text
  activate_names nil activated = inl activated
  activate_names (cons (str s) rest) activated =
      let name = rt.py.strip s in
      let skipped = activate_names rest activated in
      if is_empty name
      then skipped
      else with_doc (activate_names rest) activated name (rt.get_doc name)
  activate_names (cons _ rest) activated = activate_names rest activated

  abbrev names_in : Option Value → Items
  names_in (some (list xs)) = xs
  names_in _ = nil

  pub settle :
      (Dict → Run (Loop W) (Dict × Assoc Dict))
      → Text
      → Text
      → Dict
      → Assoc Dict ⊎ Text
      → Run (Loop W) (Dict × Assoc Dict)
  unfolding planning_phase normalize_plan
  settle again goal approval_mode plan (inl activated) = pure (plan, activated)
  settle again goal approval_mode plan (inr e) = do
    send (message_event "status" (str e))
    raw ← planning_phase goal approval_mode
    again (normalize_plan raw goal)

  -- The number is how many attempts are left; the source makes three.
  pub activate : ℕ → Text → Text → Dict → Run (Loop W) (Dict × Assoc Dict)
  unfolding settle activate_names
  activate zero goal approval_mode plan = fail (
      agent_error (
        codes
          "Failed to produce a valid plan after 3 replan attempts due to unknown referenced_skills."))
  activate (suc more) goal approval_mode plan =
      settle (activate more goal approval_mode) goal approval_mode plan
        (activate_names (names_in (get_field "referenced_skills" plan)) [])

  abbrev pub activate_referenced_skills : Text → Text → Dict → Run (Loop W) (Dict × Assoc Dict)
  activate_referenced_skills = activate 3

-- ===== src/Agent/Act.antt =====
-- agent/agent.py: `_act_on_decision`, `_handle_control_decision`, `_emit_control_action_error`.
pub mod Once
use strange_claw.Prelude.{
  ℕ, Bool, true, false, not, ◌||◌, Option, none, some, List, [], ◌∷◌, ◌++◌, ◌⊎◌, inl, inr, String,
  if◌then◌else◌,
}
use strange_claw.Prelude.Int.{pos}
use strange_claw.Text.{Text, codes, text_eq, elem, is_empty}
use strange_claw.Value.{Value, null, str, dict, Dict, empty, get_field, field, text}
use strange_claw.Assoc.{Assoc, lookup}
use strange_claw.Python.{Outcome}
use strange_claw.Agent.Delegation.{spawn_subagent}
use strange_claw.Agent.Spawn.{Delegate, handle_spawn_subagent}
use strange_claw.Agent.Run.{
  Runtime, ToolCall, ToolResult, Loop, Action, acted, Failure, other_error, Answer, returned,
  failed, Run, pure, fail, ◌>>=◌, ◌>>◌, send, record_action,
}
use strange_claw.Agent.Plan.{
  action_event, message_event, error_result, planning_phase, wait_for_user_reply, feedback_of,
}
use strange_claw.Agent.Output.{build_done_event}

abbrev pub control_tool_names : List Text
control_tool_names =
    codes "agent_done"
    ∷ codes "agent_clarify"
    ∷ codes "agent_replan"
    ∷ codes "agent_read_skill_file"
    ∷ []

-- The dictionary that `_act_on_decision` returns. `replanned` holds the new plan where the source sets
-- the flag and puts the new plan at `plan`.
pub record Acted : Type 0 where
  pub done : Bool
  pub plan : Dict
  pub observation : Option Dict
  pub replanned : Option Value

abbrev pub going_on : Dict → Option Dict → Acted
going_on plan observation = record {
  done = false;
  plan = plan;
  observation = observation;
  replanned = none;
}

abbrev mark : {W : Type 0} → Text → Dict → Run (Loop W) (Unit {0})
mark tool args s = (returned tt, record_action (acted tool args) s)

abbrev is_some_doc : Option Dict → Bool
is_some_doc none = false
is_some_doc (some d) = true

module _ {W : Type 0} (rt : Runtime W) where
  unfoldable pub emit_control_error : Text → Dict → Text → Dict → Run (Loop W) Acted
  emit_control_error tool args message plan = do
    send (action_event tool args (error_result message))
    pure (going_on plan (some (action_event tool args (error_result message))))

  -- What `_handle_spawn_subagent` does, with the count and the world of this agent
  abbrev pub spawned : Outcome Dict × Delegate W → Loop W → Answer Dict × Loop W
  spawned (Outcome.returned event, d) s =
      (returned event, record s { world = d.runner_state; children_spawned = d.children_spawned })
  spawned (Outcome.raised e, d) s = (
    failed (other_error e),
    record s { world = d.runner_state; children_spawned = d.children_spawned },
  )

  unfoldable pub spawn : Dict → Run (Loop W) Dict
  spawn args s =
      spawned
        (handle_spawn_subagent rt.py rt.dumps rt.int_of rt.runner rt.parent args
          (record { children_spawned = s.children_spawned; runner_state = s.world; sent = [] }))
        s

  unfoldable pub act_spawn : Dict → Dict → Run (Loop W) Acted
  act_spawn args plan = do
    mark spawn_subagent args
    event ← spawn args
    send event
    pure (going_on plan (some event))

  abbrev executed : Outcome ToolResult × W → Loop W → Answer ToolResult × Loop W
  executed (Outcome.returned r, w) s = (returned r, record s { world = w })
  executed (Outcome.raised e, w) s = (failed (other_error e), record s { world = w })

  unfoldable pub execute_tool : ToolCall → Run (Loop W) ToolResult
  execute_tool decision s = executed (rt.execute decision s.world) s

  unfoldable pub act_tool : ToolCall → Dict → Run (Loop W) Acted
  act_tool decision plan = do
    mark decision.tool decision.args
    result ← execute_tool decision
    send (action_event decision.tool decision.args result)
    pure (going_on plan (some (action_event decision.tool decision.args result)))

  abbrev pub send_done : Text → Value → Bool → Text → Run (Loop W) (Unit {0})
  send_done goal plan success reply s =
      send (build_done_event rt s goal plan s.history success reply) s

  unfoldable pub act_done : ToolCall → Text → Dict → Option Value → Run (Loop W) Acted
  act_done decision goal plan (some (str reply)) =
      if is_empty (rt.py.strip reply)
      then emit_control_error decision.tool decision.args
          (codes "agent_done requires args.reply as a non-empty string.") plan
      else (do
        send_done goal (dict plan) true reply
        pure (record { done = true; plan = plan; observation = none; replanned = none }))
  act_done decision goal plan _ =
      emit_control_error decision.tool decision.args
        (codes "agent_done requires args.reply as a non-empty string.") plan

  unfoldable pub clarify : Text → Dict → Run (Loop W) Acted
  clarify question plan = do
    send (message_event "clarification" (str question))
    reply ← wait_for_user_reply rt
    pure (
        going_on plan (
          some (
            field "type" (text "clarification") (
              field "question" (str question)
                (field "user_reply" (feedback_of (get_field "text" reply)) empty)))))

  abbrev pub default_question : Text
  default_question = codes "Please clarify what you want next."

  unfoldable pub act_clarify : ToolCall → Dict → Option Value → Run (Loop W) Acted
  act_clarify decision plan none = clarify default_question plan
  act_clarify decision plan (some null) = clarify default_question plan
  act_clarify decision plan (some (str question)) =
      clarify (if is_empty question then default_question else question) plan
  act_clarify decision plan (some _) =
      emit_control_error decision.tool decision.args
        (codes "agent_clarify args.question must be a string when provided.") plan

  unfoldable pub replan : Text → Text → Text → Dict → Run (Loop W) Acted
  replan goal approval_mode feedback plan = do
    new_plan ← planning_phase rt goal approval_mode
    pure (record {
      done = false;
      plan = plan;
      observation =
          if is_empty feedback
          then none
          else some (field "type" (text "replan") (field "feedback" (str feedback) empty));
      replanned = some new_plan;
    })

  unfoldable pub act_replan : ToolCall → Text → Text → Dict → Option Value → Run (Loop W) Acted
  act_replan decision goal approval_mode plan none = replan goal approval_mode [] plan
  act_replan decision goal approval_mode plan (some null) = replan goal approval_mode [] plan
  act_replan decision goal approval_mode plan (some (str feedback)) =
      replan goal approval_mode feedback plan
  act_replan decision goal approval_mode plan (some _) =
      emit_control_error decision.tool decision.args
        (codes "agent_replan args.feedback must be a string when provided.") plan

  abbrev read_answer : (Text ⊎ Text) × W → Loop W → Answer ToolResult × Loop W
  read_answer (inl content, w) s = (
    returned (record { exit_code = pos 0; stdout = content; stderr = [] }),
    record s { world = w },
  )
  read_answer (inr e, w) s =
      (returned (error_result (codes "Skill file read error: " ++ e)), record s { world = w })

  unfoldable pub read_skill : Text → Text → Run (Loop W) ToolResult
  read_skill skill path s = read_answer (rt.read_file skill path s.world) s

  abbrev skill_args : Text → Text → Dict
  skill_args skill path = field "skill" (str skill) (field "path" (str path) empty)

  unfoldable pub act_read_text : ToolCall → Dict → Assoc Dict → Text → Text → Run (Loop W) Acted
  act_read_text decision plan activated skill path =
      if is_empty skill || is_empty path
      then emit_control_error decision.tool decision.args
          (codes "agent_read_skill_file requires args.skill and args.path as non-empty strings.")
          plan
      else if not (is_some_doc (lookup skill activated))
      then emit_control_error decision.tool (skill_args skill path)
          (codes "Skill file read denied: skill '"
            ++ skill
            ++ codes "' is not activated for this plan.")
          plan
      else (do
        result ← read_skill skill path
        send (action_event (codes "agent_read_skill_file") (skill_args skill path) result)
        pure (
            going_on plan
              (some (action_event (codes "agent_read_skill_file") (skill_args skill path) result))))

  unfoldable pub act_read :
      ToolCall → Dict → Assoc Dict → Option Value → Option Value → Run (Loop W) Acted
  act_read decision plan activated (some (str skill)) (some (str path)) =
      act_read_text decision plan activated skill path
  act_read decision plan activated _ _ =
      emit_control_error decision.tool decision.args
        (codes "agent_read_skill_file requires args.skill and args.path as non-empty strings.") plan

  unfoldable pub handle_control_decision :
      ToolCall → Text → Text → Dict → Assoc Dict → Run (Loop W) Acted
  handle_control_decision decision goal approval_mode plan activated =
      if text_eq decision.tool (codes "agent_done")
      then act_done decision goal plan (get_field "reply" decision.args)
      else if text_eq decision.tool (codes "agent_clarify")
      then if not rt.clarify_enabled
        then emit_control_error decision.tool decision.args
            (codes
              "clarification is unavailable in this context; proceed on stated assumptions or finish via agent_done and report what you need.")
            plan
        else act_clarify decision plan (get_field "question" decision.args)
      else if text_eq decision.tool (codes "agent_replan")
      then act_replan decision goal approval_mode plan (get_field "feedback" decision.args)
      else if text_eq decision.tool (codes "agent_read_skill_file")
      then act_read decision plan activated (get_field "skill" decision.args)
          (get_field "path" decision.args)
      else emit_control_error decision.tool decision.args (codes "Unsupported control tool.") plan

  unfoldable pub act_on_decision : ToolCall → Text → Text → Dict → Assoc Dict → Run (Loop W) Acted
  act_on_decision decision goal approval_mode plan activated =
      if text_eq decision.tool spawn_subagent
      then act_spawn decision.args plan
      else if elem decision.tool control_tool_names
      then handle_control_decision decision goal approval_mode plan activated
      else act_tool decision plan

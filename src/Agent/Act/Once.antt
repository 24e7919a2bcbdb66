-- ===== src/Agent/Act/Once.antt =====
-- One decision runs at most one tool or child, after the approval, and sends a done event only if it
-- ends the task.
use strange_claw.Prelude.{
  ℕ, suc, ◌≡◌, refl, Bool, true, false, not, ap, ◌||◌, ◌&&◌, Option, none, some, List, ◌⊎◌, inl,
  inr, arith,
}
use strange_claw.Text.{Text, codes, text_eq, elem, is_empty}
use strange_claw.Value.{
  Value, null, boolean, int, float, str, list, tuple, dict, text, Dict, get_field, get, key_eq,
}
use strange_claw.Assoc.{Assoc, lookup}
use strange_claw.Python.{Outcome}
use strange_claw.Agent.Delegation.{spawn_subagent}
use strange_claw.Agent.Spawn.{Delegate}
use strange_claw.Agent.Spawn.Event.{IsAction, handle_spawn_subagent-IsAction}
use strange_claw.Agent.Run.{
  Runtime, ToolCall, ToolResult, Loop, Action, Run, pure, send, is_type, type_is,
}
use strange_claw.Agent.Run.Triple.{
  Post, Triple, Triple-pure, Triple-if, Triple-bind, Triple-then, Triple-weaken,
}
use strange_claw.Agent.Log.{
  On, is_plan, has_role, Within, Ready, Ready-Steady, Within_done, Ready-replied, Ready-acted,
  Ready-more, Within_more, send-Triple, Triple_quiet,
}
use strange_claw.Agent.Plan.{action_event, message_event, error_result}
use strange_claw.Agent.Plan.Approval.{planning_phase-Triple, wait_for_user_reply-Triple}
use strange_claw.Agent.Output.Done.{build_done_event-type}
use strange_claw.Agent.Act.{
  Acted, mark, emit_control_error, spawned, spawn, act_spawn, executed, execute_tool, act_tool,
  send_done, act_done, clarify, act_clarify, replan, act_replan, read_answer, read_skill,
  act_read_text, act_read, handle_control_decision, act_on_decision, skill_args, is_some_doc,
  control_tool_names,
}

module _ {W : Type 0} (rt : Runtime W) where
  module _ (strict : Bool) (runs d : ℕ) where
    pub send_done-Triple :
        (goal : Text) (plan : Value) (success : Bool) (reply : Text)
        → Triple
            (On (Within strict runs d))
            (send_done rt goal plan success reply)
            (λ _. On (Within strict runs (suc d)))
            (On (Within strict runs d))
    send_done-Triple goal plan success reply = record {
      at = λ s w.
          (send-Triple (Within strict runs d) (Within strict runs (suc d)) _ (λ t.
              Within_done strict runs d _ t
                (build_done_event-type rt s goal plan s.history success reply))).at
            s w;
    }

  module _ (strict : Bool) (runs d : ℕ) (approval_mode : Text)
      (reviewed : strict ≡ true → text_eq approval_mode (codes "review") ≡ true) where
    abbrev Clear : Loop W → Type 0
    Clear = On (Ready strict runs d)

    -- After a decision: the task is over with its done event, or it goes on.
    pub data After (o : Acted) (t : List Action) : Type 0 where
      over : o.done ≡ true → o.replanned ≡ none → Within strict (suc runs) (suc d) t → After o t
      on : o.done ≡ false → Ready strict (suc runs) d t → After o t

    abbrev Fine : Run (Loop W) Acted → Type 0
    Fine m = Triple Clear m (λ o. On (After o)) (On (Within strict (suc runs) d))

    lift_on : (o : Acted) (t : List Action) → o.done ≡ false → Ready strict runs d t → After o t
    lift_on o t e r = on e (Ready-more strict runs (suc runs) d t (omega arith) r)

    -- Sending an action or a message, then going on
    send-Clear :
        (event : Dict)
        → is_type "done" event ≡ false
        → is_plan event ≡ false
        → Triple Clear (send event) (λ _. Clear) Clear
    send-Clear event h k =
        send-Triple (Ready strict runs d) (Ready strict runs d) event
          (λ t. Ready-Steady strict runs d event t h k)

    relax :
        {A : Type 0} (m : Run (Loop W) A)
        → Triple Clear m (λ _. Clear) Clear
        → Triple Clear m (λ _. Clear) (On (Within strict (suc runs) d))
    relax m t =
        Triple-weaken m t (λ s p. p) (λ a s p. p)
          (λ s r. Within_more strict runs (suc runs) d s.trace (omega arith) r.within)

    pure-Fine : (o : Acted) → o.done ≡ false → Fine (pure o)
    pure-Fine o e = Triple-pure o (λ s r. lift_on o s.trace e r)

    emit-Fine :
        (tool : Text) (args : Dict) (message : Text) (plan : Dict)
        → Fine (emit_control_error rt tool args message plan)
    unfolding emit_control_error get key_eq text_eq
    emit-Fine tool args message plan =
        Triple-then _ _
          (relax _ (send-Clear (action_event tool args (error_result message)) refl refl))
          λ _. pure-Fine _ refl

    act_done-Fine :
        (c : ToolCall) (goal : Text) (plan : Dict) (o : Option Value)
        → Fine (act_done rt c goal plan o)
    unfolding act_done
    act_done-Fine c goal plan (some (str reply)) =
        Triple-if (is_empty (rt.py.strip reply)) _ _ (λ _. emit-Fine _ _ _ plan)
          λ _.
            Triple-then _ _
              (Triple-weaken _ (send_done-Triple strict (suc runs) d goal (dict plan) true reply)
                (λ s r. Within_more strict runs (suc runs) d s.trace (omega arith) r.within)
                (λ a s w. w) (λ s w. w))
              (λ _. Triple-pure _ (λ s w. over refl refl w))
    act_done-Fine c goal plan none = emit-Fine _ _ _ plan
    act_done-Fine c goal plan (some null) = emit-Fine _ _ _ plan
    act_done-Fine c goal plan (some (boolean b)) = emit-Fine _ _ _ plan
    act_done-Fine c goal plan (some (int n)) = emit-Fine _ _ _ plan
    act_done-Fine c goal plan (some (float n)) = emit-Fine _ _ _ plan
    act_done-Fine c goal plan (some (list xs)) = emit-Fine _ _ _ plan
    act_done-Fine c goal plan (some (tuple xs)) = emit-Fine _ _ _ plan
    act_done-Fine c goal plan (some (dict xs)) = emit-Fine _ _ _ plan

    clarify-Fine : (question : Text) (plan : Dict) → Fine (clarify rt question plan)
    unfolding clarify get key_eq text_eq
    clarify-Fine question plan =
        Triple-then _ _
          (relax _ (send-Clear (message_event "clarification" (str question)) refl refl))
          λ _.
            Triple-bind _ _
              (relax _ (
                wait_for_user_reply-Triple rt (Ready strict runs d)
                  (λ r t. Ready-replied strict runs d r t)))
              λ reply. pure-Fine _ refl

    act_clarify-Fine :
        (c : ToolCall) (plan : Dict) (o : Option Value) → Fine (act_clarify rt c plan o)
    unfolding act_clarify
    act_clarify-Fine c plan none = clarify-Fine _ plan
    act_clarify-Fine c plan (some null) = clarify-Fine _ plan
    act_clarify-Fine c plan (some (str q)) = clarify-Fine _ plan
    act_clarify-Fine c plan (some (boolean b)) = emit-Fine _ _ _ plan
    act_clarify-Fine c plan (some (int n)) = emit-Fine _ _ _ plan
    act_clarify-Fine c plan (some (float n)) = emit-Fine _ _ _ plan
    act_clarify-Fine c plan (some (list xs)) = emit-Fine _ _ _ plan
    act_clarify-Fine c plan (some (tuple xs)) = emit-Fine _ _ _ plan
    act_clarify-Fine c plan (some (dict xs)) = emit-Fine _ _ _ plan

    replan-Fine :
        (goal feedback : Text) (plan : Dict) → Fine (replan rt goal approval_mode feedback plan)
    unfolding replan
    replan-Fine goal feedback plan =
        Triple-bind _ _
          (Triple-weaken _ (planning_phase-Triple rt strict runs d approval_mode reviewed goal)
            (λ s r. r.within) (λ a s r. r)
            (λ s w. Within_more strict runs (suc runs) d s.trace (omega arith) w))
          λ raw. pure-Fine _ refl

    act_replan-Fine :
        (c : ToolCall) (goal : Text) (plan : Dict) (o : Option Value)
        → Fine (act_replan rt c goal approval_mode plan o)
    unfolding act_replan
    act_replan-Fine c goal plan none = replan-Fine goal _ plan
    act_replan-Fine c goal plan (some null) = replan-Fine goal _ plan
    act_replan-Fine c goal plan (some (str q)) = replan-Fine goal q plan
    act_replan-Fine c goal plan (some (boolean b)) = emit-Fine _ _ _ plan
    act_replan-Fine c goal plan (some (int n)) = emit-Fine _ _ _ plan
    act_replan-Fine c goal plan (some (float n)) = emit-Fine _ _ _ plan
    act_replan-Fine c goal plan (some (list xs)) = emit-Fine _ _ _ plan
    act_replan-Fine c goal plan (some (tuple xs)) = emit-Fine _ _ _ plan
    act_replan-Fine c goal plan (some (dict xs)) = emit-Fine _ _ _ plan

    abbrev ActedOnce : Loop W → Type 0
    ActedOnce = On (Ready strict (suc runs) d)

    mark-Triple :
        (tool : Text) (args : Dict)
        → Triple Clear (mark tool args) (λ _. ActedOnce) (On (Within strict (suc runs) d))
    mark-Triple tool args = record { at = λ s r. Ready-acted strict runs d tool args s.trace r }

    executed-trace : (x : Outcome ToolResult × W) (s : Loop W) → (executed rt x s).1.trace ≡ s.trace
    executed-trace (Outcome.returned r, w) s = refl
    executed-trace (Outcome.raised e, w) s = refl

    execute-Triple :
        (c : ToolCall)
        → Triple ActedOnce (execute_tool rt c) (λ _. ActedOnce) (On (Within strict (suc runs) d))
    unfolding execute_tool
    execute-Triple c =
        Triple-weaken _ (Triple_quiet (Ready strict (suc runs) d) _ (λ s. executed-trace _ s))
          (λ s r. r) (λ a s r. r) (λ s r. r.within)

    send-Acted :
        (event : Dict)
        → is_type "done" event ≡ false
        → is_plan event ≡ false
        → Triple ActedOnce (send event) (λ _. ActedOnce) ActedOnce
    send-Acted event h k =
        send-Triple (Ready strict (suc runs) d) (Ready strict (suc runs) d) event
          (λ t. Ready-Steady strict (suc runs) d event t h k)

    -- What a call of the tool for children returns is an action.
    abbrev IsActionEvent : Dict → Type 0
    IsActionEvent event = get_field "type" event ≡ some (text "action")

    Post-spawned :
        (x : Outcome Dict × Delegate W) (s : Loop W)
        → IsAction x.0
        → ActedOnce s
        → Post
            (λ event s'. IsActionEvent event × ActedOnce s')
            (On (Within strict (suc runs) d))
            (spawned rt x s)
    Post-spawned (Outcome.returned event, after) s h r = (h, r)
    Post-spawned (Outcome.raised e, after) s h r = r.within

    spawn-Triple :
        (args : Dict)
        → Triple ActedOnce
            (spawn rt args)
            (λ event s. IsActionEvent event × ActedOnce s)
            (On (Within strict (suc runs) d))
    unfolding spawn
    spawn-Triple args = record {
      at = λ s r.
          Post-spawned _ s
            (handle_spawn_subagent-IsAction rt.py rt.dumps rt.int_of rt.runner rt.parent args _) r;
    }

    not_done : (event : Dict) → IsActionEvent event → is_type "done" event ≡ false
    unfolding text_eq
    not_done event e = ap (type_is "done") e

    not_plan : (event : Dict) → IsActionEvent event → is_plan event ≡ false
    unfolding text_eq
    not_plan event e = ap (λ v. type_is "message" v && has_role "plan" event) e

    send-sent :
        (event : Dict)
        → Triple
            (λ s. IsActionEvent event × ActedOnce s)
            (send event)
            (λ _. ActedOnce)
            (On (Within strict (suc runs) d))
    send-sent event = record {
      at = λ s p.
          (Triple-weaken _ (send-Acted event (not_done event p.0) (not_plan event p.0)) (λ s r. r)
              (λ a s r. r) (λ s r. r.within)).at
            s p.1;
    }

    read_answer-trace :
        (x : (Text ⊎ Text) × W) (s : Loop W) → (read_answer rt x s).1.trace ≡ s.trace
    read_answer-trace (inl c, w) s = refl
    read_answer-trace (inr e, w) s = refl

    read-Clear : (skill path : Text) → Triple Clear (read_skill rt skill path) (λ _. Clear) Clear
    unfolding read_skill
    read-Clear skill path = Triple_quiet (Ready strict runs d) _ (λ s. read_answer-trace _ s)

    act_spawn-Fine : (args plan : Dict) → Fine (act_spawn rt args plan)
    unfolding act_spawn
    act_spawn-Fine args plan = Triple-then _ _ (mark-Triple spawn_subagent args) λ _.
        Triple-bind _ _ (spawn-Triple args)
          λ event. Triple-then _ _ (send-sent event) λ _. Triple-pure _ (λ s r. on refl r)

    act_tool-Fine : (c : ToolCall) (plan : Dict) → Fine (act_tool rt c plan)
    unfolding act_tool get key_eq text_eq
    act_tool-Fine c plan = Triple-then _ _ (mark-Triple c.tool c.args) λ _.
        Triple-bind _ _ (execute-Triple c) λ result.
          Triple-then _ _
            (Triple-weaken _ (send-Acted (action_event c.tool c.args result) refl refl) (λ s r. r)
              (λ a s r. r) (λ s r. r.within))
            λ _. Triple-pure _ (λ s r. on refl r)

    act_read_text-Fine :
        (c : ToolCall) (plan : Dict) (activated : Assoc Dict) (skill path : Text)
        → Fine (act_read_text rt c plan activated skill path)
    unfolding act_read_text get key_eq text_eq
    act_read_text-Fine c plan activated skill path =
        Triple-if (is_empty skill || is_empty path) _ _ (λ _. emit-Fine _ _ _ plan)
          λ _.
            Triple-if (not (is_some_doc (lookup skill activated))) _ _ (λ _. emit-Fine _ _ _ plan)
              λ _. Triple-bind _ _ (relax _ (read-Clear skill path)) λ result.
                Triple-then _ _
                  (relax _ (
                    send-Clear
                      (action_event (codes "agent_read_skill_file") (skill_args rt skill path)
                        result)
                      refl refl))
                  λ _. pure-Fine _ refl

    act_read-Fine :
        (c : ToolCall) (plan : Dict) (activated : Assoc Dict) (skill path : Option Value)
        → Fine (act_read rt c plan activated skill path)
    unfolding act_read
    act_read-Fine c plan activated (some (str skill)) (some (str path)) =
        act_read_text-Fine c plan activated skill path
    act_read-Fine c plan activated _ _ = search emit-Fine

    control-Fine :
        (c : ToolCall) (goal : Text) (plan : Dict) (activated : Assoc Dict)
        → Fine (handle_control_decision rt c goal approval_mode plan activated)
    unfolding handle_control_decision
    control-Fine c goal plan activated =
        Triple-if (text_eq c.tool (codes "agent_done")) _ _ (λ _. act_done-Fine c goal plan _)
          λ _.
            Triple-if (text_eq c.tool (codes "agent_clarify")) _ _
              (λ _.
                Triple-if (not rt.clarify_enabled) _ _ (λ _. emit-Fine _ _ _ plan)
                  (λ _. act_clarify-Fine c plan _))
              λ _.
                Triple-if (text_eq c.tool (codes "agent_replan")) _ _
                  (λ _. act_replan-Fine c goal plan _)
                  λ _.
                    Triple-if (text_eq c.tool (codes "agent_read_skill_file")) _ _
                      (λ _. act_read-Fine c plan activated _ _) λ _. emit-Fine _ _ _ plan

    pub act_on_decision-Fine :
        (c : ToolCall) (goal : Text) (plan : Dict) (activated : Assoc Dict)
        → Triple
            (On (Ready strict runs d))
            (act_on_decision rt c goal approval_mode plan activated)
            (λ o. On (After o))
            (On (Within strict (suc runs) d))
    unfolding act_on_decision
    act_on_decision-Fine c goal plan activated =
        Triple-if (text_eq c.tool spawn_subagent) _ _ (λ _. act_spawn-Fine c.args plan)
          λ _.
            Triple-if (elem c.tool control_tool_names) _ _ (λ _. control-Fine c goal plan activated)
              λ _. act_tool-Fine c plan

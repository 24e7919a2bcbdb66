-- ===== src/Agent/Spawn.antt =====
-- agent/agent.py: `_handle_spawn_subagent`, `_emit_subagent_observation` and
-- `_shape_subagent_envelope`; agent/tools.py: `wrap_external_data`. The runner of children is an
-- argument, as the agent takes any object with the method `run`; so are `json.dumps` and `int`.
use strange_claw.Prelude.{
  ℕ, suc, Bool, true, false, not, Option, none, some, List, [], ◌∷◌, ◌++◌, String, take, leb,
  if◌then◌else◌,
}
use strange_claw.Prelude.Int.{ℤ, pos}
use strange_claw.Text.{Text, codes}
use strange_claw.Value.{
  Value, null, boolean, int, str, list, dict, Items, nil, cons, Dict, empty, get_field, field, text,
  items, name, put,
}
use strange_claw.Python.{Platform, Outcome, returned, raised, to_str}
use strange_claw.Broker.Checked.{Checked, ok, value_error, crashed}
use strange_claw.Broker.Config.{truth}
use strange_claw.Agent.Delegation.{Request, read_pos_int_field, truncate_to, build_subagent_request}
pub mod Limit
pub mod Event

-- What the parent agent is set up with: the flag, the section of the settings, and its own tools.
pub record Parent : Type 0 where
  pub subagents_enabled : Bool
  pub settings : Dict
  pub tools : List Text

-- What a call changes: the number of children of this task, the state of the runner, and the events
-- sent, the newest first.
pub record Delegate (R : Type 0) : Type 0 where
  pub children_spawned : ℕ
  pub runner_state : R
  pub sent : List Dict

abbrev pub Runner : Type 0 → Type 0
Runner R = Request → R → Outcome Value × R

abbrev bind : {A B : Type 0} → Outcome A → (A → Outcome B) → Outcome B
bind (returned a) f = f a
bind (raised e) f = raised e

to_outcome : {A : Type 0} → Checked A → Outcome A
to_outcome (ok a) = returned a
to_outcome (value_error e) = raised e
to_outcome (crashed e) = raised e

abbrev refusal : String → Text → Value
refusal status reason = dict (
    field "success" (boolean false)
      (field "status" (text status) (field "reason" (str reason) empty)))

abbrev is_true : Option Value → Bool
is_true none = false
is_true (some v) = truth v

abbrev or_else_value : Value → Option Value → Value
or_else_value fallback none = fallback
or_else_value fallback (some v) = v

-- `shaped[key] = value`
abbrev set : String → Value → Dict → Dict
set key v d = put (name (codes key)) v d

module _ {W R : Type 0} (py : Platform W) (dumps : Dict → Text) (int_of : Value → Outcome ℤ)
    (runner : Option (Runner R)) (p : Parent) where
  with_child_id : Option Value → Dict → Dict
  with_child_id o shaped =
      if is_true o then set "child_id" (str (to_str py (or_else_value null o))) shaped else shaped

  with_duration : Option Value → Dict → Dict
  with_duration none shaped = shaped
  with_duration (some null) shaped = shaped
  with_duration (some v) shaped = set "duration_seconds" v shaped

  with_text : ℕ → String → Option Value → Dict → Dict
  with_text limit key none shaped = shaped
  with_text limit key (some null) shaped = shaped
  with_text limit key (some v) shaped = set key (str (truncate_to py (to_str py v) limit)) shaped

  -- `int(item.get("size_bytes", 0) or 0)`
  size_of : Option Value → Outcome ℤ
  size_of o = if is_true o then int_of (or_else_value null o) else returned (pos 0)

  shape_file : Dict → Outcome Value
  unfolding size_of
  shape_file item = bind (size_of (get_field "size_bytes" item)) λ size. returned (
      dict (
        field "path" (str (to_str py (or_else_value (text "") (get_field "path" item))))
          (field "size_bytes" (int size) empty)))

  shape_files : Items → Outcome Items
  unfolding shape_file
  shape_files nil = returned nil
  shape_files (cons (dict item) rest) =
      bind (shape_file item) λ file. bind (shape_files rest) λ files. returned (cons file files)
  shape_files (cons _ rest) = shape_files rest

  with_files : Option Value → Dict → Outcome Dict
  unfolding shape_files
  with_files (some (list xs)) shaped =
      bind (shape_files xs) λ files. returned (set "files" (list files) shaped)
  with_files _ shaped = returned shaped

  first_events : ℕ → Items → Items
  first_events (suc n) (cons v xs) = cons v (first_events n xs)
  first_events _ _ = nil

  with_events : Option Value → Dict → Dict
  unfolding first_events
  with_events (some (list xs)) shaped = set "events_summary" (list (first_events 50 xs)) shaped
  with_events _ shaped = shaped

  shape_dict : Dict → Outcome Dict
  unfolding to_outcome with_child_id with_duration with_text with_files with_events
  shape_dict envelope =
      bind (to_outcome (read_pos_int_field py p.settings "max_result_chars" 20000)) λ limit.
        let base = field "success" (boolean (is_true (get_field "success" envelope))) (
          field "status"
            (str (to_str py (or_else_value (text "child_failed") (get_field "status" envelope))))
            empty) in
        let named = with_child_id (get_field "child_id" envelope) base in
        let timed = with_duration (get_field "duration_seconds" envelope) named in
        let reason = with_text limit "reason" (get_field "reason" envelope) timed in
        let reply = with_text limit "reply" (get_field "reply" envelope) reason in
        let summary = with_text limit "state_summary" (get_field "state_summary" envelope) reply in
        bind (with_files (get_field "files" envelope) summary)
          λ shaped. returned (with_events (get_field "events_summary" envelope) shaped)

  wrap_external_data : Dict → Text
  wrap_external_data payload =
      codes "--- BEGIN DATA ---\n" ++ dumps payload ++ codes "\n--- END DATA ---"

  -- The event of the observation. `envelope.get("success")` is asked of the envelope itself.
  observation : Dict → Value → Outcome Dict
  unfolding shape_dict wrap_external_data
  observation args (dict envelope) = bind (shape_dict envelope) λ shaped. returned (
      field "type" (text "action") (
        field "tool" (text "spawn_subagent") (
          field "args" (dict args) (
            field "result"
              (dict (
                field "exit_code"
                  (int (pos (if is_true (get_field "success" envelope) then 0 else 1)))
                  (field "stdout" (str (wrap_external_data shaped))
                    (field "stderr" (text "") empty))))
              empty))))
  observation args _ = raised (codes "object has no attribute 'get'")

  send : Outcome Dict → Delegate R → Outcome Dict × Delegate R
  send (returned event) s = (returned event, record s { sent = event ∷ s.sent })
  send (raised e) s = (raised e, s)

  emit_observation : Dict → Value → Delegate R → Outcome Dict × Delegate R
  unfolding observation send
  emit_observation args envelope s = send (observation args envelope) s

  -- An exception of the runner is an observation.
  after_run : Dict → Outcome Value → Delegate R → Outcome Dict × Delegate R
  unfolding emit_observation
  after_run args (returned envelope) s = emit_observation args envelope s
  after_run args (raised e) s = emit_observation args (refusal "child_failed" e) s

  run_child : Dict → Request → Option (Runner R) → Delegate R → Outcome Dict × Delegate R
  unfolding after_run emit_observation
  run_child args r none s =
      emit_observation args
        (refusal "child_failed" (codes "subagent runtime is not available in this sandbox.")) s
  run_child args r (some run) s =
      let (answer, after) = run r s.runner_state in
      after_run args answer
        (record s { children_spawned = suc s.children_spawned; runner_state = after })

  below_limit : Dict → Request → Checked ℕ → Delegate R → Outcome Dict × Delegate R
  unfolding run_child emit_observation
  below_limit args r (ok max_children) s =
      if leb max_children s.children_spawned
      then emit_observation args
          (refusal "invalid_request" (
            codes "max_children_per_task ("
            ++ py.str_of (int (pos max_children))
            ++ codes ") reached for this task."))
          s
      else run_child args r runner s
  below_limit args r (value_error e) s = (raised e, s)
  below_limit args r (crashed e) s = (raised e, s)

  on_request : Dict → Checked Request → Delegate R → Outcome Dict × Delegate R
  unfolding below_limit emit_observation
  on_request args (ok r) s =
      below_limit args r (read_pos_int_field py p.settings "max_children_per_task" 3) s
  on_request args (value_error e) s = emit_observation args (refusal "invalid_request" e) s
  on_request args (crashed e) s = (raised e, s)

  if_enabled : Bool → Dict → Delegate R → Outcome Dict × Delegate R
  unfolding on_request emit_observation
  if_enabled false args s =
      emit_observation args
        (refusal "disabled" (
          codes
            "subagents are disabled; both tools.spawn_subagent and subagents.enabled must be true."))
        s
  if_enabled true args s = on_request args (build_subagent_request py p.settings p.tools args) s

  pub handle_spawn_subagent : Dict → Delegate R → Outcome Dict × Delegate R
  unfolding if_enabled
  handle_spawn_subagent args s = if_enabled p.subagents_enabled args s

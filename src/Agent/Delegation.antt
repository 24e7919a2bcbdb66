-- ===== src/Agent/Delegation.antt =====
-- agent/agent.py: `_build_subagent_request` and what it calls. `(None, error)` is `value_error`.
use strange_claw.Prelude.{
  ℕ, zero, suc, ◌-◌, min, max, Bool, true, false, not, Option, none, some, List, [], ◌∷◌, ◌++◌,
  String, length, take, leb, ◌==◌, ◌||◌, if◌then◌else◌,
}
use strange_claw.Prelude.Int.{ℤ, pos, negsuc}
use strange_claw.Text.{Text, codes, text_eq, elem, is_empty}
use strange_claw.Value.{Value, null, boolean, int, str, list, Items, nil, cons, Dict, get_field}
use strange_claw.Python.{Platform, Outcome, returned, raised}
use strange_claw.Broker.Checked.{Checked, ok, value_error, crashed, ◌>>=◌}
use strange_claw.Broker.Numbers.{to_positive_int}
use strange_claw.Text.Order.{sorted}
pub mod Bounds
pub mod Tests

abbrev pub spawn_subagent : Text
spawn_subagent = codes "spawn_subagent"

abbrev pub min_override : ℕ
min_override = 3

-- The dictionary that `_build_subagent_request` returns.
pub record Request : Type 0 where
  pub task : Text
  pub context : Text
  pub expected_output : Text
  pub allowed_tools : List Text
  pub referenced_skills : List Text
  pub max_iterations : ℕ
  pub timeout_seconds : ℕ

-- `if name not in result: result.append(name)`
abbrev append_new : Text → List Text → List Text
append_new name result = if elem name result then result else result ++ name ∷ []

module _ {W : Type 0} (py : Platform W) where
  or_fallback : ℕ → Outcome (Option ℕ) → Checked ℕ
  or_fallback fallback (returned none) = ok fallback
  or_fallback fallback (returned (some n)) = ok n
  or_fallback fallback (raised e) = crashed e

  setting_of : ℕ → Option Value → Checked ℕ
  unfolding or_fallback
  setting_of fallback none = ok fallback
  setting_of fallback (some v) = or_fallback fallback (to_positive_int py v)

  -- The fallbacks of the source are all positive, so that a missing key gives them unchanged.
  pub read_pos_int_field : Dict → String → ℕ → Checked ℕ
  unfolding setting_of
  read_pos_int_field settings key fallback = setting_of fallback (get_field key settings)

  pub truncate_to : Text → ℕ → Text
  truncate_to text limit =
      if limit == 0 || leb (length text) limit
      then text
      else take limit text
        ++ codes "\n...[truncated "
        ++ py.str_of (int (pos (length text - limit)))
        ++ codes " chars]..."

  stripped_task : Text → Checked Text
  stripped_task t =
      if is_empty (py.strip t)
      then value_error (codes "spawn_subagent requires args.task as a non-empty string.")
      else ok (py.strip t)

  -- `task`, stripped
  task_of : Option Value → Checked Text
  unfolding stripped_task
  task_of (some (str t)) = stripped_task t
  task_of _ = value_error (codes "spawn_subagent requires args.task as a non-empty string.")

  optional_text : String → Option Value → Checked Text
  optional_text key none = ok []
  optional_text key (some null) = ok []
  optional_text key (some (str t)) = ok t
  optional_text key (some _) =
      value_error
        (codes "spawn_subagent args." ++ codes key ++ codes " must be a string when provided.")

  -- The loop over `allowed_tools`
  pub check_tools : List Text → List Text → Items → Checked (List Text)
  check_tools parent result nil = ok result
  check_tools parent result (cons (str t) rest) =
      let name = py.strip t in
      let later = check_tools parent (append_new name result) rest in
      if is_empty name
      then value_error (codes "spawn_subagent args.allowed_tools must contain only tool names.")
      else if text_eq name spawn_subagent
      then value_error (codes "spawn_subagent cannot be delegated to a child (no recursion).")
      else if not (elem name parent)
      then value_error (
          codes "spawn_subagent args.allowed_tools includes a tool not enabled for the parent: "
          ++ name
          ++ codes ".")
      else later
  check_tools parent result (cons _ rest) =
      value_error (codes "spawn_subagent args.allowed_tools must contain only tool names.")

  pub validate_allowed_tools : List Text → Option Value → Checked (List Text)
  unfolding check_tools
  validate_allowed_tools parent none = ok (sorted parent)
  validate_allowed_tools parent (some null) = ok (sorted parent)
  validate_allowed_tools parent (some (list xs)) = do
    result ← check_tools parent [] xs
    ok (sorted result)
  validate_allowed_tools parent (some _) =
      value_error (codes "spawn_subagent args.allowed_tools must be an array of tool names.")

  check_skills : List Text → Items → Checked (List Text)
  check_skills result nil = ok result
  check_skills result (cons (str t) rest) =
      let later = check_skills (append_new (py.strip t) result) rest in
      if is_empty (py.strip t)
      then value_error
          (codes "spawn_subagent args.referenced_skills must contain only skill names.")
      else later
  check_skills result (cons _ rest) =
      value_error (codes "spawn_subagent args.referenced_skills must contain only skill names.")

  validate_referenced_skills : Option Value → Checked (List Text)
  unfolding check_skills
  validate_referenced_skills none = ok []
  validate_referenced_skills (some null) = ok []
  validate_referenced_skills (some (list xs)) = check_skills [] xs
  validate_referenced_skills (some _) =
      value_error (codes "spawn_subagent args.referenced_skills must be an array of skill names.")

  abbrev not_positive : String → Checked ℕ
  not_positive key = value_error (
      codes "spawn_subagent args."
      ++ codes key
      ++ codes " must be a positive integer when provided.")

  pub clamp_subagent_int : Option Value → ℕ → String → ℕ → Checked ℕ
  clamp_subagent_int none cap key floor = ok cap
  clamp_subagent_int (some null) cap key floor = ok cap
  clamp_subagent_int (some (int (pos (suc n)))) cap key floor =
      ok (max (min (suc n) cap) (min floor cap))
  clamp_subagent_int (some _) cap key floor = not_positive key

  -- `parent` is `self._tools.list_enabled()`.
  pub build_subagent_request : Dict → List Text → Dict → Checked Request
  unfolding task_of optional_text validate_allowed_tools validate_referenced_skills
      clamp_subagent_int read_pos_int_field truncate_to
  build_subagent_request settings parent args = do
    task ← task_of (get_field "task" args)
    context ← optional_text "context" (get_field "context" args)
    expected_output ← optional_text "expected_output" (get_field "expected_output" args)
    allowed_tools ← validate_allowed_tools parent (get_field "allowed_tools" args)
    referenced_skills ← validate_referenced_skills (get_field "referenced_skills" args)
    iterations_cap ← read_pos_int_field settings "max_iterations" 20
    max_iterations ←
        clamp_subagent_int (get_field "max_iterations" args) iterations_cap "max_iterations"
          min_override
    timeout_cap ← read_pos_int_field settings "timeout_seconds" 600
    timeout_seconds ←
        clamp_subagent_int (get_field "timeout_seconds" args) timeout_cap "timeout_seconds"
          min_override
    max_context_chars ← read_pos_int_field settings "max_context_chars" 20000
    ok (record {
      task = task;
      context = truncate_to context max_context_chars;
      expected_output = expected_output;
      allowed_tools = allowed_tools;
      referenced_skills = referenced_skills;
      max_iterations = max_iterations;
      timeout_seconds = timeout_seconds;
    })

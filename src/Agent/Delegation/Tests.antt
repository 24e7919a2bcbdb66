-- ===== src/Agent/Delegation/Tests.antt =====
-- The arguments of a model's call, and the request that they give.
use strange_claw.Prelude.{◌≡◌, refl, [], ◌∷◌}
use strange_claw.Prelude.Int.{pos}
use strange_claw.Text.{codes, text_eq, elem}
use strange_claw.Text.Order.{sorted}
use strange_claw.Value.{list, int, Dict, empty, field, text, items, get, key_eq}
use strange_claw.Broker.Checked.{ok, ◌>>=◌}
use strange_claw.Agent.Delegation.{
  Request, build_subagent_request, task_of, stripped_task, optional_text, validate_allowed_tools,
  check_tools, validate_referenced_skills, check_skills, clamp_subagent_int, read_pos_int_field,
  setting_of, or_fallback, truncate_to,
}
use strange_claw.Example.{py}

abbrev pub args : Dict
args = field "task" (text "find the release notes") (
    field "allowed_tools" (list (items (text "web_search" ∷ [])))
      (field "max_iterations" (int (pos 50)) (field "timeout_seconds" (int (pos 1)) empty)))

abbrev pub request : Request
request = record {
  task = codes "find the release notes";
  context = [];
  expected_output = [];
  allowed_tools = codes "web_search" ∷ [];
  referenced_skills = [];
  max_iterations = 20;
  timeout_seconds = 3;
}

pub build-request :
    build_subagent_request py empty (codes "shell" ∷ codes "web_search" ∷ []) args ≡ ok request
unfolding build_subagent_request sorted task_of stripped_task optional_text validate_allowed_tools
    check_tools validate_referenced_skills check_skills clamp_subagent_int read_pos_int_field
    setting_of or_fallback truncate_to get key_eq text_eq elem ◌>>=◌
build-request = refl

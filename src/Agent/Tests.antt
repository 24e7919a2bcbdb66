-- ===== src/Agent/Tests.antt =====
-- The theorems on a done event, and on a request for a child that may search the web.
use strange_claw.Prelude.{ℕ, suc, ◌≡◌, true, false, some, List, [], ◌∷◌, filter, ◌⊎◌, ◌++◌, refl}
use strange_claw.Prelude.Int.{ℤ, pos}
use strange_claw.Text.{Text, codes, text_eq}
use strange_claw.Value.{
  Value, boolean, int, list, dict, Dict, empty, field, text, items, get, get_field, name, key_eq,
}
use strange_claw.Python.{Outcome, returned}
use strange_claw.Agent.Protocol.{validate_event}
use strange_claw.Agent.Protocol.Event.{accepted, is_event, accepted-validate_event}
use strange_claw.Agent.Delegation.{spawn_subagent}
use strange_claw.Agent.Delegation.Bounds.{IsBounded, build_subagent_request-IsBounded}
use strange_claw.Agent.Delegation.Tests.{args, request, build-request}
use strange_claw.Agent.Child.{known_tools, build_child_config, enabled_tools}
use strange_claw.Agent.Child.Restriction.{
  both, enabled_tools-build_child_config, build_child_config-NoRecursion,
}
use strange_claw.Agent.Spawn.{Parent, Delegate, Runner, handle_spawn_subagent}
use strange_claw.Agent.Spawn.Limit.{Unchanged, StartedOne, handle_spawn_subagent-StartedOne}
use strange_claw.Agent.Envelope.{is_success, build_envelope}
use strange_claw.Agent.Envelope.Status.{status_of, build_envelope-status}
use strange_claw.Example.{py}

abbrev done_event : Dict
done_event = field "type" (text "done") (
    field "success" (boolean true) (
      field "reply" (text "ok")
        (field "state" (dict empty) (field "files" (list (items [])) empty))))

accepted-validate_event_example : accepted (validate_event done_event) ≡ is_event done_event
accepted-validate_event_example = accepted-validate_event done_event

abbrev parent_tools : List Text
parent_tools = codes "shell" ∷ codes "web_search" ∷ []

build_subagent_request-IsBounded_example : IsBounded py empty parent_tools request
build_subagent_request-IsBounded_example =
    build_subagent_request-IsBounded py empty parent_tools args request build-request

abbrev base_config : Dict
base_config = field "subagents" (dict (field "enabled" (boolean true) empty)) empty

enabled_tools-build_child_config_example :
    enabled_tools (build_child_config base_config parent_tools request 20)
    ≡ filter (both request.allowed_tools parent_tools) known_tools
enabled_tools-build_child_config_example =
    enabled_tools-build_child_config base_config parent_tools request 20

build_child_config-NoRecursion_example :
    ((tools : Dict) × (get_field "tools" (build_child_config base_config parent_tools request 20)
        ≡ some (dict tools))
      × (get (name spawn_subagent) tools ≡ some (boolean false)))
    × ((subagents : Dict) × (get_field "subagents"
            (build_child_config base_config parent_tools request 20)
          ≡ some (dict subagents))
        × (get_field "enabled" subagents ≡ some (boolean false)))
    × (get_field "loop" (build_child_config base_config parent_tools request 20)
        ≡ some (dict (field "max_iterations" (int (pos 20)) empty)))
build_child_config-NoRecursion_example =
    build_child_config-NoRecursion base_config parent_tools request 20

abbrev parent : Parent
parent = record { subagents_enabled = true; settings = empty; tools = parent_tools }

abbrev runner : Runner ℕ
runner r calls = (returned (dict (field "success" (boolean true) empty)), suc calls)

abbrev start : Delegate ℕ
start = record { children_spawned = 0; runner_state = 0; sent = [] }

abbrev dumps : Dict → Text
dumps d = codes "{}"

abbrev to_number : Value → Outcome ℤ
to_number v = returned (pos 0)

handle_spawn_subagent-StartedOne_example :
    Unchanged start (handle_spawn_subagent py dumps to_number (some runner) parent args start).1
    ⊎ StartedOne py
        (some runner)
        parent
        start
        (handle_spawn_subagent py dumps to_number (some runner) parent args start).1
handle_spawn_subagent-StartedOne_example =
    handle_spawn_subagent-StartedOne py (some runner) parent dumps to_number args start

abbrev action_event : Dict
action_event = field "type" (text "action") empty

build_envelope-status_example :
    (get_field "success" (
        build_envelope py empty
          (codes "c1")
          ((action_event ∷ []) ++ done_event ∷ action_event ∷ [])
          (int (pos 2)))
      ≡ some (boolean (is_success done_event)))
    × (get_field "status" (
          build_envelope py empty
            (codes "c1")
            ((action_event ∷ []) ++ done_event ∷ action_event ∷ [])
            (int (pos 2)))
        ≡ some (text (status_of done_event)))
unfolding get key_eq text_eq
build_envelope-status_example =
    build_envelope-status py empty (codes "c1") (action_event ∷ []) done_event (action_event ∷ [])
      (int (pos 2)) refl (refl, tt)

-- ===== src/Agent/Child/Restriction.antt =====
-- The tools that a child enables by the configuration that its parent makes for it.
use strange_claw.Prelude.{ℕ, ◌≡◌, refl, ◌∙◌, ap, Bool, false, ◌&&◌, some, List, filter}
use strange_claw.Prelude.Int.{pos}
use strange_claw.Text.{Text, codes, text_eq, elem}
use strange_claw.Value.{boolean, int, dict, Dict, empty, name, get, get_field, put, field, key_eq}
use strange_claw.Value.Fields.{get-put_self, get-put_other}
use strange_claw.Broker.Config.{truth}
use strange_claw.Agent.Delegation.{Request, spawn_subagent}
use strange_claw.Agent.Child.{
  known_tools, allowed_flags, child_tools, build_child_config, flag, enabled_of, enabled_tools,
}

abbrev pub both : List Text → List Text → Text → Bool
both requested parent t = elem t requested && elem t parent

child_tools-enabled :
    (requested parent : List Text)
    → enabled_of (some (dict (child_tools requested parent)))
      ≡ filter (both requested parent) known_tools
unfolding enabled_of flag child_tools allowed_flags put get key_eq text_eq truth
child_tools-enabled requested parent = refl

module _ (base_config : Dict) (parent : List Text) (request : Request) (max_iterations : ℕ) where
  tools_section :
      get_field "tools" (build_child_config base_config parent request max_iterations)
      ≡ some (dict (child_tools request.allowed_tools parent))
  unfolding build_child_config key_eq
  tools_section =
      get-put_other (name (codes "subagents")) (name (codes "tools")) _ _ refl
      ∙ get-put_other (name (codes "loop")) (name (codes "tools")) _ _ refl
      ∙ get-put_self (name (codes "tools")) _ base_config

  -- A child enables exactly the known tools that were asked for and that its parent has.
  pub enabled_tools-build_child_config :
      enabled_tools (build_child_config base_config parent request max_iterations)
      ≡ filter (both request.allowed_tools parent) known_tools
  unfolding enabled_tools
  enabled_tools-build_child_config =
      ap enabled_of tools_section ∙ child_tools-enabled request.allowed_tools parent

  -- The configuration of a child turns subagents off, in both places, and sets its iteration limit.
  pub build_child_config-NoRecursion :
      ((tools : Dict) × (get_field "tools"
            (build_child_config base_config parent request max_iterations)
          ≡ some (dict tools))
        × (get (name spawn_subagent) tools ≡ some (boolean false)))
      × ((subagents : Dict) × (get_field "subagents"
              (build_child_config base_config parent request max_iterations)
            ≡ some (dict subagents))
          × (get_field "enabled" subagents ≡ some (boolean false)))
      × (get_field "loop" (build_child_config base_config parent request max_iterations)
          ≡ some (dict (field "max_iterations" (int (pos max_iterations)) empty)))
  unfolding build_child_config child_tools key_eq
  build_child_config-NoRecursion = (
    (
      child_tools request.allowed_tools parent,
      tools_section,
      get-put_self (name spawn_subagent) _ _,
    ),
    (_, get-put_self (name (codes "subagents")) _ _, get-put_self (name (codes "enabled")) _ _),
    get-put_other (name (codes "subagents")) (name (codes "loop")) _ _ refl
        ∙ get-put_self (name (codes "loop")) _ _,
  )

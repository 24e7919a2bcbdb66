-- ===== src/Agent/Child.antt =====
-- agent/subagents.py: the configuration and the goal of a child agent. agent/tools.py: which tools an
-- agent enables by its configuration.
use strange_claw.Prelude.{
  ℕ, Bool, true, false, not, ◌&&◌, Option, none, some, List, [], ◌∷◌, ◌++◌, String, filter,
  if◌then◌else◌,
}
use strange_claw.Prelude.Int.{pos}
use strange_claw.Text.{Text, codes, elem, is_empty}
use strange_claw.Value.{
  Value, boolean, int, dict, Dict, empty, entry, Key, name, get, get_field, put, field,
}
use strange_claw.Python.{Platform}
use strange_claw.Broker.Config.{truth}
use strange_claw.Agent.Delegation.{Request, spawn_subagent}
pub mod Restriction

-- `_KNOWN_CAPABILITY_TOOLS` and `_KNOWN_TOOLS`, which are the same four
abbrev pub known_tools : List Text
known_tools = codes "shell" ∷ codes "web_search" ∷ codes "web_fetch" ∷ codes "http_request" ∷ []

-- `{name: (name in allowed) for name in ...}`, where `allowed` is what is asked for and the parent has
allowed_flags : List Text → List Text → List Text → Dict
allowed_flags requested parent [] = empty
allowed_flags requested parent (t ∷ ts) =
    entry (name t) (boolean (elem t requested && elem t parent)) (allowed_flags requested parent ts)

child_tools : List Text → List Text → Dict
unfolding allowed_flags
child_tools requested parent =
    put (name spawn_subagent) (boolean false) (allowed_flags requested parent known_tools)

-- `dict(subagents_raw) if isinstance(subagents_raw, dict) else {}`
copy_of : Option Value → Dict
copy_of (some (dict d)) = d
copy_of _ = empty

pub build_child_config : Dict → List Text → Request → ℕ → Dict
unfolding child_tools copy_of
build_child_config base_config parent_enabled_tools request max_iterations =
    let with_tools =
      put (name (codes "tools")) (dict (child_tools request.allowed_tools parent_enabled_tools))
        base_config in
    let with_loop =
      put (name (codes "loop")) (dict (field "max_iterations" (int (pos max_iterations)) empty))
        with_tools in
    let subagents =
      put (name (codes "enabled")) (boolean false) (copy_of (get_field "subagents" with_loop)) in
    put (name (codes "subagents")) (dict subagents) with_loop

-- `bool(raw_tools.get(name, True))`
flag : Option Value → Bool
flag none = true
flag (some v) = truth v

-- `Tools.__init__`: the names that the section `tools` enables
enabled_of : Option Value → List Text
unfolding flag
enabled_of (some (dict d)) = filter (λ t. flag (get (name t) d)) known_tools
enabled_of _ = known_tools

pub enabled_tools : Dict → List Text
unfolding enabled_of
enabled_tools config = enabled_of (get_field "tools" config)

abbrev section_of : String → Text → List Text
section_of heading t = if is_empty t then [] else (codes heading ++ t) ∷ []

-- ===== src/Agent/Spawn/Event.antt =====
-- The event that a call of the tool returns is an action.
use strange_claw.Prelude.{ℕ, ◌≡◌, refl, Bool, true, false, Option, none, some, leb, if◌then◌else◌}
use strange_claw.Prelude.Int.{ℤ}
use strange_claw.Text.{Text, text_eq}
use strange_claw.Value.{
  Value, null, boolean, int, float, str, list, tuple, dict, text, Dict, get_field, get, key_eq,
}
use strange_claw.Python.{Platform, Outcome, returned, raised}
use strange_claw.Broker.Checked.{Checked, ok, value_error, crashed}
use strange_claw.Agent.Delegation.{Request}
use strange_claw.Agent.Spawn.{
  Parent, Delegate, Runner, bind, shape_dict, observation, send, emit_observation, after_run,
  run_child, below_limit, on_request, if_enabled, handle_spawn_subagent,
}

abbrev pub IsAction : Outcome Dict → Type 0
IsAction (returned event) = get_field "type" event ≡ some (text "action")
IsAction (raised e) = Unit

module _ {W R : Type 0} (py : Platform W) (dumps : Dict → Text) (int_of : Value → Outcome ℤ)
    (runner : Option (Runner R)) (p : Parent) where
  bind-IsAction :
      (x : Outcome Dict) (f : Dict → Outcome Dict)
      → ((d : Dict) → IsAction (f d))
      → IsAction (bind x f)
  bind-IsAction (returned d) f k = k d
  bind-IsAction (raised e) f k = tt

  observation-IsAction :
      (args : Dict) (v : Value) → IsAction (observation py dumps int_of runner p args v)
  unfolding observation get key_eq text_eq
  observation-IsAction args (dict envelope) =
      bind-IsAction (shape_dict py dumps int_of runner p envelope) _ (λ d. refl)
  observation-IsAction args null = tt
  observation-IsAction args (boolean b) = tt
  observation-IsAction args (int n) = tt
  observation-IsAction args (float n) = tt
  observation-IsAction args (str t) = tt
  observation-IsAction args (list xs) = tt
  observation-IsAction args (tuple xs) = tt

  send-IsAction :
      (x : Outcome Dict) (s : Delegate R)
      → IsAction x
      → IsAction (send py dumps int_of runner p x s).0
  unfolding send
  send-IsAction (returned event) s h = h
  send-IsAction (raised e) s h = tt

  emit-IsAction :
      (args : Dict) (v : Value) (s : Delegate R)
      → IsAction (emit_observation py dumps int_of runner p args v s).0
  unfolding emit_observation
  emit-IsAction args v s = send-IsAction _ s (observation-IsAction args v)

  after_run-IsAction :
      (args : Dict) (x : Outcome Value) (s : Delegate R)
      → IsAction (after_run py dumps int_of runner p args x s).0
  unfolding after_run
  after_run-IsAction args (returned v) s = search emit-IsAction
  after_run-IsAction args (raised e) s = search emit-IsAction

  run_child-IsAction :
      (args : Dict) (r : Request) (o : Option (Runner R)) (s : Delegate R)
      → IsAction (run_child py dumps int_of runner p args r o s).0
  unfolding run_child
  run_child-IsAction args r none s = search emit-IsAction
  run_child-IsAction args r (some run) s = after_run-IsAction args _ _

  if-IsAction :
      (b : Bool) (x y : Outcome Dict × Delegate R)
      → IsAction x.0
      → IsAction y.0
      → IsAction (if b then x else y).0
  if-IsAction true x y h k = h
  if-IsAction false x y h k = k

  below_limit-IsAction :
      (args : Dict) (r : Request) (m : Checked ℕ) (s : Delegate R)
      → IsAction (below_limit py dumps int_of runner p args r m s).0
  unfolding below_limit
  below_limit-IsAction args r (ok m) s =
      if-IsAction (leb m s.children_spawned) _ _ (search emit-IsAction)
        (run_child-IsAction args r runner s)
  below_limit-IsAction args r (value_error e) s = tt
  below_limit-IsAction args r (crashed e) s = tt

  on_request-IsAction :
      (args : Dict) (m : Checked Request) (s : Delegate R)
      → IsAction (on_request py dumps int_of runner p args m s).0
  unfolding on_request
  on_request-IsAction args (ok r) s = below_limit-IsAction args r _ s
  on_request-IsAction args (value_error e) s = search emit-IsAction
  on_request-IsAction args (crashed e) s = tt

  if_enabled-IsAction :
      (on : Bool) (args : Dict) (s : Delegate R)
      → IsAction (if_enabled py dumps int_of runner p on args s).0
  unfolding if_enabled
  if_enabled-IsAction false args s = search emit-IsAction
  if_enabled-IsAction true args s = on_request-IsAction args _ s

  pub handle_spawn_subagent-IsAction :
      (args : Dict) (s : Delegate R)
      → IsAction (handle_spawn_subagent py dumps int_of runner p args s).0
  unfolding handle_spawn_subagent
  handle_spawn_subagent-IsAction args s = if_enabled-IsAction p.subagents_enabled args s

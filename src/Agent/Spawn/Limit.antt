-- ===== src/Agent/Spawn/Limit.antt =====
-- When a call of the tool starts a child, and how many it starts.
use strange_claw.Prelude.{
  ℕ, suc, ◌<◌, ◌≡◌, refl, Bool, true, false, ◌⊎◌, inl, inr, Option, none, some, leb, arith,
  Bool-cases,
}
use strange_claw.Prelude.Int.{ℤ}
use strange_claw.Text.{Text}
use strange_claw.Value.{Value, Dict}
use strange_claw.Python.{Platform, Outcome, returned, raised}
use strange_claw.Broker.Checked.{Checked, ok, value_error, crashed}
use strange_claw.Agent.Delegation.{Request, read_pos_int_field, build_subagent_request}
use strange_claw.Agent.Delegation.Bounds.{IsBounded, build_subagent_request-IsBounded}
use strange_claw.Agent.Spawn.{
  Parent, Delegate, Runner, observation, send, emit_observation, after_run, run_child, below_limit,
  on_request, if_enabled, handle_spawn_subagent,
}

-- No child was started.
pub record Unchanged {R : Type 0} (s s' : Delegate R) : Type 0 where
  pub same_count : s'.children_spawned ≡ s.children_spawned
  pub same_state : s'.runner_state ≡ s.runner_state

module _ {W R : Type 0} (py : Platform W) (runner : Option (Runner R)) (p : Parent) where
  -- One child was started: the flag is set, fewer children than the limit were started before, and
  -- the runner was called once, with a request within its bounds.
  pub record StartedOne (s s' : Delegate R) : Type 0 where
    pub enabled : p.subagents_enabled ≡ true
    pub run : Runner R
    pub runner_eq : runner ≡ some run
    pub request : Request
    pub bounded : IsBounded py p.settings p.tools request
    pub max_children : ℕ
    pub max_children_eq :
        read_pos_int_field py p.settings "max_children_per_task" 3 ≡ ok max_children
    pub below : s.children_spawned < max_children
    pub counted : s'.children_spawned ≡ suc s.children_spawned
    pub ran : s'.runner_state ≡ (run request s.runner_state).1

  module _ (dumps : Dict → Text) (int_of : Value → Outcome ℤ) where
    send-Unchanged :
        (x : Outcome Dict) (s : Delegate R) → Unchanged s (send py dumps int_of runner p x s).1
    unfolding send
    send-Unchanged (returned event) s = record { same_count = refl; same_state = refl }
    send-Unchanged (raised e) s = record { same_count = refl; same_state = refl }

    emit-Unchanged :
        (args : Dict) (v : Value) (s : Delegate R)
        → Unchanged s (emit_observation py dumps int_of runner p args v s).1
    unfolding emit_observation
    emit-Unchanged args v s = send-Unchanged (observation py dumps int_of runner p args v) s

    after_run-Unchanged :
        (args : Dict) (x : Outcome Value) (s : Delegate R)
        → Unchanged s (after_run py dumps int_of runner p args x s).1
    unfolding after_run
    after_run-Unchanged args (returned v) s = emit-Unchanged args v s
    after_run-Unchanged args (raised e) s = search emit-Unchanged

    run_child-StartedOne :
        (args : Dict) (r : Request) (o : Option (Runner R)) (s : Delegate R) (max_children : ℕ)
        → p.subagents_enabled ≡ true
        → runner ≡ o
        → IsBounded py p.settings p.tools r
        → read_pos_int_field py p.settings "max_children_per_task" 3 ≡ ok max_children
        → s.children_spawned < max_children
        → Unchanged s (run_child py dumps int_of runner p args r o s).1
          ⊎ StartedOne s (run_child py dumps int_of runner p args r o s).1
    unfolding run_child
    run_child-StartedOne args r none s m on e bounded limit below = inl (search emit-Unchanged)
    run_child-StartedOne args r (some run) s m on e bounded limit below =
        let (answer, after) = run r s.runner_state in
        let kept =
          after_run-Unchanged args answer
            (record s { children_spawned = suc s.children_spawned; runner_state = after }) in
        inr (record {
          enabled = on;
          run = run;
          runner_eq = e;
          request = r;
          bounded = bounded;
          max_children = m;
          max_children_eq = limit;
          below = below;
          counted = kept.same_count;
          ran = kept.same_state;
        })

    below_limit-StartedOne :
        (args : Dict) (r : Request) (m : Checked ℕ) (s : Delegate R)
        → p.subagents_enabled ≡ true
        → IsBounded py p.settings p.tools r
        → read_pos_int_field py p.settings "max_children_per_task" 3 ≡ m
        → Unchanged s (below_limit py dumps int_of runner p args r m s).1
          ⊎ StartedOne s (below_limit py dumps int_of runner p args r m s).1
    unfolding below_limit
    below_limit-StartedOne args r (ok m) s on bounded limit =
        elim (Bool-cases (leb m s.children_spawned)) [
          | inl full ↦ inl (rw full (search emit-Unchanged))
          | inr free ↦
              rw free (run_child-StartedOne args r runner s m on refl bounded limit (ground arith))
        ]
    below_limit-StartedOne args r (value_error e) s on bounded limit =
        inl (record { same_count = refl; same_state = refl })
    below_limit-StartedOne args r (crashed e) s on bounded limit =
        inl (record { same_count = refl; same_state = refl })

    on_request-StartedOne :
        (args : Dict) (m : Checked Request) (s : Delegate R)
        → p.subagents_enabled ≡ true
        → build_subagent_request py p.settings p.tools args ≡ m
        → Unchanged s (on_request py dumps int_of runner p args m s).1
          ⊎ StartedOne s (on_request py dumps int_of runner p args m s).1
    unfolding on_request
    on_request-StartedOne args (ok r) s on e =
        below_limit-StartedOne args r _ s on
          (build_subagent_request-IsBounded py p.settings p.tools args r e) refl
    on_request-StartedOne args (value_error x) s on e = inl (search emit-Unchanged)
    on_request-StartedOne args (crashed x) s on e =
        inl (record { same_count = refl; same_state = refl })

    if_enabled-StartedOne :
        (on : Bool) (args : Dict) (s : Delegate R)
        → p.subagents_enabled ≡ on
        → Unchanged s (if_enabled py dumps int_of runner p on args s).1
          ⊎ StartedOne s (if_enabled py dumps int_of runner p on args s).1
    unfolding if_enabled
    if_enabled-StartedOne false args s e = inl (search emit-Unchanged)
    if_enabled-StartedOne true args s e = on_request-StartedOne args _ s e refl

    -- A call of the tool starts no child and leaves the count and the runner as they are, or it starts
    -- exactly one: then subagents are enabled, the count was below `max_children_per_task` and goes up
    -- by one, and the runner got one request, within the bounds of the settings and of the parent's
    -- tools. An exception of the runner changes nothing of this.
    pub handle_spawn_subagent-StartedOne :
        (args : Dict) (s : Delegate R)
        → Unchanged s (handle_spawn_subagent py dumps int_of runner p args s).1
          ⊎ StartedOne s (handle_spawn_subagent py dumps int_of runner p args s).1
    unfolding handle_spawn_subagent
    handle_spawn_subagent-StartedOne args s = if_enabled-StartedOne p.subagents_enabled args s refl

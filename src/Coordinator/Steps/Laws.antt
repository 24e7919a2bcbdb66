-- ===== src/Coordinator/Steps/Laws.antt =====
-- coordinator.py and agent/agent.py: what holds in every run of a coordinator, and of the agent that gets
-- one of its tasks.
use strange_claw.Prelude.{
  ◌+◌, ◌≤◌, ◌≡◌, refl, true, Option, none, some, List, [], ◌∷◌, ◌⊎◌, inl, inr, arith, ◌∙◌, ap,
}
use strange_claw.Text.{Text, codes}
use strange_claw.Value.{Value, null, boolean, int, float, str, list, tuple, dict, Dict, get_field}
use strange_claw.Assoc.{lookup}
use strange_claw.Agent.Run.{Runtime, Loop}
use strange_claw.Agent.Log.{IsApproved}
use strange_claw.Agent.Task.{resumed_plan, plan_in, run_task_guarded}
use strange_claw.Agent.Task.Laws.{run_task_guarded-IsApproved}
use strange_claw.Coordinator.{Outside, Happened, tasked, asked, answered, Coordinator}
use strange_claw.Coordinator.Steps.{
  Step, elsewhere, seeding, retiring, releasing, starting, replying, handling, exiting,
  stopping_one, stopping_all, reaping, Reaches, here, after, new_coordinator,
}
use strange_claw.Coordinator.Steps.Inserts.{
  waits, seed_state-Weaker, release-Weaker, retire_begin-Weaker, handle_worker_exit-Weaker,
  stop_begin-Weaker, stop_all_begin-Weaker, reap_begin-Weaker,
}
use strange_claw.Coordinator.Steps.Invariant.{
  IsSound, IsSafeTask, AllSafe, HasNoPlan, IsSound-Weaker, asked_count, answered_count,
}
use strange_claw.Coordinator.Steps.Starts.{start_section-IsSound}
use strange_claw.Coordinator.Steps.Handled.{submit_reply-IsSound, event_section-IsSound}

module _ {W : Type 0} (out : Outside W) where
  Step-IsSound :
      {a b : Coordinator W}
      → Step out a b
      → IsSound out a.log a.sessions
      → IsSound out b.log b.sessions
  Step-IsSound (elsewhere w {c}) h = h
  Step-IsSound (seeding sid state {c}) h =
      IsSound-Weaker out c.log _ c.sessions (seed_state-Weaker sid state c.sessions) h
  Step-IsSound (retiring sid {c}) h =
      IsSound-Weaker out c.log _ c.sessions (retire_begin-Weaker out c.world sid c.sessions) h
  Step-IsSound (releasing sid b {c}) h =
      IsSound-Weaker out c.log _ c.sessions (release-Weaker sid b c.sessions) h
  Step-IsSound (starting sid goal sink {c}) h = start_section-IsSound out sid goal sink c h
  Step-IsSound (replying sid approved reply {c}) h = submit_reply-IsSound out sid approved reply c h
  Step-IsSound (handling sid event {c}) h = event_section-IsSound out sid event c h
  Step-IsSound (exiting sid {c}) h =
      IsSound-Weaker out c.log _ c.sessions (handle_worker_exit-Weaker sid c.sessions) h
  Step-IsSound (stopping_one sid {c}) h =
      IsSound-Weaker out c.log _ c.sessions (stop_begin-Weaker sid c.sessions) h
  Step-IsSound (stopping_all {c}) h =
      IsSound-Weaker out c.log _ c.sessions (stop_all_begin-Weaker c.sessions) h
  Step-IsSound (reaping now {c}) h =
      IsSound-Weaker out c.log _ c.sessions (reap_begin-Weaker out now c.world c.sessions) h

  Reaches-IsSound :
      {a c : Coordinator W}
      → Reaches out a c
      → IsSound out a.log a.sessions
      → IsSound out c.log c.sessions
  Reaches-IsSound here h = h
  Reaches-IsSound (after run step) h = Step-IsSound step (Reaches-IsSound run h)

  new_coordinator-IsSound :
      (w : W) → IsSound out ((new_coordinator out w).log) ((new_coordinator out w).sessions)
  unfolding lookup
  new_coordinator-IsSound w = record { safe = tt; paid = λ sid. omega arith }

  -- In every run of a coordinator, with its sections and the world outside in any order, a session has
  -- taken at most as many replies as its events have asked for, less one if it still waits.
  pub replies-le :
      (w : W) (c : Coordinator W)
      → Reaches out (new_coordinator out w) c
      → (sid : Text)
      → answered_count sid c.log + waits (lookup sid c.sessions) ≤ asked_count sid c.log
  replies-le w c run sid = (Reaches-IsSound run (new_coordinator-IsSound w)).paid sid

  abbrev pub IsTasked : Text → Dict → List Happened → Type 0
  IsTasked sid task [] = ⊥
  IsTasked sid task (tasked j t ∷ rest) = ((j ≡ sid) × (t ≡ task)) ⊎ IsTasked sid task rest
  IsTasked sid task (asked j ∷ rest) = IsTasked sid task rest
  IsTasked sid task (answered j reply ∷ rest) = IsTasked sid task rest

  safe_of :
      (sid : Text) (task : Dict) (log : List Happened)
      → AllSafe out log
      → IsTasked sid task log
      → IsSafeTask out task
  safe_of sid task [] h i = elim i [ ]
  safe_of sid task (tasked j t ∷ rest) h (inl (same, e)) = rw (← e) h.0
  safe_of sid task (tasked j t ∷ rest) h (inr i) = safe_of sid task rest h.1 i
  safe_of sid task (asked j ∷ rest) h i = safe_of sid task rest h i
  safe_of sid task (answered j reply ∷ rest) h i = safe_of sid task rest h i

  module _ {V : Type 0} (rt : Runtime V) where
    resumed_plan-none :
        (state : Option Value) → HasNoPlan out.lower state → resumed_plan rt state ≡ none
    resumed_plan-none none h = refl
    resumed_plan-none (some null) h = refl
    resumed_plan-none (some (boolean b)) h = refl
    resumed_plan-none (some (int n)) h = refl
    resumed_plan-none (some (float n)) h = refl
    resumed_plan-none (some (str s)) h = refl
    resumed_plan-none (some (list xs)) h = refl
    resumed_plan-none (some (tuple xs)) h = refl
    resumed_plan-none (some (dict state)) h = ap (plan_in rt) h.1

    -- In review mode, whatever states were seeded or stored before, and in whatever order the sections
    -- ran: if an agent gets a task that the coordinator sent, then before whatever tool or child it runs,
    -- the user had approved a plan, after the last plan that was shown.
    pub sent_task-IsApproved :
        (w : W) (c : Coordinator W) (sid : Text) (task : Dict) (s : Loop V)
        → out.approval_mode ≡ codes "review"
        → Reaches out (new_coordinator out w) c
        → IsTasked sid task c.log
        → IsApproved true s.trace
        → IsApproved true (run_task_guarded rt task s).1.trace
    sent_task-IsApproved w c sid task s mode run i h =
        let sound = Reaches-IsSound run (new_coordinator-IsSound w) in
        let fits = safe_of sid task c.log sound.safe i in
        run_task_guarded-IsApproved rt task s (fits.0 ∙ ap (λ m. some (str m)) mode)
          (resumed_plan-none (get_field "state" task) fits.1) h

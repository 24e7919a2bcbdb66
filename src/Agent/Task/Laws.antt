-- ===== src/Agent/Task/Laws.antt =====
-- What a task guarantees: approval, a bound on what it runs, and one done event.
use strange_claw.Prelude.{
  ℕ, suc, ◌+◌, ◌≤◌, ◌≡◌, refl, Bool, true, false, none, some, List, [], ◌∷◌, arith,
}
use strange_claw.Value.{text, Dict, get_field}
use strange_claw.Agent.Run.{Runtime, Loop, Action, sent, replied, acted, Answer, returned, failed}
use strange_claw.Agent.Run.Triple.{Post}
use strange_claw.Agent.Log.{On, Within, acted_count, done_count, IsApproved}
use strange_claw.Agent.Task.{resumed_plan, End, finished, timed_out, run_task_guarded}
use strange_claw.Agent.Task.Course.{AtEnd}
use strange_claw.Agent.Task.Ends.{run_task_guarded-Ends}

IsApproved-lax : (t : List Action) → IsApproved false t
IsApproved-lax [] = tt
IsApproved-lax (sent e ∷ t) = IsApproved-lax t
IsApproved-lax (replied r ∷ t) = IsApproved-lax t
IsApproved-lax (acted tool args ∷ t) = ((λ on. absurd (cc on)), IsApproved-lax t)

-- A task that ends by its own leave has sent one done event, and any other none.
abbrev pub EndsOnce : {W : Type 0} → ℕ → Answer End × Loop W → Type 0
EndsOnce d (returned finished, s) = done_count s.trace ≡ suc d
EndsOnce d (returned timed_out, s) = done_count s.trace ≡ d
EndsOnce d (failed e, s) = done_count s.trace ≡ d

module _ {W : Type 0} (rt : Runtime W) (task : Dict) where
  IsApproved-of :
      (strict : Bool) (runs d : ℕ) (x : Answer End × Loop W)
      → Post (λ end. On (AtEnd rt strict runs d end)) (On (Within strict runs d)) x
      → IsApproved strict x.1.trace
  IsApproved-of strict runs d (returned finished, s) w = w.approved
  IsApproved-of strict runs d (returned timed_out, s) w = w.approved
  IsApproved-of strict runs d (failed e, s) w = w.approved

  runs_of :
      (strict : Bool) (runs d : ℕ) (x : Answer End × Loop W)
      → Post (λ end. On (AtEnd rt strict runs d end)) (On (Within strict runs d)) x
      → acted_count x.1.trace ≤ runs
  runs_of strict runs d (returned finished, s) w = w.runs
  runs_of strict runs d (returned timed_out, s) w = w.runs
  runs_of strict runs d (failed e, s) w = w.runs

  dones_of :
      (strict : Bool) (runs d : ℕ) (x : Answer End × Loop W)
      → Post (λ end. On (AtEnd rt strict runs d end)) (On (Within strict runs d)) x
      → EndsOnce d x
  dones_of strict runs d (returned finished, s) w = w.dones
  dones_of strict runs d (returned timed_out, s) w = w.dones
  dones_of strict runs d (failed e, s) w = w.dones

  lax_run :
      (s : Loop W)
      → Post
          (λ end.
            On (AtEnd rt false (acted_count s.trace + rt.max_iterations) (done_count s.trace) end))
          (On (Within false (acted_count s.trace + rt.max_iterations) (done_count s.trace)))
          (run_task_guarded rt task s)
  lax_run s =
      run_task_guarded-Ends rt false task (λ on. absurd (cc on)) (λ on. absurd (cc on))
        (acted_count s.trace) (done_count s.trace) s
        (record { runs = omega arith; dones = refl; approved = IsApproved-lax s.trace })

  -- If the task is to be reviewed and brings no plan of its own, then whatever tool or child is run in
  -- it, the user had approved a plan before, after the last plan that was shown. The model, the tools,
  -- the skills and the events that arrive are arbitrary.
  pub run_task_guarded-IsApproved :
      (s : Loop W)
      → get_field "approval_mode" task ≡ some (text "review")
      → resumed_plan rt (get_field "state" task) ≡ none
      → IsApproved true s.trace
      → IsApproved true (run_task_guarded rt task s).1.trace
  run_task_guarded-IsApproved s reviewed fresh h =
      IsApproved-of true (acted_count s.trace + rt.max_iterations) (done_count s.trace) _ (
        run_task_guarded-Ends rt true task (λ _. reviewed) (λ _. fresh) (acted_count s.trace)
          (done_count s.trace) s (record { runs = omega arith; dones = refl; approved = h }))

  -- A task runs at most `max_iterations` tools and children.
  pub run_task_guarded-le :
      (s : Loop W)
      → acted_count (run_task_guarded rt task s).1.trace ≤ acted_count s.trace + rt.max_iterations
  run_task_guarded-le s = runs_of false _ (done_count s.trace) _ (lax_run s)

  -- A task that returns has sent exactly one done event, unless its time budget is used up, and then
  -- none; a task that does not return, as it waits for an event or could not send one, has sent none.
  pub run_task_guarded-EndsOnce :
      (s : Loop W) → EndsOnce (done_count s.trace) (run_task_guarded rt task s)
  run_task_guarded-EndsOnce s = dones_of false _ _ _ (lax_run s)

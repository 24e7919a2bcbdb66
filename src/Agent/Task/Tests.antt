-- ===== src/Agent/Task/Tests.antt =====
-- The theorems on a task that is to be reviewed, whose plan the user approves.
use strange_claw.Prelude.{◌+◌, ◌≤◌, refl, true}
use strange_claw.Text.{text_eq}
use strange_claw.Value.{get, key_eq}
use strange_claw.Agent.Log.{acted_count, done_count, IsApproved}
use strange_claw.Agent.Task.{run_task_guarded}
use strange_claw.Agent.Task.Laws.{
  EndsOnce, run_task_guarded-IsApproved, run_task_guarded-le, run_task_guarded-EndsOnce,
}
use strange_claw.Agent.Example.{rt, task, start}

run_task_guarded-IsApproved_example : IsApproved true (run_task_guarded rt task start).1.trace
unfolding get key_eq text_eq
run_task_guarded-IsApproved_example = run_task_guarded-IsApproved rt task start refl refl tt

run_task_guarded-le_example :
    acted_count (run_task_guarded rt task start).1.trace
    ≤ acted_count start.trace + rt.max_iterations
run_task_guarded-le_example = run_task_guarded-le rt task start

run_task_guarded-EndsOnce_example :
    EndsOnce (done_count start.trace) (run_task_guarded rt task start)
run_task_guarded-EndsOnce_example = run_task_guarded-EndsOnce rt task start

-- ===== src/Coordinator/Steps/Whole.antt =====
-- coordinator.py: each method of `Coordinator`, called alone, is a run of steps.
use strange_claw.Prelude.{
  ℕ, ◌==◌, Bool, true, false, Option, none, some, List, [], ◌∷◌, if◌then◌else◌,
}
use strange_claw.Text.{Text, is_empty}
use strange_claw.Value.{Dict}
use strange_claw.Assoc.{Assoc}
use strange_claw.Python.{Outcome, returned, raised}
use strange_claw.Coordinator.{
  SessionRecord, Outside, Coordinator, seed_state, handle_worker_exit, release,
}
use strange_claw.Coordinator.Start.{
  Begun, StartStatus, start_task, after_section, reported, stop_stale, retire_stale_sandbox,
}
use strange_claw.Coordinator.Events.{
  submit_reply, handle_worker_event, handle_worker_error, show, then_done,
}
use strange_claw.Coordinator.Stop.{
  Sandboxes, stop_session, stop_all, all_sandboxes, release_all, stop_idle, reap, reap_at,
}
use strange_claw.Coordinator.Steps.{
  elsewhere, seeding, retiring, releasing, starting, replying, handling, exiting, stopping_one,
  stopping_all, reaping, Reaches, here, after,
}

-- A call of a method, by a user's adapter, by a worker or by the reaper
pub data Call : Type 0 where
  seeds : Text → Dict → Call
  starts : Text → Text → ℕ → Call
  replies : Text → Bool → Text → Call
  stops : Text → Call
  stops_all : Call
  sees_event : Text → Dict → Call
  sees_error : Text → Text → Call
  sees_exit : Text → Call
  reaps : Call

module _ {W : Type 0} (out : Outside W) where
  abbrev pub perform : Call → Coordinator W → Coordinator W
  perform (seeds sid state) c = record c { sessions = seed_state sid state c.sessions }
  perform (starts sid goal sink) c = (start_task out sid goal sink c).1
  perform (replies sid approved reply) c = (submit_reply out sid approved reply c).1
  perform (stops sid) c = stop_session out sid c
  perform stops_all c = stop_all out c
  perform (sees_event sid event) c = (handle_worker_event out sid event c).1
  perform (sees_error sid error) c = (handle_worker_error out sid error c).1
  perform (sees_exit sid) c = record c { sessions = handle_worker_exit sid c.sessions }
  perform reaps c = reap out c

  show-Reaches :
      (sid : Text) (event : Dict) {a : Coordinator W} (x : Outcome (Unit {0}) × Coordinator W)
      → Reaches out a x.1
      → Reaches out a (show out sid event x).1
  show-Reaches sid event (returned u, c) run = after run (elsewhere _)
  show-Reaches sid event (raised e, c) run = run

  handle_worker_event-Reaches :
      (sid : Text) (event : Dict) {a : Coordinator W} (c : Coordinator W)
      → Reaches out a c
      → Reaches out a (handle_worker_event out sid event c).1
  unfolding handle_worker_event
  handle_worker_event-Reaches sid event c run =
      show-Reaches sid event _ (after (after run (elsewhere _)) (handling sid event))

  then_done-Reaches :
      (sid e : Text) {a : Coordinator W} (x : Outcome (Unit {0}) × Coordinator W)
      → Reaches out a x.1
      → Reaches out a (then_done out sid e x).1
  then_done-Reaches sid e (returned u, c) run = handle_worker_event-Reaches sid _ c run
  then_done-Reaches sid e (raised x, c) run = run

  handle_worker_error-Reaches :
      (sid error : Text) {a : Coordinator W} (c : Coordinator W)
      → Reaches out a c
      → Reaches out a (handle_worker_error out sid error c).1
  unfolding handle_worker_error
  handle_worker_error-Reaches sid error c run =
      then_done-Reaches sid _ _ (handle_worker_event-Reaches sid _ c run)

  reported-Reaches :
      {a : Coordinator W} (x : Outcome (Unit {0}) × Coordinator W)
      → Reaches out a x.1
      → Reaches out a (reported out x).1
  reported-Reaches (returned u, c) run = run
  reported-Reaches (raised e, c) run = run

  after_section-Reaches :
      (sid : Text) {a : Coordinator W} (x : Begun × Coordinator W)
      → Reaches out a x.1
      → Reaches out a (after_section out sid x).1
  after_section-Reaches sid (raised e, c) run = run
  after_section-Reaches sid (returned (status, none), c) run = run
  after_section-Reaches sid (returned (status, some e), c) run =
      reported-Reaches _ (handle_worker_error-Reaches sid e c run)

  stop_stale-Reaches :
      (sid : Text) (c : Coordinator W) (x : Option ℕ × Assoc SessionRecord)
      → Reaches out c (record c { sessions = x.1 })
      → Reaches out c (stop_stale out sid x c)
  stop_stale-Reaches sid c (none, sessions) run = here
  stop_stale-Reaches sid c (some b, sessions) run =
      after (after run (elsewhere (out.stop b c.world))) (releasing sid (some b))

  if-Reaches :
      (b : Bool) (a : Coordinator W) (x y : Outcome StartStatus × Coordinator W)
      → Reaches out a x.1
      → Reaches out a y.1
      → Reaches out a (if b then x else y).1
  if-Reaches true a x y f g = f
  if-Reaches false a x y f g = g

  start_task-Reaches :
      (sid goal : Text) (sink : ℕ) (c : Coordinator W)
      → Reaches out c (start_task out sid goal sink c).1
  unfolding start_task retire_stale_sandbox
  start_task-Reaches sid goal sink c = if-Reaches (is_empty (out.strip goal)) c _ _ here (
      after_section-Reaches sid _
        (after (stop_stale-Reaches sid c _ (after here (retiring sid))) (starting sid goal sink)))

  stop_session-Reaches : (sid : Text) (c : Coordinator W) → Reaches out c (stop_session out sid c)
  unfolding stop_session
  stop_session-Reaches sid c =
      after (after (after here (stopping_one sid)) (elsewhere _)) (releasing sid _)

  release_all-Reaches :
      (bs : Sandboxes) {a : Coordinator W} (c : Coordinator W)
      → Reaches out a c
      → Reaches out a (record c { sessions = release_all bs c.sessions })
  unfolding release_all
  release_all-Reaches [] c run = run
  release_all-Reaches ((sid, b) ∷ rest) c run =
      release_all-Reaches rest (record c { sessions = release sid (some b) c.sessions })
        (after run (releasing sid (some b)))

  stop_all-Reaches : (c : Coordinator W) → Reaches out c (stop_all out c)
  unfolding stop_all
  stop_all-Reaches c =
      release_all-Reaches (all_sandboxes c.sessions) _
        (after (after here stopping_all) (elsewhere _))

  stop_idle-Reaches :
      (bs : Sandboxes) {a : Coordinator W} (c : Coordinator W)
      → Reaches out a c
      → Reaches out a (stop_idle out bs c)
  unfolding stop_idle
  stop_idle-Reaches [] c run = run
  stop_idle-Reaches ((sid, b) ∷ rest) c run =
      stop_idle-Reaches rest _
        (after (after run (elsewhere (out.stop b c.world))) (releasing sid (some b)))

  reap_at-Reaches : (x : ℕ × W) (c : Coordinator W) → Reaches out c (reap_at out x c)
  reap_at-Reaches (now, w) c =
      stop_idle-Reaches _ _ (after (after here (elsewhere w)) (reaping now))

  branch-Reaches :
      (b : Bool) (a x y : Coordinator W)
      → Reaches out a x
      → Reaches out a y
      → Reaches out a (if b then x else y)
  branch-Reaches true a x y f g = f
  branch-Reaches false a x y f g = g

  reap-Reaches : (c : Coordinator W) → Reaches out c (reap out c)
  unfolding reap
  reap-Reaches c =
      branch-Reaches (out.session_idle_timeout_seconds == 0) c _ _ here
        (reap_at-Reaches (out.monotonic c.world) c)

  -- Whatever a method does when it is called alone is a run.
  perform-Reaches : (call : Call) (c : Coordinator W) → Reaches out c (perform call c)
  perform-Reaches (seeds sid state) c = after here (seeding sid state)
  perform-Reaches (starts sid goal sink) c = start_task-Reaches sid goal sink c
  perform-Reaches (replies sid approved reply) c = after here (replying sid approved reply)
  perform-Reaches (stops sid) c = stop_session-Reaches sid c
  perform-Reaches stops_all c = stop_all-Reaches c
  perform-Reaches (sees_event sid event) c = handle_worker_event-Reaches sid event c here
  perform-Reaches (sees_error sid error) c = handle_worker_error-Reaches sid error c here
  perform-Reaches (sees_exit sid) c = after here (exiting sid)
  perform-Reaches reaps c = reap-Reaches c

  Reaches-append : {a b c : Coordinator W} → Reaches out a b → Reaches out b c → Reaches out a c
  Reaches-append run here = run
  Reaches-append run (after more step) = after (Reaches-append run more) step

  abbrev pub perform_all : List Call → Coordinator W → Coordinator W
  perform_all [] c = c
  perform_all (call ∷ calls) c = perform_all calls (perform call c)

  -- Every sequence of calls is a run.
  pub perform_all-Reaches :
      (calls : List Call) (c : Coordinator W) → Reaches out c (perform_all calls c)
  perform_all-Reaches [] c = here
  perform_all-Reaches (call ∷ calls) c =
      Reaches-append (perform-Reaches call c) (perform_all-Reaches calls (perform call c))

-- ===== src/Coordinator/Worker.antt =====
-- coordinator.py: `_SessionWorker._run` and `_wait_for_reply`, by what the worker receives. Its callbacks are
-- the methods of the coordinator for the worker's session.
use strange_claw.Prelude.{
  ℕ, Bool, true, false, ◌&&◌, ◌||◌, Option, none, some, List, [], ◌∷◌, if◌then◌else◌,
}
use strange_claw.Text.{Text}
use strange_claw.Value.{Dict, entry, empty, field, text, get_field}
use strange_claw.Python.{Outcome, returned, raised}
use strange_claw.Agent.Run.{type_is, is_type}
use strange_claw.Coordinator.{Outside, Coordinator, handle_worker_exit}
use strange_claw.Coordinator.Events.{handle_worker_event, handle_worker_error}
pub mod Waits

-- What one turn of the loop meets: the stop event is set, or `receive` gives None, an event, or raises.
pub data Receipt : Type 0 where
  stop_set : Receipt
  silence : Receipt
  event : Dict → Receipt
  broken : Text → Receipt

-- The worker has returned, or it waits, for an event or for a reply.
pub data Progress : Type 0 where
  ended : Progress
  waiting : Progress

-- Whether the worker waits for a reply after the event
pub wants_reply : Dict → Dict → Bool
wants_reply task e =
    is_type "message" e
    && ((type_is "plan" (get_field "role" e) && type_is "review" (get_field "approval_mode" task))
        || type_is "clarification" (get_field "role" e))

module _ {W : Type 0} (out : Outside W) (send : Dict → W → Outcome (Unit {0}) × W) (sid : Text)
    (task : Dict) where
  -- The `finally` clause
  abbrev pub leave : Coordinator W → Progress × Coordinator W
  leave c = (ended, record c { sessions = handle_worker_exit sid c.sessions })

  abbrev reported : Outcome (Unit {0}) × Coordinator W → Progress × Coordinator W
  reported (returned u, c) = leave c
  reported (raised e, c) = leave c

  -- The `except` clause; an exception of `_on_error` leaves the thread after the `finally` clause.
  abbrev fail_with : Text → Coordinator W → Progress × Coordinator W
  fail_with e c = reported (handle_worker_error out sid e c)

  abbrev sent :
      (List (Option Dict) → Coordinator W → Progress × Coordinator W)
      → List (Option Dict)
      → Outcome (Unit {0}) × W
      → Coordinator W
      → Progress × Coordinator W
  sent again replies (returned u, w) c = again replies (record c { world = w })
  sent again replies (raised e, w) c = fail_with e (record c { world = w })

  -- `_wait_for_reply` and the sending of the reply; None is what `stop` puts into the queue.
  abbrev answer :
      (List (Option Dict) → Coordinator W → Progress × Coordinator W)
      → List (Option Dict)
      → Coordinator W
      → Progress × Coordinator W
  answer again [] c = (waiting, c)
  answer again (none ∷ replies) c = leave c
  answer again (some reply ∷ replies) c =
      sent again replies (send (field "type" (text "user_reply") reply) c.world) c

  abbrev handled :
      (List (Option Dict) → Coordinator W → Progress × Coordinator W)
      → Dict
      → List (Option Dict)
      → Outcome (Unit {0}) × Coordinator W
      → Progress × Coordinator W
  handled again e replies (returned u, c) =
      if is_type "done" e
      then leave c
      else if wants_reply task e
      then answer again replies c
      else again replies c
  handled again e replies (raised x, c) = fail_with x c

  unfoldable pub run : List Receipt → List (Option Dict) → Coordinator W → Progress × Coordinator W
  run [] replies c = (waiting, c)
  run (stop_set ∷ rest) replies c = leave c
  run (silence ∷ rest) replies c = run rest replies c
  run (event e ∷ rest) replies c = handled (run rest) e replies (handle_worker_event out sid e c)
  run (broken e ∷ rest) replies c = fail_with e c

  abbrev fire_status : Dict
  fire_status = field "type" (text "message") (
      field "role" (text "status")
        (field "content" (text "Firecracker sandbox started successfully.") empty))

  abbrev greeted :
      List Receipt
      → List (Option Dict)
      → Outcome (Unit {0}) × Coordinator W
      → Progress × Coordinator W
  greeted receipts replies (returned u, c) = run receipts replies c
  greeted receipts replies (raised e, c) = fail_with e c

  -- `_run`, for a worker whose sandbox was started for the task or not, with the setting for messages
  unfoldable pub run_worker :
      Bool → Bool → ℕ → List Receipt → List (Option Dict) → Coordinator W → Progress × Coordinator W
  run_worker started_for_task messages b receipts replies c =
      if started_for_task && messages && out.is_fire b
      then greeted receipts replies (handle_worker_event out sid fire_status c)
      else run receipts replies c

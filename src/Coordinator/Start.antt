-- ===== src/Coordinator/Start.antt =====
-- coordinator.py: `start_task` and `_retire_stale_sandbox`.
use strange_claw.Prelude.{
  ℕ, leb, Bool, true, false, not, ◌&&◌, Option, none, some, ◌∷◌, if◌then◌else◌,
}
use strange_claw.Text.{Text, codes, is_empty}
use strange_claw.Value.{str, dict, Dict, empty, field, text}
use strange_claw.Assoc.{Assoc, insert}
use strange_claw.Python.{Outcome, returned, raised}
use strange_claw.Session.{bind, state_for_follow_up}
use strange_claw.Coordinator.{
  SessionRecord, Outside, tasked, Coordinator, record_of, release, works,
  record_counts_toward_capacity, active_session_count, retire_begin,
}
use strange_claw.Coordinator.Events.{handle_worker_error}

pub data StartStatus : Type 0 where
  started : StartStatus
  busy : StartStatus
  capacity : StartStatus

-- What the section of `start_task` leaves: a status, and perhaps an error that is still to be reported
abbrev pub Begun : Type 0
Begun = Outcome (StartStatus × Option Text)

module _ {W : Type 0} (out : Outside W) where
  abbrev pub stop_stale : Text → Option ℕ × Assoc SessionRecord → Coordinator W → Coordinator W
  stop_stale sid (none, sessions) c = c
  stop_stale sid (some b, sessions) c = record c {
    sessions = release sid (some b) sessions;
    world = out.stop b c.world;
  }

  unfoldable pub retire_stale_sandbox : Text → Coordinator W → Coordinator W
  retire_stale_sandbox sid c = stop_stale sid (retire_begin out c.world sid c.sessions) c

  abbrev pub at_capacity : Option ℕ → ℕ → Bool
  at_capacity none count = false
  at_capacity (some limit) count = leb limit count

  -- The task event, whose last field is the state if there is one
  abbrev pub task_with : Text → Text → Dict → Dict
  task_with sid goal state = field "type" (text "task") (
      field "text" (str goal)
        (field "session_id" (str sid) (field "approval_mode" (str out.approval_mode) state)))

  abbrev pub state_field : Dict → Dict
  state_field state = field "state" (dict state) empty

  unfoldable pub task_event : Text → Text → Option Dict → Outcome Dict
  task_event sid goal none = returned (task_with sid goal empty)
  task_event sid goal (some state) =
      bind (state_for_follow_up out.lower state)
        (λ next. returned (task_with sid goal (state_field next)))

  abbrev pub put_record : Text → SessionRecord → Coordinator W → Coordinator W
  put_record sid r c = record c { sessions = insert sid r c.sessions }

  -- The `except` clause: a sandbox that was started for the task is stopped and dropped.
  abbrev pub failed_start :
      Text → SessionRecord → Bool → ℕ → Text → Coordinator W → Begun × Coordinator W
  failed_start sid r false b e c = (
    returned (started, some e),
    put_record sid (record r { worker = none; pending_role = none }) c,
  )
  failed_start sid r true b e c = (
    returned (started, some e),
    put_record sid (record r { sandbox = none; worker = none; pending_role = none })
        (record c { world = out.stop b c.world }),
  )

  abbrev pub employed :
      Text → SessionRecord → Bool → ℕ → Outcome ℕ × W → Coordinator W → Begun × Coordinator W
  employed sid r new b (returned k, w) c = (
    returned (started, none),
    put_record sid (record r { worker = some k; pending_role = none }) (record c { world = w }),
  )
  employed sid r new b (raised e, w) c = failed_start sid r new b e (record c { world = w })

  abbrev pub delivered :
      Text
      → Dict
      → SessionRecord
      → Bool
      → ℕ
      → Outcome (Unit {0}) × W
      → Coordinator W
      → Begun × Coordinator W
  delivered sid task r new b (returned u, w) c =
      employed sid r new b (out.start_worker b task w) (record c { world = w })
  delivered sid task r new b (raised e, w) c = failed_start sid r new b e (record c { world = w })

  -- `sandbox.send_task(task)` and what follows
  unfoldable pub send_to_sandbox :
      Text → Dict → SessionRecord → Bool → ℕ → Coordinator W → Begun × Coordinator W
  send_to_sandbox sid task r new b c =
      delivered sid task r new b (out.send_task b task c.world)
        (record c { log = tasked sid task ∷ c.log })

  abbrev pub bring_up :
      Text
      → Dict
      → SessionRecord
      → ℕ
      → Outcome (Unit {0}) × W
      → Coordinator W
      → Begun × Coordinator W
  bring_up sid task r b (returned u, w) c =
      send_to_sandbox sid task (record r { sandbox = some b }) true b (record c { world = w })
  bring_up sid task r b (raised e, w) c = failed_start sid r false b e (record c { world = w })

  abbrev pub built :
      Text → Dict → SessionRecord → Outcome ℕ × W → Coordinator W → Begun × Coordinator W
  built sid task r (returned b, w) c = bring_up sid task r b (out.start b sid w) c
  built sid task r (raised e, w) c = failed_start sid r false 0 e (record c { world = w })

  abbrev pub reuse :
      Text → Dict → SessionRecord → ℕ → Outcome Bool → Coordinator W → Begun × Coordinator W
  reuse sid task r b (returned true) c = send_to_sandbox sid task r false b c
  reuse sid task r b (returned false) c = built sid task r (out.sandbox_factory c.world) c
  reuse sid task r b (raised e) c = failed_start sid r false b e c

  abbrev pub launch_in :
      Text → Dict → SessionRecord → Option ℕ → Coordinator W → Begun × Coordinator W
  launch_in sid task r none c = built sid task r (out.sandbox_factory c.world) c
  launch_in sid task r (some b) c = reuse sid task r b (out.is_running c.world b) c

  abbrev pub launch :
      Text → ℕ → SessionRecord → Outcome Dict → Coordinator W → Begun × Coordinator W
  launch sid sink r (returned task) c =
      launch_in sid task (record r { sink = some sink }) r.sandbox c
  launch sid sink r (raised e) c = (raised e, c)

  -- The section of `start_task` under the lock; the first update is `setdefault`.
  unfoldable pub start_with :
      Text → Text → ℕ → SessionRecord → Coordinator W → Begun × Coordinator W
  unfolding send_to_sandbox task_event
  start_with sid goal sink r c =
      if works out c.world r.worker
      then (returned (busy, none), c)
      else if r.sandbox_stopping
      then (returned (busy, none), c)
      else if at_capacity out.max_active_sessions (active_session_count out c.world c.sessions)
          && not (record_counts_toward_capacity out c.world r)
      then (returned (capacity, none), c)
      else launch sid sink r (task_event sid (out.strip goal) r.latest_state) c

  unfoldable pub start_section : Text → Text → ℕ → Coordinator W → Begun × Coordinator W
  unfolding start_with
  start_section sid goal sink c =
      start_with sid goal sink (record_of sid c.sessions)
        (put_record sid (record_of sid c.sessions) c)

  abbrev pub reported : Outcome (Unit {0}) × Coordinator W → Outcome StartStatus × Coordinator W
  reported (returned u, c) = (returned started, c)
  reported (raised e, c) = (raised e, c)

  abbrev pub after_section : Text → Begun × Coordinator W → Outcome StartStatus × Coordinator W
  after_section sid (raised e, c) = (raised e, c)
  after_section sid (returned (status, none), c) = (returned status, c)
  after_section sid (returned (status, some e), c) = reported (handle_worker_error out sid e c)

  unfoldable pub start_task : Text → Text → ℕ → Coordinator W → Outcome StartStatus × Coordinator W
  unfolding start_section
  start_task sid goal sink c =
      if is_empty (out.strip goal)
      then (raised (codes "Task text cannot be empty."), c)
      else after_section sid (start_section sid goal sink (retire_stale_sandbox sid c))

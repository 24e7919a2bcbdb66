-- ===== src/Coordinator.antt =====
-- coordinator.py: the record of a session, and what the locked sections of `Coordinator` do with the
-- records. What acts on the outside is in the modules below.
use strange_claw.Prelude.{
  ℕ, suc, ◌-◌, ◌==◌, leb, Bool, true, false, not, ◌&&◌, Option, none, some, List, [], ◌∷◌,
  if◌then◌else◌,
}
use strange_claw.Text.{Text}
use strange_claw.Value.{Dict}
use strange_claw.Assoc.{Assoc, insert, lookup}
use strange_claw.Python.{Outcome, returned, raised}
pub mod Start
pub mod Events
pub mod Stop
pub mod Worker
pub mod Steps
pub mod Tests

pub data ReplyRole : Type 0 where
  plan_role : ReplyRole
  clarification_role : ReplyRole

-- `_SessionRecord`; workers, sandboxes and sinks are objects, known by a number.
pub record SessionRecord : Type 0 where
  pub worker : Option ℕ
  pub pending_role : Option ReplyRole
  pub latest_state : Option Dict
  pub sink : Option ℕ
  pub sandbox : Option ℕ
  pub sandbox_stopping : Bool
  pub last_task_completed_at : Option ℕ

-- What the coordinator is given: the settings, and the objects outside. `stop`, `stop_worker`, `emit` and
-- `journal` swallow their exceptions in the source.
pub record Outside (W : Type 0) : Type 0 where
  pub approval_mode : Text
  pub max_active_sessions : Option ℕ
  pub session_idle_timeout_seconds : ℕ
  pub strip : Text → Text
  pub lower : Text → Text
  pub sandbox_factory : W → Outcome ℕ × W
  pub start : ℕ → Text → W → Outcome (Unit {0}) × W
  pub send_task : ℕ → Dict → W → Outcome (Unit {0}) × W
  pub stop : ℕ → W → W
  pub is_running : W → ℕ → Outcome Bool
  pub is_fire : ℕ → Bool
  pub start_worker : ℕ → Dict → W → Outcome ℕ × W
  pub stop_worker : ℕ → W → W
  pub worker_running : W → ℕ → Bool
  pub journal : Text → Dict → W → W
  pub store : Text → Dict → W → Outcome (Unit {0}) × W
  pub emit : ℕ → Dict → W → W
  pub monotonic : W → ℕ × W

-- What happened, the newest first: a task went to the sandbox of a session, an event asked for a reply,
-- a reply went to a worker. The source has no such list.
pub data Happened : Type 0 where
  tasked : Text → Dict → Happened
  asked : Text → Happened
  answered : Text → Dict → Happened

pub record Coordinator (W : Type 0) : Type 0 where
  pub sessions : Assoc SessionRecord
  pub world : W
  pub log : List Happened

abbrev pub new_record : SessionRecord
new_record = record {
  worker = none;
  pending_role = none;
  latest_state = none;
  sink = none;
  sandbox = none;
  sandbox_stopping = false;
  last_task_completed_at = none;
}

abbrev pub or_new : Option SessionRecord → SessionRecord
or_new none = new_record
or_new (some r) = r

-- `sessions.setdefault(session_id, _SessionRecord())`
abbrev pub record_of : Text → Assoc SessionRecord → SessionRecord
record_of sid sessions = or_new (lookup sid sessions)

-- `record = sessions.get(session_id)`, and the changes of the record if there is one
abbrev pub change :
    (SessionRecord → SessionRecord)
    → Text
    → Option SessionRecord
    → Assoc SessionRecord
    → Assoc SessionRecord
change f sid none sessions = sessions
change f sid (some r) sessions = insert sid (f r) sessions

abbrev pub is_object : Option ℕ → Option ℕ → Bool
is_object none none = true
is_object (some a) (some b) = a == b
is_object _ _ = false

abbrev pub without : Option ℕ → SessionRecord → SessionRecord
without sandbox r = record r {
  sandbox = if is_object r.sandbox sandbox then none else r.sandbox;
  sandbox_stopping = false;
}

-- The last section of `stop_session`, `stop_all`, the reaper and `_retire_stale_sandbox`
unfoldable pub release : Text → Option ℕ → Assoc SessionRecord → Assoc SessionRecord
release sid sandbox sessions = change (without sandbox) sid (lookup sid sessions) sessions

unfoldable pub seed_state : Text → Dict → Assoc SessionRecord → Assoc SessionRecord
seed_state sid state sessions =
    insert sid (record (record_of sid sessions) { latest_state = some state }) sessions

abbrev role_in : Option SessionRecord → Option ReplyRole
role_in none = none
role_in (some r) = r.pending_role

unfoldable pub pending_role : Text → Assoc SessionRecord → Option ReplyRole
pending_role sid sessions = role_in (lookup sid sessions)

abbrev exited : SessionRecord → SessionRecord
exited r = record r { worker = none; pending_role = none }

unfoldable pub handle_worker_exit : Text → Assoc SessionRecord → Assoc SessionRecord
handle_worker_exit sid sessions = change exited sid (lookup sid sessions) sessions

module _ {W : Type 0} (out : Outside W) where
  abbrev pub works : W → Option ℕ → Bool
  works w none = false
  works w (some k) = out.worker_running w k

  -- `bool(sandbox.is_running())`, and `False` for an exception
  abbrev pub safely : Outcome Bool → Bool
  safely (returned b) = b
  safely (raised e) = false

  abbrev fire_runs : W → Option ℕ → Bool
  fire_runs w none = false
  fire_runs w (some b) = if not (out.is_fire b) then false else safely (out.is_running w b)

  unfoldable pub record_counts_toward_capacity : W → SessionRecord → Bool
  record_counts_toward_capacity w r =
      if r.sandbox_stopping then true else if works w r.worker then true else fire_runs w r.sandbox

  unfoldable pub active_session_count : W → Assoc SessionRecord → ℕ
  unfolding record_counts_toward_capacity
  active_session_count w [] = 0
  active_session_count w ((sid, r) ∷ rest) =
      let count = active_session_count w rest in
      if record_counts_toward_capacity w r then suc count else count

  abbrev stale : W → Option ℕ → Bool
  stale w none = false
  stale w (some b) = not (safely (out.is_running w b))

  abbrev pub retire_if :
      Bool → Text → SessionRecord → Assoc SessionRecord → Option ℕ × Assoc SessionRecord
  retire_if true sid r sessions =
      (r.sandbox, insert sid (record r { sandbox_stopping = true }) sessions)
  retire_if false sid r sessions = (none, sessions)

  abbrev pub retired :
      W → Text → Option SessionRecord → Assoc SessionRecord → Option ℕ × Assoc SessionRecord
  retired w sid none sessions = (none, sessions)
  retired w sid (some r) sessions =
      if r.sandbox_stopping then (none, sessions) else retire_if (stale w r.sandbox) sid r sessions

  -- The first section of `_retire_stale_sandbox`: the sandbox that is to be stopped
  unfoldable pub retire_begin : W → Text → Assoc SessionRecord → Option ℕ × Assoc SessionRecord
  retire_begin w sid sessions = retired w sid (lookup sid sessions) sessions

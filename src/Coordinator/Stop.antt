-- ===== src/Coordinator/Stop.antt =====
-- coordinator.py: `stop_session`, `stop_all`, and one round of `_run_idle_reaper`.
pub mod Ended
use strange_claw.Prelude.{
  ℕ, ◌-◌, ◌==◌, ltb, Bool, true, false, not, ◌&&◌, Option, none, some, List, [], ◌∷◌, if◌then◌else◌,
}
use strange_claw.Text.{Text}
use strange_claw.Assoc.{Assoc, lookup}
use strange_claw.Coordinator.{SessionRecord, Outside, Coordinator, change, release, works, safely}

-- What is to be stopped after the section: the sandboxes by session
abbrev pub Sandboxes : Type 0
Sandboxes = List (Text × ℕ)

abbrev is_set : Option ℕ → Bool
is_set none = false
is_set (some b) = true

abbrev pub stopping : SessionRecord → SessionRecord
stopping r = record r {
  pending_role = none;
  worker = none;
  sandbox_stopping = if is_set r.sandbox then true else r.sandbox_stopping;
  last_task_completed_at = none;
}

abbrev worker_in : Option SessionRecord → Option ℕ
worker_in none = none
worker_in (some r) = r.worker

abbrev sandbox_in : Option SessionRecord → Option ℕ
sandbox_in none = none
sandbox_in (some r) = r.sandbox

abbrev pub stop_begin : Text → Assoc SessionRecord → Assoc SessionRecord
stop_begin sid sessions = change stopping sid (lookup sid sessions) sessions

-- The first section of `stop_all`
unfoldable pub stop_all_begin : Assoc SessionRecord → Assoc SessionRecord
stop_all_begin [] = []
stop_all_begin ((sid, r) ∷ rest) = (sid, stopping r) ∷ stop_all_begin rest

abbrev with_sandbox : Text → Option ℕ → Sandboxes → Sandboxes
with_sandbox sid none more = more
with_sandbox sid (some b) more = (sid, b) ∷ more

abbrev with_worker : Option ℕ → List ℕ → List ℕ
with_worker none more = more
with_worker (some k) more = k ∷ more

pub all_sandboxes : Assoc SessionRecord → Sandboxes
all_sandboxes [] = []
all_sandboxes ((sid, r) ∷ rest) = with_sandbox sid r.sandbox (all_sandboxes rest)

pub all_workers : Assoc SessionRecord → List ℕ
all_workers [] = []
all_workers ((sid, r) ∷ rest) = with_worker r.worker (all_workers rest)

unfoldable pub release_all : Sandboxes → Assoc SessionRecord → Assoc SessionRecord
release_all [] sessions = sessions
release_all ((sid, b) ∷ rest) sessions = release_all rest (release sid (some b) sessions)

abbrev longer : ℕ → ℕ → Option ℕ → Bool
longer timeout now none = false
longer timeout now (some completed_at) = ltb timeout (now - completed_at)

module _ {W : Type 0} (out : Outside W) where
  abbrev stop_worker_if : Option ℕ → W → W
  stop_worker_if none w = w
  stop_worker_if (some k) w = out.stop_worker k w

  abbrev stop_sandbox_if : Option ℕ → W → W
  stop_sandbox_if none w = w
  stop_sandbox_if (some b) w = out.stop b w

  pub stop_workers : List ℕ → W → W
  stop_workers [] w = w
  stop_workers (k ∷ ks) w = stop_workers ks (out.stop_worker k w)

  pub stop_sandboxes : Sandboxes → W → W
  stop_sandboxes [] w = w
  stop_sandboxes ((sid, b) ∷ rest) w = stop_sandboxes rest (out.stop b w)

  unfoldable pub stop_session : Text → Coordinator W → Coordinator W
  stop_session sid c =
      let r = lookup sid c.sessions in
      record c {
        sessions = release sid (sandbox_in r) (stop_begin sid c.sessions);
        world = stop_sandbox_if (sandbox_in r) (stop_worker_if (worker_in r) c.world);
      }

  unfoldable pub stop_all : Coordinator W → Coordinator W
  stop_all c = record c {
    sessions = release_all (all_sandboxes c.sessions) (stop_all_begin c.sessions);
    world =
        stop_sandboxes (all_sandboxes c.sessions) (stop_workers (all_workers c.sessions) c.world);
  }

  abbrev sandbox_runs : W → Option ℕ → Bool
  sandbox_runs w none = false
  sandbox_runs w (some b) = safely out (out.is_running w b)

  -- A sandbox that runs, is not being stopped, has no running worker, and has been idle for too long
  pub is_idle : ℕ → W → SessionRecord → Bool
  is_idle now w r =
      not r.sandbox_stopping
      && sandbox_runs w r.sandbox
      && not (works out w r.worker)
      && longer out.session_idle_timeout_seconds now r.last_task_completed_at

  abbrev pub reaped : SessionRecord → SessionRecord
  reaped r = record r { sandbox_stopping = true; last_task_completed_at = none }

  unfoldable pub reap_begin : ℕ → W → Assoc SessionRecord → Assoc SessionRecord
  reap_begin now w [] = []
  reap_begin now w ((sid, r) ∷ rest) =
      (sid, if is_idle now w r then reaped r else r) ∷ reap_begin now w rest

  pub idle_sandboxes : ℕ → W → Assoc SessionRecord → Sandboxes
  idle_sandboxes now w [] = []
  idle_sandboxes now w ((sid, r) ∷ rest) =
      let more = idle_sandboxes now w rest in
      if is_idle now w r then with_sandbox sid r.sandbox more else more

  unfoldable pub stop_idle : Sandboxes → Coordinator W → Coordinator W
  stop_idle [] c = c
  stop_idle ((sid, b) ∷ rest) c =
      stop_idle rest
        (record c { sessions = release sid (some b) c.sessions; world = out.stop b c.world })

  abbrev pub reap_at : ℕ × W → Coordinator W → Coordinator W
  reap_at (now, w) c =
      stop_idle (idle_sandboxes now w c.sessions)
        (record c { sessions = reap_begin now w c.sessions; world = w })

  -- One round of the idle reaper
  unfoldable pub reap : Coordinator W → Coordinator W
  reap c = if out.session_idle_timeout_seconds == 0 then c else reap_at (out.monotonic c.world) c

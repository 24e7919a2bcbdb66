-- ===== src/Coordinator/Stop/Ended.antt =====
-- What `stop_session` and `stop_all` leave of the records, if no other section comes between theirs.
use strange_claw.Prelude.{ℕ, ◌≡◌, false, Option, none, some, [], ◌∷◌, ◌⊎◌}
use strange_claw.Text.{Text}
use strange_claw.Assoc.{Assoc}
use strange_claw.Coordinator.{SessionRecord, Coordinator}
use strange_claw.Coordinator.Stop.{Sandboxes}

-- The session has no worker, waits for nothing, and has no sandbox; its state and its sink stay.
abbrev pub ended : SessionRecord → SessionRecord
ended r = record r {
  worker = none;
  pending_role = none;
  sandbox = none;
  sandbox_stopping = false;
  last_task_completed_at = none;
}

abbrev pub on_record : (SessionRecord → SessionRecord) → Option SessionRecord → Option SessionRecord
on_record f none = none
on_record f (some r) = some (f r)

-- What is left of a record when the records of all sessions are released
pub record IsStopped (r q : SessionRecord) : Type 0 where
  pub no_worker : q.worker ≡ none
  pub no_role : q.pending_role ≡ none
  pub no_sandbox : q.sandbox ≡ none
  pub no_time : q.last_task_completed_at ≡ none
  pub same_state : q.latest_state ≡ r.latest_state
  pub not_stopping : (q.sandbox_stopping ≡ false) ⊎ (r.sandbox ≡ none)

-- The same on the way, while the sandbox of the record may still be there
record OnTheWay (r q : SessionRecord) : Type 0 where
  no_worker : q.worker ≡ none
  no_role : q.pending_role ≡ none
  its_sandbox : (q.sandbox ≡ r.sandbox) ⊎ ((q.sandbox ≡ none) × (q.sandbox_stopping ≡ false))
  no_time : q.last_task_completed_at ≡ none
  same_state : q.latest_state ≡ r.latest_state

abbrev pub Holds : (SessionRecord → Type 0) → Option SessionRecord → Type 0
Holds P none = ⊥
Holds P (some q) = P q

abbrev Freed : SessionRecord → Type 0
Freed q = (q.sandbox ≡ none) × (q.sandbox_stopping ≡ false)

abbrev Has : Text → ℕ → Sandboxes → Type 0
Has j b [] = ⊥
Has j b ((k, d) ∷ bs) = ((k ≡ j) × (d ≡ b)) ⊎ Has j b bs

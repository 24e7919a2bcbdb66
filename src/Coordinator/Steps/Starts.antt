-- ===== src/Coordinator/Steps/Starts.antt =====
-- coordinator.py: the section of `start_task` keeps the invariant.
use strange_claw.Prelude.{ℕ, Bool, true, false, none, some, ◌∷◌, if◌then◌else◌, inl, inr}
use strange_claw.Text.{Text}
use strange_claw.Value.{Dict}
use strange_claw.Assoc.{lookup}
use strange_claw.Python.{Outcome, returned, raised}
use strange_claw.Coordinator.{SessionRecord, Outside, tasked, Coordinator, record_of, works}
use strange_claw.Coordinator.Start.{
  Begun, StartStatus, busy, capacity, task_event, put_record, launch, start_with, start_section,
}
use strange_claw.Coordinator.Steps.Placed.{Placed, launch_in-Placed}
use strange_claw.Coordinator.Steps.Inserts.{insert-Weaker, record_of-waits}
use strange_claw.Coordinator.Steps.Invariant.{
  SoundAt, IsSound, IsSafeTask, IfSafe, put-IsSound, IsSound-Weaker, task_event-IfSafe,
}

module _ {W : Type 0} (out : Outside W) where
  Placed-IsSound :
      (c : Coordinator W) (sid : Text) (task : Dict) (x : Begun × Coordinator W)
      → IsSafeTask out task
      → IsSound out c.log c.sessions
      → Placed out c sid task x
      → SoundAt out x
  Placed-IsSound c sid task x fits h p = elim p.logged [
    | inl e ↦ rw p.puts (rw e (put-IsSound out c.log sid p.left c.sessions p.is_free h))
    | inr e ↦ rw p.puts (
        rw e (
          put-IsSound out (tasked sid task ∷ c.log) sid p.left c.sessions p.is_free
            (record { safe = (fits, h.safe); paid = h.paid })))
  ]

  launch-IsSound :
      (sid : Text) (sink : ℕ) (r : SessionRecord) (x : Outcome Dict) (c : Coordinator W)
      → IfSafe out x
      → IsSound out c.log c.sessions
      → SoundAt out (launch out sid sink r x c)
  launch-IsSound sid sink r (returned task) c fits h =
      Placed-IsSound c sid task _ fits h
        (launch_in-Placed out c sid task (record r { sink = some sink }) r.sandbox)
  launch-IsSound sid sink r (raised e) c fits h = h

  branch-IsSound :
      (b : Bool) (status : StartStatus) (x : Begun × Coordinator W) (c : Coordinator W)
      → IsSound out c.log c.sessions
      → SoundAt out x
      → SoundAt out (if b then (returned (status, none), c) else x)
  branch-IsSound true status x c h k = h
  branch-IsSound false status x c h k = k

  pub start_section-IsSound :
      (sid goal : Text) (sink : ℕ) (c : Coordinator W)
      → IsSound out c.log c.sessions
      → SoundAt out (start_section out sid goal sink c)
  unfolding start_section start_with
  start_section-IsSound sid goal sink c h =
      let r = record_of sid c.sessions in
      let c1 = put_record out sid r c in
      let h1 : IsSound out c1.log c1.sessions =
        IsSound-Weaker out c.log _ c.sessions
          (insert-Weaker sid r c.sessions (record_of-waits sid (lookup sid c.sessions))) h in
      branch-IsSound (works out c1.world r.worker) busy _ c1 h1 (
        branch-IsSound r.sandbox_stopping busy _ c1 h1 (
          branch-IsSound _ capacity _ c1 h1 (
            launch-IsSound sid sink r (task_event out sid (out.strip goal) r.latest_state) c1
              (task_event-IfSafe out sid (out.strip goal) r.latest_state) h1)))

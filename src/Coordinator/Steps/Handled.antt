-- ===== src/Coordinator/Steps/Handled.antt =====
-- coordinator.py: the sections of replies and of events keep the invariant.
use strange_claw.Agent.Run.{is_type}
use strange_claw.Prelude.{
  ℕ, ◌≡◌, refl, Bool, true, false, Option, none, some, inl, inr, Bool-cases, arith,
}
use strange_claw.Text.{Text, text_eq}
use strange_claw.Text.Equality.{text_eq→eq}
use strange_claw.Value.{Dict}
use strange_claw.Assoc.{lookup, lookup-insert}
use strange_claw.Python.{Outcome, returned, raised}
use strange_claw.Coordinator.{ReplyRole, SessionRecord, Outside, Coordinator, record_of}
use strange_claw.Coordinator.Events.{
  submit_reply, taken, taken_by, asked_role, ask_for, finish_task, persisted, settled, with_state,
  event_section, persist_done_event,
}
use strange_claw.Coordinator.Steps.Inserts.{waits, waits_role, insert-Weaker, record_of-waits}
use strange_claw.Coordinator.Steps.Invariant.{SoundAt, IsSound, put-IsSound, IsSound-Weaker}

module _ {W : Type 0} (out : Outside W) where
  taken-IsSound :
      (sid : Text) (reply : Dict) (r : SessionRecord) (k : Option ℕ) (role : Option ReplyRole)
      (c : Coordinator W)
      → waits (lookup sid c.sessions) ≡ waits_role role
      → IsSound out c.log c.sessions
      → SoundAt out (taken out sid reply r k role c)
  taken-IsSound sid reply r none role c e h = h
  taken-IsSound sid reply r (some k) none c e h = h
  taken-IsSound sid reply r (some k) (some role) c e h = record {
    safe = h.safe;
    paid = λ j. elim (Bool-cases (text_eq sid j)) [
      | inl same ↦
          let is_same : sid ≡ j = text_eq→eq sid j same in
          let one : waits (lookup j c.sessions) ≡ waits_role (some role) = cc in
          rw (lookup-insert sid j (record r { pending_role = none }) c.sessions)
            (rw same (omega (arith, h.paid j, one)))
      | inr differs ↦
          rw (lookup-insert sid j (record r { pending_role = none }) c.sessions)
            (rw differs (h.paid j))
    ];
  }

  taken_by-IsSound :
      (sid : Text) (reply : Dict) (x : Option SessionRecord) (c : Coordinator W)
      → lookup sid c.sessions ≡ x
      → IsSound out c.log c.sessions
      → SoundAt out (taken_by out sid reply x c)
  taken_by-IsSound sid reply none c e h = h
  taken_by-IsSound sid reply (some r) c e h =
      taken-IsSound sid reply r r.worker r.pending_role c (rw e refl) h

  pub submit_reply-IsSound :
      (sid : Text) (approved : Bool) (reply : Text) (c : Coordinator W)
      → IsSound out c.log c.sessions
      → SoundAt out (submit_reply out sid approved reply c)
  unfolding submit_reply
  submit_reply-IsSound sid approved reply c h =
      taken_by-IsSound sid _ (lookup sid c.sessions) c refl h

  ask_for-IsSound :
      (sid : Text) (role : Option ReplyRole) (c : Coordinator W)
      → IsSound out c.log c.sessions
      → IsSound out ((ask_for out sid role c).log) ((ask_for out sid role c).sessions)
  ask_for-IsSound sid none c h =
      IsSound-Weaker out c.log _ c.sessions
        (insert-Weaker sid _ c.sessions (record_of-waits sid (lookup sid c.sessions))) h
  ask_for-IsSound sid (some role) c h = record {
    safe = h.safe;
    paid = λ j. elim (Bool-cases (text_eq sid j)) [
      | inl same ↦
          rw
            (lookup-insert sid j (record (record_of sid c.sessions) { pending_role = some role })
              c.sessions)
            (rw same (omega (arith, h.paid j)))
      | inr differs ↦
          rw
            (lookup-insert sid j (record (record_of sid c.sessions) { pending_role = some role })
              c.sessions)
            (rw differs (h.paid j))
    ];
  }

  with_state-waits :
      (state : Option Dict) (r : SessionRecord)
      → (with_state out state r).pending_role ≡ r.pending_role
  with_state-waits none r = refl
  with_state-waits (some state) r = refl

  persisted-IsSound :
      (sid : Text) (x : Outcome (Option Dict) × W) (c : Coordinator W)
      → IsSound out c.log c.sessions
      → SoundAt out (persisted out sid x c)
  persisted-IsSound sid (returned state, w) c h =
      IsSound-Weaker out c.log _ c.sessions
        (insert-Weaker sid _ c.sessions (
          rw (with_state-waits state (record_of sid c.sessions))
            (record_of-waits sid (lookup sid c.sessions))))
        h
  persisted-IsSound sid (raised e, w) c h = h

  finish_task-IsSound :
      (done : Bool) (sid : Text) (event : Dict) (c : Coordinator W)
      → IsSound out c.log c.sessions
      → SoundAt out (finish_task out done sid event c)
  finish_task-IsSound false sid event c h = h
  finish_task-IsSound true sid event c h =
      persisted-IsSound sid (persist_done_event out sid event c.world) (settled out sid c)
        (put-IsSound out c.log sid _ c.sessions refl h)

  pub event_section-IsSound :
      (sid : Text) (event : Dict) (c : Coordinator W)
      → IsSound out c.log c.sessions
      → SoundAt out (event_section out sid event c)
  unfolding event_section
  event_section-IsSound sid event c h =
      finish_task-IsSound (is_type "done" event) sid event
        (ask_for out sid (asked_role out event) c) (ask_for-IsSound sid (asked_role out event) c h)

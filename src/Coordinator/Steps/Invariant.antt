-- ===== src/Coordinator/Steps/Invariant.antt =====
-- coordinator.py: what every section keeps: the tasks are safe to send, and no more replies are taken than
-- were asked for.
use strange_claw.Prelude.{
  ℕ, suc, ◌+◌, ◌≤◌, ◌≡◌, refl, Option, none, some, List, [], ◌∷◌, inl, inr, if◌then◌else◌, arith,
}
use strange_claw.Text.{Text, codes, text_eq}
use strange_claw.Value.{Value, str, dict, Dict, empty, name, get, get_field, key_eq}
use strange_claw.Assoc.{Assoc, insert, lookup}
use strange_claw.Python.{Outcome, Outcome-cases, returned, raised}
use strange_claw.Session.{state_for_follow_up}
use strange_claw.Session.Secrets.{HiddenDict, state_for_follow_up-Hidden}
use strange_claw.Coordinator.{
  SessionRecord, Outside, Happened, tasked, asked, answered, Coordinator,
}
use strange_claw.Coordinator.Start.{task_event, task_with, state_field}
use strange_claw.Coordinator.Steps.Inserts.{waits, Weaker, insert-Weaker}

abbrev pub asked_count : Text → List Happened → ℕ
asked_count sid [] = 0
asked_count sid (tasked j task ∷ t) = asked_count sid t
asked_count sid (asked j ∷ t) = if text_eq j sid then suc (asked_count sid t) else asked_count sid t
asked_count sid (answered j reply ∷ t) = asked_count sid t

abbrev pub answered_count : Text → List Happened → ℕ
answered_count sid [] = 0
answered_count sid (tasked j task ∷ t) = answered_count sid t
answered_count sid (asked j ∷ t) = answered_count sid t
answered_count sid (answered j reply ∷ t) =
    if text_eq j sid then suc (answered_count sid t) else answered_count sid t

abbrev pub HasNoPlan : (Text → Text) → Option Value → Type 0
HasNoPlan lower (some (dict state)) =
    HiddenDict lower state × (get (name (codes "plan")) state ≡ none)
HasNoPlan lower _ = Unit

module _ {W : Type 0} (out : Outside W) where
  -- The task has the approval mode of the settings, and its state no plan and no secret.
  abbrev pub IsSafeTask : Dict → Type 0
  IsSafeTask task =
      (get_field "approval_mode" task ≡ some (str out.approval_mode))
      × HasNoPlan out.lower (get_field "state" task)

  abbrev pub AllSafe : List Happened → Type 0
  AllSafe [] = Unit
  AllSafe (tasked sid task ∷ t) = IsSafeTask task × AllSafe t
  AllSafe (asked sid ∷ t) = AllSafe t
  AllSafe (answered sid reply ∷ t) = AllSafe t

  pub record IsSound (log : List Happened) (sessions : Assoc SessionRecord) : Type 0 where
    pub safe : AllSafe log
    pub paid :
        (sid : Text) → answered_count sid log + waits (lookup sid sessions) ≤ asked_count sid log

  pub IsSound-Weaker :
      (log : List Happened) (new old : Assoc SessionRecord)
      → Weaker new old
      → IsSound log old
      → IsSound log new
  IsSound-Weaker log new old weaker s = record {
    safe = s.safe;
    paid = λ sid. omega (arith, weaker sid, s.paid sid);
  }

  abbrev pub SoundAt : {A : Type 0} → A × Coordinator W → Type 0
  SoundAt x = IsSound (x.1.log) (x.1.sessions)

  -- A record that waits for nothing may be put anywhere.
  pub put-IsSound :
      (log : List Happened) (k : Text) (r : SessionRecord) (old : Assoc SessionRecord)
      → r.pending_role ≡ none
      → IsSound log old
      → IsSound log (insert k r old)
  put-IsSound log k r old e = IsSound-Weaker log _ old (insert-Weaker k r old (rw e (omega arith)))

  abbrev pub IfSafe : Outcome Dict → Type 0
  IfSafe (returned task) = IsSafeTask task
  IfSafe (raised e) = Unit

  task_with-IsSafeTask :
      (sid goal : Text) (state : Dict)
      → HiddenDict out.lower state × (get (name (codes "plan")) state ≡ none)
      → IsSafeTask (task_with out sid goal (state_field out state))
  unfolding get key_eq text_eq
  task_with-IsSafeTask sid goal state h = (refl, h)

  task_without-IsSafeTask : (sid goal : Text) → IsSafeTask (task_with out sid goal empty)
  unfolding get key_eq text_eq
  task_without-IsSafeTask sid goal = (refl, tt)

  pub task_event-IfSafe :
      (sid goal : Text) (state : Option Dict) → IfSafe (task_event out sid goal state)
  unfolding task_event
  task_event-IfSafe sid goal none = task_without-IsSafeTask sid goal
  task_event-IfSafe sid goal (some state) =
      elim (Outcome-cases (state_for_follow_up out.lower state)) [
        | inl (next, e) ↦
            rw e (
              task_with-IsSafeTask sid goal next
                (state_for_follow_up-Hidden out.lower state next e))
        | inr (x, e) ↦ rw e tt
      ]

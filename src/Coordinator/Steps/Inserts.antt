-- ===== src/Coordinator/Steps/Inserts.antt =====
-- How many replies a session waits for, under the changes of the records.
use strange_claw.Prelude.{
  ℕ, ◌≤◌, ◌≡◌, refl, Bool, true, false, Option, none, some, [], ◌∷◌, inl, inr, Bool-cases,
  if◌then◌else◌, arith,
}
use strange_claw.Value.{Dict}
use strange_claw.Text.{Text, text_eq}
use strange_claw.Text.Equality.{text_eq→eq}
use strange_claw.Assoc.{Assoc, insert, lookup, lookup-insert}
use strange_claw.Coordinator.{
  ReplyRole, SessionRecord, Outside, or_new, change, retired, retire_if, release, seed_state,
  retire_begin, handle_worker_exit,
}
use strange_claw.Coordinator.Stop.{
  stop_begin, stop_all_begin, stopping, reap_begin, reaped, is_idle,
}

abbrev pub waits_role : Option ReplyRole → ℕ
waits_role none = 0
waits_role (some role) = 1

abbrev pub waits : Option SessionRecord → ℕ
waits none = 0
waits (some r) = waits_role r.pending_role

abbrev pub Weaker : Assoc SessionRecord → Assoc SessionRecord → Type 0
Weaker new old = (sid : Text) → waits (lookup sid new) ≤ waits (lookup sid old)

pub insert-Weaker :
    (k : Text) (r : SessionRecord) (old : Assoc SessionRecord)
    → waits_role r.pending_role ≤ waits (lookup k old)
    → Weaker (insert k r old) old
insert-Weaker k r old h sid = elim (Bool-cases (text_eq k sid)) [
  | inl same ↦ rw (lookup-insert k sid r old) (rw same (rw (← text_eq→eq k sid same) h))
  | inr differs ↦ rw (lookup-insert k sid r old) (rw differs (omega arith))
]

pub record_of-waits :
    (k : Text) (x : Option SessionRecord) → waits_role ((or_new x).pending_role) ≤ waits x
record_of-waits k none = omega arith
record_of-waits k (some r) = omega arith

changed-Weaker :
    (f : SessionRecord → SessionRecord) (k : Text) (old : Assoc SessionRecord)
    (x : Option SessionRecord)
    → lookup k old ≡ x
    → ((r : SessionRecord) → waits_role ((f r).pending_role) ≤ waits_role (r.pending_role))
    → Weaker (change f k x old) old
changed-Weaker f k old none e h sid = omega arith
changed-Weaker f k old (some r) e h sid = insert-Weaker k (f r) old (rw e (h r)) sid

pub release-Weaker :
    (k : Text) (b : Option ℕ) (old : Assoc SessionRecord) → Weaker (release k b old) old
unfolding release
release-Weaker k b old = changed-Weaker _ k old (lookup k old) refl (λ r. omega arith)

pub handle_worker_exit-Weaker :
    (k : Text) (old : Assoc SessionRecord) → Weaker (handle_worker_exit k old) old
unfolding handle_worker_exit
handle_worker_exit-Weaker k old = changed-Weaker _ k old (lookup k old) refl (λ r. omega arith)

pub stop_begin-Weaker : (k : Text) (old : Assoc SessionRecord) → Weaker (stop_begin k old) old
stop_begin-Weaker k old = changed-Weaker stopping k old (lookup k old) refl (λ r. omega arith)

pub seed_state-Weaker :
    (k : Text) (state : Dict) (old : Assoc SessionRecord) → Weaker (seed_state k state old) old
unfolding seed_state
seed_state-Weaker k state old = insert-Weaker k _ old (record_of-waits k (lookup k old))

waits-if :
    (b : Bool) (x y : SessionRecord) (rest rest' : Option SessionRecord)
    → waits_role (x.pending_role) ≤ waits_role (y.pending_role)
    → waits rest ≤ waits rest'
    → waits (if b then some x else rest) ≤ waits (if b then some y else rest')
waits-if true x y rest rest' h k = h
waits-if false x y rest rest' h k = k

pub stop_all_begin-Weaker : (old : Assoc SessionRecord) → Weaker (stop_all_begin old) old
unfolding lookup stop_all_begin
stop_all_begin-Weaker [] sid = omega arith
stop_all_begin-Weaker ((k, r) ∷ rest) sid =
    waits-if (text_eq k sid) (stopping r) r _ _ (omega arith) (stop_all_begin-Weaker rest sid)

module _ {W : Type 0} (out : Outside W) where
  reaped-waits :
      (b : Bool) (r : SessionRecord)
      → waits_role ((if b then reaped out r else r).pending_role) ≤ waits_role (r.pending_role)
  reaped-waits true r = omega arith
  reaped-waits false r = omega arith

  pub reap_begin-Weaker :
      (now : ℕ) (w : W) (old : Assoc SessionRecord) → Weaker (reap_begin out now w old) old
  unfolding lookup reap_begin
  reap_begin-Weaker now w [] sid = omega arith
  reap_begin-Weaker now w ((k, r) ∷ rest) sid =
      waits-if (text_eq k sid) (if is_idle out now w r then reaped out r else r) r _ _
        (reaped-waits (is_idle out now w r) r) (reap_begin-Weaker now w rest sid)

  retire_if-Weaker :
      (b : Bool) (k : Text) (r : SessionRecord) (old : Assoc SessionRecord)
      → waits_role (r.pending_role) ≤ waits (lookup k old)
      → Weaker ((retire_if out b k r old).1) old
  retire_if-Weaker false k r old h sid = omega arith
  retire_if-Weaker true k r old h sid = insert-Weaker k _ old h sid

  retiring-Weaker :
      (b : Bool) (x : Option ℕ × Assoc SessionRecord) (old : Assoc SessionRecord)
      → Weaker (x.1) old
      → Weaker ((if◌then◌else◌ {A = Option ℕ × Assoc SessionRecord} b (none, old) x).1) old
  retiring-Weaker true x old h sid = omega arith
  retiring-Weaker false x old h sid = h sid

  retired-Weaker :
      (w : W) (k : Text) (x : Option SessionRecord) (old : Assoc SessionRecord)
      → lookup k old ≡ x
      → Weaker ((retired out w k x old).1) old
  retired-Weaker w k none old e sid = omega arith
  retired-Weaker w k (some r) old e sid =
      retiring-Weaker r.sandbox_stopping _ old (retire_if-Weaker _ k r old (rw e (omega arith))) sid

  pub retire_begin-Weaker :
      (w : W) (k : Text) (old : Assoc SessionRecord) → Weaker ((retire_begin out w k old).1) old
  unfolding retire_begin
  retire_begin-Weaker w k old = retired-Weaker w k (lookup k old) old refl

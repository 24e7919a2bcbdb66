-- ===== src/Coordinator/Steps/Capacity.antt =====
-- coordinator.py: `_active_session_count_locked` under the changes of one record, and the limit that
-- `start_task` keeps.
use strange_claw.Prelude.{
  ℕ, suc, max, leb, ◌≤◌, ◌≡◌, refl, Bool, true, false, not, ◌&&◌, Option, none, some, [], ◌∷◌, inl,
  inr, Bool-cases, if◌then◌else◌, arith, All,
}
use strange_claw.Text.{Text, text_eq}
use strange_claw.Assoc.{Assoc, insert, lookup, lookup-insert_self}
use strange_claw.Value.{Dict}
use strange_claw.Python.{Outcome, returned, raised}
use strange_claw.Coordinator.Start.{
  Begun, at_capacity, put_record, task_event, launch, start_with, start_section,
}
use strange_claw.Coordinator.Steps.Placed.{Placed, launch_in-Placed}
use strange_claw.Coordinator.{
  SessionRecord, Outside, Coordinator, new_record, record_of, works, record_counts_toward_capacity,
  active_session_count,
}

module _ {W : Type 0} (out : Outside W) where
  -- What counts in the world `v` has counted in the world `w`: no other session has begun to run.
  abbrev pub Calm : W → W → Assoc SessionRecord → Type 0
  Calm w v sessions =
      All
        (λ entry.
          record_counts_toward_capacity out v entry.1 ≡ true
          → record_counts_toward_capacity out w entry.1 ≡ true)
        sessions

  count-Calm :
      (w v : W) (s : Assoc SessionRecord)
      → Calm w v s
      → active_session_count out v s ≤ active_session_count out w s
  unfolding active_session_count
  count-Calm w v [] h = omega arith
  count-Calm w v ((sid, r) ∷ rest) h = ground (arith, count-Calm w v rest h.1, h.0)

  count-insert :
      (w v : W) (k : Text) (r : SessionRecord) (s : Assoc SessionRecord)
      → Calm w v s
      → active_session_count out v (insert k r s) ≤ suc (active_session_count out w s)
  unfolding active_session_count insert
  count-insert w v k r [] h = ground arith
  count-insert w v k r ((j, q) ∷ rest) h =
      ground (arith, count-Calm w v rest h.1, count-insert w v k r rest h.1, h.0)

  count-insert_counted :
      (w v : W) (k : Text) (r old : SessionRecord) (s : Assoc SessionRecord)
      → Calm w v s
      → lookup k s ≡ some old
      → record_counts_toward_capacity out w old ≡ true
      → active_session_count out v (insert k r s) ≤ active_session_count out w s
  unfolding active_session_count insert lookup
  count-insert_counted w v k r old [] h e counted = cc
  count-insert_counted w v k r old ((j, q) ∷ rest) h e counted =
      grind (arith, count-Calm w v rest h.1, count-insert_counted w v k r old rest h.1, h.0)

  new_record-counts : (w : W) → record_counts_toward_capacity out w new_record ≡ false
  unfolding record_counts_toward_capacity
  new_record-counts w = refl

  Calm-new :
      (w v : W) (k : Text) (r : SessionRecord) (s : Assoc SessionRecord)
      → record_of k s ≡ r
      → Calm w v s
      → Calm w v (insert k r s)
  unfolding insert lookup
  Calm-new w v k r [] e h = ((λ counted. absurd (cc (new_record-counts v))), tt)
  Calm-new w v k r ((j, q) ∷ rest) e h = elim (Bool-cases (text_eq j k)) [
    | inl same ↦ rw same (rw (← (rw same at e)) h)
    | inr differs ↦ rw differs (h.0, Calm-new w v k r rest (rw differs at e) h.1)
  ]

  count_new-le :
      (w : W) (k : Text) (r : SessionRecord) (s : Assoc SessionRecord)
      → record_of k s ≡ r
      → active_session_count out w (insert k r s) ≤ active_session_count out w s
  unfolding active_session_count insert lookup
  count_new-le w k r [] e = rw (← e) (omega arith)
  count_new-le w k r ((j, q) ∷ rest) e = elim (Bool-cases (text_eq j k)) [
    | inl same ↦ rw same (rw (← (rw same at e)) (omega arith))
    | inr differs ↦ rw differs (ground (arith, count_new-le w k r rest (rw differs at e)))
  ]

  module _ (limit : ℕ) (bounded : out.max_active_sessions ≡ some limit) (w : W)
      (s : Assoc SessionRecord) where
    -- The sessions that count are within the limit, or no more than before.
    abbrev Fits : Begun × Coordinator W → Type 0
    Fits x =
        Calm w x.1.world s
        → active_session_count out x.1.world x.1.sessions ≤ max limit (active_session_count out w s)

    Fits-if :
        (b : Bool) (x y : Begun × Coordinator W)
        → (b ≡ true → Fits x)
        → (b ≡ false → Fits y)
        → Fits (if b then x else y)
    Fits-if true x y f g = f refl
    Fits-if false x y f g = g refl

    has_room :
        (m : Option ℕ) (n : ℕ) (b : Bool)
        → m ≡ some limit
        → (at_capacity out m n && not b) ≡ false
        → b ≡ false
        → leb limit n ≡ false
    has_room none n b e h k = absurd (cc)
    has_room (some l) n true e h k = absurd (cc)
    has_room (some l) n false e h k = grind arith

    Placed-Fits :
        (sid : Text) (task : Dict) (c1 : Coordinator W) (r : SessionRecord)
        (x : Begun × Coordinator W)
        → c1.sessions ≡ insert sid (record_of sid s) s
        → lookup sid c1.sessions ≡ some r
        → (at_capacity out out.max_active_sessions (active_session_count out w c1.sessions)
            && not (record_counts_toward_capacity out w r))
          ≡ false
        → Placed out c1 sid task x
        → Fits x
    Placed-Fits sid task c1 r x e found room p calm =
        let calm1 : Calm w x.1.world c1.sessions =
          rw e (Calm-new w x.1.world sid (record_of sid s) s refl calm) in
        let fewer : active_session_count out w c1.sessions ≤ active_session_count out w s =
          rw e (count_new-le w sid (record_of sid s) s refl) in
        let more = count-insert w x.1.world sid p.left c1.sessions calm1 in
        elim (Bool-cases (record_counts_toward_capacity out w r)) [
          | inl counted ↦ rw p.puts (
              omega (
                arith,
                fewer,
                count-insert_counted w x.1.world sid p.left r c1.sessions calm1 found counted,
              ))
          | inr fresh ↦
              let below =
                has_room (out.max_active_sessions) (active_session_count out w c1.sessions)
                  (record_counts_toward_capacity out w r) bounded room fresh in
              rw p.puts (ground (arith, fewer, more, below))
        ]

    launch-Fits :
        (sid : Text) (sink : ℕ) (r : SessionRecord) (t : Outcome Dict) (c1 : Coordinator W)
        → c1.sessions ≡ insert sid (record_of sid s) s
        → lookup sid c1.sessions ≡ some r
        → (at_capacity out out.max_active_sessions (active_session_count out w c1.sessions)
            && not (record_counts_toward_capacity out w r))
          ≡ false
        → Fits (raised [], c1)
        → Fits (launch out sid sink r t c1)
    launch-Fits sid sink r (returned task) c1 e found room kept =
        Placed-Fits sid task c1 r _ e found room
          (launch_in-Placed out c1 sid task (record r { sink = some sink }) r.sandbox)
    launch-Fits sid sink r (raised x) c1 e found room kept = kept

  -- If no other session begins to run meanwhile, then after the section of `start_task` the sessions
  -- that count toward the capacity are within the limit, or no more than before.
  pub start_section-le :
      (limit : ℕ) (sid goal : Text) (sink : ℕ) (c : Coordinator W)
      → out.max_active_sessions ≡ some limit
      → Calm c.world (start_section out sid goal sink c).1.world c.sessions
      → active_session_count out
          (start_section out sid goal sink c).1.world
          (start_section out sid goal sink c).1.sessions
        ≤ max limit (active_session_count out c.world c.sessions)
  unfolding start_section start_with
  start_section-le limit sid goal sink c bounded =
      let r = record_of sid c.sessions in
      let c1 = put_record out sid r c in
      let kept : Fits limit bounded c.world c.sessions (raised [], c1) =
        (λ calm. omega (arith, count_new-le c.world sid r c.sessions refl)) in
      Fits-if limit bounded c.world c.sessions (works out c.world r.worker) _ _ (λ _. kept)
        λ _.
          Fits-if limit bounded c.world c.sessions r.sandbox_stopping _ _ (λ _. kept)
            λ _.
              Fits-if limit bounded c.world c.sessions _ _ _ (λ _. kept)
                λ room.
                  launch-Fits limit bounded c.world c.sessions sid sink r
                    (task_event out sid (out.strip goal) r.latest_state) c1 refl
                    (lookup-insert_self sid r c.sessions) room kept

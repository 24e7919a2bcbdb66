-- ===== src/Coordinator/Worker/Waits.antt =====
-- The worker and the coordinator agree on when a reply is wanted, and a worker that ends leaves no request.
use strange_claw.Prelude.{
  ℕ, ◌≡◌, refl, Bool, true, false, ◌&&◌, ◌||◌, Option, none, some, List, [], ◌∷◌, if◌then◌else◌,
}
use strange_claw.Text.{Text, codes, text_eq}
use strange_claw.Value.{Dict, str, get_field}
use strange_claw.Assoc.{Assoc, lookup, lookup-insert_self}
use strange_claw.Python.{Outcome, returned, raised}
use strange_claw.Agent.Run.{type_is, is_type}
use strange_claw.Coordinator.{
  ReplyRole, plan_role, clarification_role, SessionRecord, Outside, Coordinator, pending_role,
  change, exited, handle_worker_exit,
}
use strange_claw.Coordinator.Events.{asked_role, handle_worker_event}
use strange_claw.Coordinator.Worker.{
  Receipt, stop_set, silence, event, broken, Progress, ended, waiting, wants_reply, leave, reported,
  sent, answer, handled, run, greeted, run_worker,
}

abbrev pub is_asked : Option ReplyRole → Bool
is_asked none = false
is_asked (some role) = true

asked-table :
    (message plan review clarification : Bool)
    → is_asked (
        if message
        then if plan && review
          then some plan_role
          else if clarification
          then some clarification_role
          else none
        else none)
      ≡ (message && ((plan && review) || clarification))
asked-table false plan review clarification = refl
asked-table true true true clarification = refl
asked-table true true false true = refl
asked-table true true false false = refl
asked-table true false review true = refl
asked-table true false review false = refl

module _ {W : Type 0} (out : Outside W) where
  -- If the task has the approval mode of the coordinator, then the worker waits for a reply after exactly
  -- those events for which the coordinator notes that a reply is pending.
  pub is_asked-wants_reply :
      (task e : Dict)
      → get_field "approval_mode" task ≡ some (str out.approval_mode)
      → is_asked (asked_role out e) ≡ wants_reply task e
  unfolding asked_role wants_reply
  is_asked-wants_reply task e mode = rw mode (
      asked-table (is_type "message" e) (type_is "plan" (get_field "role" e))
        (text_eq out.approval_mode (codes "review")) (type_is "clarification" (get_field "role" e)))

  module _ (send : Dict → W → Outcome (Unit {0}) × W) (sid : Text) (task : Dict) where
    -- A worker that has ended has left a session without a pending role.
    abbrev pub LeavesNone : Progress × Coordinator W → Type 0
    LeavesNone (ended, c) = pending_role sid c.sessions ≡ none
    LeavesNone (waiting, c) = Unit

    exit-none :
        (x : Option SessionRecord) (sessions : Assoc SessionRecord)
        → lookup sid sessions ≡ x
        → pending_role sid (change exited sid x sessions) ≡ none
    unfolding pending_role
    exit-none none sessions e = rw e refl
    exit-none (some r) sessions e = rw (lookup-insert_self sid (exited r) sessions) refl

    leave-LeavesNone : (c : Coordinator W) → LeavesNone (leave out send sid task c)
    unfolding handle_worker_exit
    leave-LeavesNone c = exit-none (lookup sid c.sessions) c.sessions refl

    reported-LeavesNone :
        (x : Outcome (Unit {0}) × Coordinator W) → LeavesNone (reported out send sid task x)
    reported-LeavesNone (returned u, c) = leave-LeavesNone c
    reported-LeavesNone (raised e, c) = leave-LeavesNone c

    sent-LeavesNone :
        (again : List (Option Dict) → Coordinator W → Progress × Coordinator W)
        (replies : List (Option Dict)) (x : Outcome (Unit {0}) × W) (c : Coordinator W)
        → ((qs : List (Option Dict)) (d : Coordinator W) → LeavesNone (again qs d))
        → LeavesNone (sent out send sid task again replies x c)
    sent-LeavesNone again replies (returned u, w) c h = h replies (record c { world = w })
    sent-LeavesNone again replies (raised e, w) c h = reported-LeavesNone _

    answer-LeavesNone :
        (again : List (Option Dict) → Coordinator W → Progress × Coordinator W)
        (replies : List (Option Dict)) (c : Coordinator W)
        → ((qs : List (Option Dict)) (d : Coordinator W) → LeavesNone (again qs d))
        → LeavesNone (answer out send sid task again replies c)
    answer-LeavesNone again [] c h = tt
    answer-LeavesNone again (none ∷ replies) c h = leave-LeavesNone c
    answer-LeavesNone again (some reply ∷ replies) c h = sent-LeavesNone again replies _ c h

    if-LeavesNone :
        (b : Bool) (x y : Progress × Coordinator W)
        → LeavesNone x
        → LeavesNone y
        → LeavesNone (if b then x else y)
    if-LeavesNone true x y f g = f
    if-LeavesNone false x y f g = g

    handled-LeavesNone :
        (again : List (Option Dict) → Coordinator W → Progress × Coordinator W) (e : Dict)
        (replies : List (Option Dict)) (x : Outcome (Unit {0}) × Coordinator W)
        → ((qs : List (Option Dict)) (d : Coordinator W) → LeavesNone (again qs d))
        → LeavesNone (handled out send sid task again e replies x)
    handled-LeavesNone again e replies (returned u, c) h =
        if-LeavesNone (is_type "done" e) _ _ (leave-LeavesNone c) (
          if-LeavesNone (wants_reply task e) _ _ (answer-LeavesNone again replies c h)
            (h replies c))
    handled-LeavesNone again e replies (raised x, c) h = reported-LeavesNone _

    run-LeavesNone :
        (receipts : List Receipt) (replies : List (Option Dict)) (c : Coordinator W)
        → LeavesNone (run out send sid task receipts replies c)
    unfolding run
    run-LeavesNone [] replies c = tt
    run-LeavesNone (stop_set ∷ rest) replies c = leave-LeavesNone c
    run-LeavesNone (silence ∷ rest) replies c = run-LeavesNone rest replies c
    run-LeavesNone (event e ∷ rest) replies c =
        handled-LeavesNone (run out send sid task rest) e replies (handle_worker_event out sid e c)
          (λ qs d. run-LeavesNone rest qs d)
    run-LeavesNone (broken e ∷ rest) replies c = reported-LeavesNone _

    greeted-LeavesNone :
        (receipts : List Receipt) (replies : List (Option Dict))
        (x : Outcome (Unit {0}) × Coordinator W)
        → LeavesNone (greeted out send sid task receipts replies x)
    greeted-LeavesNone receipts replies (returned u, c) = run-LeavesNone receipts replies c
    greeted-LeavesNone receipts replies (raised e, c) = reported-LeavesNone _

    -- However a worker ends, by a done event, a stop, or an exception, its session has no pending role then,
    -- so that a later reply is refused.
    pub run_worker-LeavesNone :
        (started_for_task messages : Bool) (b : ℕ) (receipts : List Receipt)
        (replies : List (Option Dict)) (c : Coordinator W)
        → LeavesNone (run_worker out send sid task started_for_task messages b receipts replies c)
    unfolding run_worker
    run_worker-LeavesNone started_for_task messages b receipts replies c =
        if-LeavesNone (started_for_task && messages && out.is_fire b) _ _
          (greeted-LeavesNone receipts replies _) (run-LeavesNone receipts replies c)

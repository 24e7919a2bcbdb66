-- ===== src/Agent/Task/Course.antt =====
-- The course of a task: what it runs, when, and how it ends.
use strange_claw.Prelude.{
  ℕ, zero, suc, ◌+◌, ◌≡◌, refl, Bool, true, false, Option, none, some, List, ◌⊎◌, inl, inr, arith,
}
use strange_claw.Text.{Text, codes, text_eq}
use strange_claw.Value.{Value, dict, Dict, get, key_eq}
use strange_claw.Assoc.{Assoc}
use strange_claw.Agent.Run.{Runtime, ToolCall, Loop, Action, Run, pure, ◌>>=◌, ◌>>◌}
use strange_claw.Agent.Run.Triple.{
  Post, Triple, Triple-pure, Triple-bind, Triple-then, Triple-weaken, Caught, Triple-catch_agent,
}
use strange_claw.Agent.Log.{
  On, Within, Ready, Within-Steady, Ready-Steady, Within_sent, Within_more, Ready-more, send-Triple,
  Triple_quiet, append_history-Triple,
}
use strange_claw.Agent.Plan.{message_event, normalize_plan}
use strange_claw.Agent.Plan.Approval.{
  planning_phase-Triple, activate-Triple, emit_decision_parse_error-Triple,
}
use strange_claw.Agent.Decide.{choose_next_decision}
use strange_claw.Agent.Decide.Keeps.{choose_next_decision-Keeps}
use strange_claw.Agent.Act.{Acted}
use strange_claw.Agent.Act.Once.{After, over, on, act_on_decision-Fine, send_done-Triple}
use strange_claw.Agent.Task.{
  resumed, plan_or, give_up, is_past, out_of_time, observe, adopt, End, finished, timed_out,
  stop_or, end_of_iterations, after_choice, iterate, after_activation, after_planning,
}

module _ {W : Type 0} (rt : Runtime W) (strict : Bool) where
  -- Whether the task ended with its done event, or without one
  abbrev pub AtEnd : ℕ → ℕ → End → List Action → Type 0
  AtEnd runs d finished = Within strict runs (suc d)
  AtEnd runs d timed_out = Within strict runs d

  pub observe-Triple :
      (P : List Action → Type 0) (o : Option Dict) {E : Loop W → Type 0}
      → Triple (On P) (observe rt o) (λ _. On P) E
  unfolding observe
  observe-Triple P none = Triple-pure tt (λ s p. p)
  observe-Triple P (some e) = append_history-Triple P e

  is_past-trace : (o : Option ℕ) (x : ℕ × W) (s : Loop W) → (is_past rt o x s).1.trace ≡ s.trace
  is_past-trace none x s = refl
  is_past-trace (some t) (now, w) s = refl

  out_of_time-Triple :
      (P : List Action → Type 0) → Triple (On P) (out_of_time rt) (λ _. On P) (On P)
  unfolding out_of_time
  out_of_time-Triple P = Triple_quiet P _ (λ s. is_past-trace s.deadline _ s)

  module _ (runs d : ℕ) where
    end_of_iterations-Triple :
        (goal : Text) (plan : Dict)
        → Triple
            (On (Ready strict runs d))
            (end_of_iterations rt goal plan)
            (λ end. On (AtEnd runs d end))
            (On (Within strict runs d))
    unfolding end_of_iterations get key_eq text_eq
    end_of_iterations-Triple goal plan =
        Triple-then _ _
          (Triple-weaken _
            (send-Triple (Within strict runs d) (Within strict runs d)
              (message_event "clarification" _) (λ t w. Within_sent strict runs d _ t refl w))
            (λ s r. r.within) (λ a s w. w) (λ s w. w))
          λ _.
            Triple-then _ _ (send_done-Triple rt strict runs d goal (dict plan) false _)
              λ _. Triple-pure finished (λ s w. w)

    give_up-Triple :
        (goal : Text) (plan : Value) (e : Text)
        → Triple
            (On (Within strict runs d))
            (give_up rt goal plan e)
            (λ _. On (Within strict runs (suc d)))
            (On (Within strict runs d))
    unfolding give_up
    give_up-Triple goal plan e =
        Triple-bind _ _ (emit_decision_parse_error-Triple rt _ (Within-Steady strict runs d) e)
          λ event.
            Triple-then _ _ (append_history-Triple (Within strict runs d) event)
              λ _. send_done-Triple rt strict runs d goal plan false _

  module _ (approval_mode : Text)
      (reviewed : strict ≡ true → text_eq approval_mode (codes "review") ≡ true) (d : ℕ) where
    adopt-Ready :
        (runs : ℕ) (goal : Text) (o : Acted) (activated : Assoc Dict) (raw : Option Value)
        → Triple
            (On (Ready strict runs d))
            (adopt rt goal approval_mode o activated raw)
            (λ _. On (Ready strict runs d))
            (On (Within strict runs d))
    unfolding adopt
    adopt-Ready runs goal o activated none = Triple-pure _ (λ s r. r)
    adopt-Ready runs goal o activated (some raw) =
        activate-Triple rt strict runs d approval_mode reviewed 3 goal (normalize_plan rt raw goal)

    module _ (runs left : ℕ) (again : Dict → Assoc Dict → Run (Loop W) End)
        (later : (plan : Dict) (activated : Assoc Dict)
          → Triple
              (On (Ready strict (suc runs) d))
              (again plan activated)
              (λ end. On (AtEnd (suc runs + left) d end))
              (On (Within strict (suc runs + left) d))) where
      abbrev Ends : Run (Loop W) End → (Loop W → Type 0) → Type 0
      Ends m P =
          Triple P m (λ end. On (AtEnd (suc runs + left) d end))
            (On (Within strict (suc runs + left) d))

      more :
          (k : ℕ) (t : List Action)
          → Within strict (suc runs) k t
          → Within strict (suc runs + left) k t
      more k t w = Within_more strict (suc runs) (suc runs + left) k t (omega arith) w

      going :
          (goal : Text) (o : Acted) (activated : Assoc Dict) (s : Loop W)
          → On (After rt strict runs d approval_mode reviewed o) s
          → Post
              (λ end. On (AtEnd (suc runs + left) d end))
              (On (Within strict (suc runs + left) d))
              ((do
                adopted ← adopt rt goal approval_mode o activated o.replanned
                observe rt o.observation
                stop_or rt o.done finished (again adopted.0 adopted.1))
                s)
      unfolding adopt
      going goal o activated s (over done kept w) =
          rw (done, kept)
            ((Triple-bind {P = On (Within strict (suc runs) (suc d))}
                {E = On (Within strict (suc runs + left) d)} _ _
                (Triple-pure (o.plan, activated) (λ s w. w))
                λ adopted.
                  Triple-then _ _ (observe-Triple (Within strict (suc runs) (suc d)) o.observation)
                    λ _. Triple-pure finished (λ s w. more (suc d) s.trace w)).at
              s w)
      going goal o activated s (on goes r) = rw goes (
          (Triple-bind _ _
              (Triple-weaken _ (adopt-Ready (suc runs) goal o activated o.replanned) (λ s r. r)
                (λ a s r. r) (λ s w. more d s.trace w))
              λ adopted.
                Triple-then _ _ (observe-Triple (Ready strict (suc runs) d) o.observation)
                  λ _. later adopted.0 adopted.1).at
            s r)

      after_choice-Ends :
          (goal : Text) (plan : Dict) (activated : Assoc Dict) (choice : Option ToolCall)
          → Ends
              (after_choice rt again goal approval_mode plan activated choice)
              (On (Ready strict runs d))
      unfolding after_choice
      after_choice-Ends goal plan activated none =
          Triple-weaken _ (later plan activated)
            (λ s r. Ready-more strict runs (suc runs) d s.trace (omega arith) r) (λ a s w. w)
            (λ s w. w)
      after_choice-Ends goal plan activated (some c) =
          Triple-bind _ _
            (Triple-weaken _
              (act_on_decision-Fine rt strict runs d approval_mode reviewed c goal plan activated)
              (λ s r. r) (λ a s r. r) (λ s w. more d s.trace w))
            λ o. record { at = λ s r. going goal o activated s r }

      choice-Ends :
          (goal : Text) (plan : Dict) (activated : Assoc Dict) (late : Bool)
          → Ends
              (stop_or rt late timed_out (
                choose_next_decision rt goal plan activated
                >>= after_choice rt again goal approval_mode plan activated))
              (On (Ready strict runs d))
      choice-Ends goal plan activated true =
          Triple-pure timed_out
            (λ s r. Within_more strict runs (suc runs + left) d s.trace (omega arith) r.within)
      choice-Ends goal plan activated false =
          Triple-bind _ _
            (Triple-weaken _
              (choose_next_decision-Keeps rt (Ready strict runs d) (Ready-Steady strict runs d) goal
                plan activated)
              (λ s r. r) (λ a s r. r)
              (λ s r. Within_more strict runs (suc runs + left) d s.trace (omega arith) r.within))
            (after_choice-Ends goal plan activated)

    iterate-Ends :
        (left runs : ℕ) (goal : Text) (plan : Dict) (activated : Assoc Dict)
        → Triple
            (On (Ready strict runs d))
            (iterate rt left goal approval_mode plan activated)
            (λ end. On (AtEnd (runs + left) d end))
            (On (Within strict (runs + left) d))
    unfolding iterate
    iterate-Ends zero runs goal plan activated =
        let e : runs + 0 ≡ runs = omega arith in rw e (end_of_iterations-Triple runs d goal plan)
    iterate-Ends (suc left) runs goal plan activated =
        let e : runs + suc left ≡ suc runs + left = omega arith in
        rw e (
          Triple-bind _ _
            (Triple-weaken _ (out_of_time-Triple (Ready strict runs d)) (λ s r. r) (λ a s r. r)
              (λ s r. Within_more strict runs (suc runs + left) d s.trace (omega arith) r.within))
            (λ late.
              choice-Ends runs left (iterate rt left goal approval_mode)
                (λ p a. iterate-Ends left (suc runs) goal p a) goal plan activated late))

    abbrev EndsTask : Run (Loop W) End → ℕ → (Loop W → Type 0) → Type 0
    EndsTask m runs P =
        Triple P m (λ end. On (AtEnd (runs + rt.max_iterations) d end))
          (On (Within strict (runs + rt.max_iterations) d))

    pub widen :
        (runs k : ℕ) (t : List Action)
        → Within strict runs k t
        → Within strict (runs + rt.max_iterations) k t
    widen runs k t w = Within_more strict runs (runs + rt.max_iterations) k t (omega arith) w

    give_up-Ends :
        (runs : ℕ) (goal : Text) (plan : Value) (e : Text)
        → EndsTask (do give_up rt goal plan e; pure finished) runs (On (Within strict runs d))
    give_up-Ends runs goal plan e =
        Triple-then _ _
          (Triple-weaken _ (give_up-Triple runs d goal plan e) (λ s w. w) (λ a s w. w)
            (λ s w. widen runs d s.trace w))
          λ _. Triple-pure finished (λ s w. widen runs (suc d) s.trace w)

    after_activation-Ends :
        (runs : ℕ) (goal : Text) (plan : Dict) (x : (Dict × Assoc Dict) ⊎ Text)
        → EndsTask
            (after_activation rt goal approval_mode plan x)
            runs
            (Caught (λ _. On (Ready strict runs d)) (On (Within strict runs d)) x)
    unfolding after_activation
    after_activation-Ends runs goal plan (inl (current, activated)) =
        iterate-Ends rt.max_iterations runs goal current activated
    after_activation-Ends runs goal plan (inr e) = give_up-Ends runs goal (dict plan) e

    pub after_planning-Ends :
        (runs : ℕ) (goal : Text) (resumed : Option Value) (x : Value ⊎ Text)
        → EndsTask
            (after_planning rt goal approval_mode resumed x)
            runs
            (Caught (λ _. On (Ready strict runs d)) (On (Within strict runs d)) x)
    unfolding after_planning
    after_planning-Ends runs goal resumed (inl raw) =
        Triple-bind _ _
          (Triple-weaken _
            (Triple-catch_agent _ (
              activate-Triple rt strict runs d approval_mode reviewed 3 goal
                (normalize_plan rt raw goal)))
            (λ s r. r) (λ a s r. r) (λ s w. widen runs d s.trace w))
          (after_activation-Ends runs goal (normalize_plan rt raw goal))
    after_planning-Ends runs goal resumed (inr e) = give_up-Ends runs goal _ e

    pub plan_or-Triple :
        (runs : ℕ) (o : Option Value) (goal : Text)
        → (strict ≡ true → o ≡ none)
        → Triple
            (On (Within strict runs d))
            (plan_or rt o goal approval_mode)
            (λ _. On (Ready strict runs d))
            (On (Within strict runs d))
    unfolding plan_or
    plan_or-Triple runs none goal fresh =
        planning_phase-Triple rt strict runs d approval_mode reviewed goal
    plan_or-Triple runs (some plan) goal fresh =
        Triple-pure plan (λ s w. record { within = w; clear = λ on. absurd (cc (fresh on)) })

-- ===== src/Agent/Plan/Approval.antt =====
-- After planning in review mode the user has approved the plan that was shown last.
use strange_claw.Prelude.{
  ℕ, zero, suc, ◌≡◌, refl, Bool, true, not, Option, none, some, List, [], ◌∷◌, ◌⊎◌, inl, inr, arith,
}
use strange_claw.Text.{Text, codes, text_eq}
use strange_claw.Value.{Value, str, Dict, get_field, get, key_eq}
use strange_claw.Assoc.{Assoc}
use strange_claw.Broker.Config.{truth}
use strange_claw.Agent.Run.{
  Prompt, planning, Completion, response, llm_error, llm_crashed, Runtime, Incoming, no_event,
  arrival, receive_error, Loop, Action, replied, Run, is_type,
}
use strange_claw.Agent.Run.Triple.{
  Post, Post-if, Triple, Triple-pure, Triple-fail, Triple-if, Triple-bind, Triple-then,
  Triple-weaken, Caught, Triple-catch_runtime,
}
use strange_claw.Agent.Log.{
  On, Steady, is_approval, Within, Ready, Within-Steady, Within_sent, Within_replied,
  Ready-approved, send-Triple, Triple_quiet, append_history-Triple,
}
use strange_claw.Agent.Plan.{
  complete_text, answer_of, generate_plan, emit_llm_runtime_error, emit_decision_parse_error,
  runtime_error_event, parse_error_event, message_event, retry, attempt_plan, propose, judge,
  review, planning_phase, settle, activate, wait_in, wait_for_user_reply, take_reply,
}

answer-trace :
    {W : Type 0} (rt : Runtime W) (c : Completion × W) (s : Loop W)
    → (answer_of rt c s).1.trace ≡ s.trace
answer-trace rt (response t a, w) s = refl
answer-trace rt (llm_error e, w) s = refl
answer-trace rt (llm_crashed e, w) s = refl

module _ {W : Type 0} (rt : Runtime W) (P : List Action → Type 0) where
  pub complete_text-Triple :
      (prompt : Prompt) → Triple (On P) (complete_text rt prompt) (λ _. On P) (On P)
  unfolding complete_text
  complete_text-Triple prompt = Triple_quiet P _ (λ s. answer-trace rt _ s)

  module _ (steady : Steady P) where
    pub emit_llm_runtime_error-Triple :
        (e : Text) → Triple (On P) (emit_llm_runtime_error rt e) (λ _. On P) (On P)
    unfolding emit_llm_runtime_error get key_eq text_eq
    emit_llm_runtime_error-Triple e =
        Triple-then _ _ (send-Triple P P (runtime_error_event rt e) (λ t p. steady _ t refl refl p))
          (λ _. Triple-pure _ (λ s p. p))

    pub emit_decision_parse_error-Triple :
        (e : Text) → Triple (On P) (emit_decision_parse_error rt e) (λ _. On P) (On P)
    unfolding emit_decision_parse_error get key_eq text_eq
    emit_decision_parse_error-Triple e =
        Triple-then _ _ (send-Triple P P (parse_error_event rt e) (λ t p. steady _ t refl refl p))
          (λ _. Triple-pure _ (λ s p. p))

    generate_plan-Triple :
        (goal : Text) (feedback : Option Value)
        → Triple (On P) (generate_plan rt goal feedback) (λ _. On P) (On P)
    unfolding generate_plan
    generate_plan-Triple goal feedback =
        Triple-bind _ _ (complete_text-Triple (planning goal feedback))
          (λ a. Triple-pure _ (λ s p. p))

    retry-Triple :
        (again : Run (Loop W) Value) (x : Value ⊎ Text)
        → Triple (On P) again (λ _. On P) (On P)
        → Triple (On P) (retry rt again x) (λ _. On P) (On P)
    unfolding retry
    retry-Triple again (inl plan) t = Triple-pure plan (λ s p. p)
    retry-Triple again (inr e) t =
        Triple-bind _ _ (emit_llm_runtime_error-Triple e)
          λ o. Triple-then _ _ (append_history-Triple P o) (λ _. t)

    On-Caught :
        (x : Value ⊎ Text) (again : Run (Loop W) Value)
        → Triple (On P) again (λ _. On P) (On P)
        → Triple (Caught (λ _. On P) (On P) x) (retry rt again x) (λ _. On P) (On P)
    On-Caught (inl plan) again t = retry-Triple again (inl plan) t
    On-Caught (inr e) again t = retry-Triple again (inr e) t

    attempt_plan-Triple :
        (more : ℕ) (goal : Text) (feedback : Option Value)
        → Triple (On P) (attempt_plan rt more goal feedback) (λ _. On P) (On P)
    unfolding attempt_plan
    attempt_plan-Triple zero goal feedback =
        Triple-bind _ _ (Triple-catch_runtime _ (generate_plan-Triple goal feedback))
          λ x. On-Caught x _ (Triple-fail _ (λ s p. p))
    attempt_plan-Triple (suc more) goal feedback =
        Triple-bind _ _ (Triple-catch_runtime _ (generate_plan-Triple goal feedback))
          λ x. On-Caught x _ (attempt_plan-Triple more goal feedback)

-- `wait_for_user_reply` takes a reply, and nothing else happens.
module _ {W : Type 0} (rt : Runtime W) (P : List Action → Type 0)
    (taken : (r : Dict) (t : List Action) → P t → P (replied r ∷ t)) where
  wait_in-Post :
      (events : List Incoming) (s : Loop W) → On P s → Post (λ _. On P) (On P) (wait_in rt events s)
  unfolding wait_in
  wait_in-Post [] s p = p
  wait_in-Post (no_event ∷ rest) s p = wait_in-Post rest s p
  wait_in-Post (receive_error e ∷ rest) s p = p
  wait_in-Post (arrival event ∷ rest) s p =
      Post-if (λ _. On P) (On P) (is_type "stop" event) _ _ (λ _. p)
        λ _.
          Post-if (λ _. On P) (On P) (is_type "user_reply" event) _ _ (λ _. taken event s.trace p)
            λ _. wait_in-Post rest s p

  pub wait_for_user_reply-Triple : Triple (On P) (wait_for_user_reply rt) (λ _. On P) (On P)
  unfolding wait_for_user_reply
  wait_for_user_reply-Triple = record { at = λ s p. wait_in-Post s.inbox s p }

module _ {W : Type 0} (rt : Runtime W) (strict : Bool) (e_runs d : ℕ) where
  abbrev Safe : Loop W → Type 0
  Safe = On (Within strict e_runs d)

  abbrev Clear : Loop W → Type 0
  Clear = On (Ready strict e_runs d)

  propose-Triple :
      (goal : Text) (feedback : Option Value)
      → Triple Safe (propose rt goal feedback) (λ _. Safe) Safe
  unfolding propose get key_eq text_eq
  propose-Triple goal feedback =
      Triple-bind _ _ (attempt_plan-Triple rt _ (Within-Steady strict e_runs d) _ goal feedback)
        λ plan.
          Triple-then _ _
            (send-Triple (Within strict e_runs d) (Within strict e_runs d)
              (message_event "plan" plan) (λ t w. Within_sent strict e_runs d _ t refl w))
            (λ _. Triple-pure _ (λ s p. p))

  judge-Triple :
      (again : Value → Run (Loop W) Value) (goal : Text) (plan : Value) (o : Option Value)
      (reply : Dict)
      → ((v : Value) → Triple Safe (again v) (λ _. Clear) Safe)
      → Triple
          (λ s. Safe s × (is_approval o ≡ true → Clear s))
          (judge rt again goal plan o reply)
          (λ _. Clear)
          Safe
  unfolding judge
  judge-Triple again goal plan none reply t = Triple-fail _ (λ s p. p.0)
  judge-Triple again goal plan (some v) reply t =
      Triple-if (truth v) _ _ (λ says. Triple-pure plan (λ s p. p.1 says))
        λ _.
          Triple-bind _ _
            (Triple-weaken _ (propose-Triple goal _) (λ s p. p.0) (λ a s p. p) (λ s p. p)) t

  review-Triple :
      (events : List Incoming) (goal : Text) (plan : Value)
      → Triple Safe (review rt events goal plan) (λ _. Clear) Safe
  unfolding review
  review-Triple [] goal plan = record { at = λ s p. p }
  review-Triple (no_event ∷ rest) goal plan = record { at = (review-Triple rest goal plan).at }
  review-Triple (receive_error e ∷ rest) goal plan = record { at = λ s p. p }
  review-Triple (arrival event ∷ rest) goal plan = record {
    at = λ s p.
        Post-if (λ _. Clear) Safe (is_type "stop" event) _ _ (λ _. p)
          λ _.
            Post-if (λ _. Clear) Safe (is_type "user_reply" event) _ _
              (λ _.
                (judge-Triple (review rt rest goal) goal plan (get_field "approved" event) event
                    (review-Triple rest goal)).at
                  (take_reply rt event rest s)
                  (
                    Within_replied strict e_runs d event s.trace p,
                    λ says. Ready-approved strict e_runs d event s.trace says p,
                  ))
              λ _. (review-Triple rest goal plan).at s p;
  }

  module _ (approval_mode : Text)
      (reviewed : strict ≡ true → text_eq approval_mode (codes "review") ≡ true) where
    pub planning_phase-Triple :
        (goal : Text) → Triple Safe (planning_phase rt goal approval_mode) (λ _. Clear) Safe
    unfolding planning_phase
    planning_phase-Triple goal = Triple-bind _ _ (propose-Triple goal none) λ plan.
        Triple-if (not (text_eq approval_mode (codes "review"))) _ _
          (λ unchecked.
            Triple-pure plan
              (λ s p. record { within = p; clear = λ on. absurd (ground (arith, reviewed on)) }))
          λ _. record { at = λ s p. (review-Triple s.inbox goal plan).at s p }

    settle-Triple :
        (again : Dict → Run (Loop W) (Dict × Assoc Dict)) (goal : Text) (plan : Dict)
        (x : Assoc Dict ⊎ Text)
        → ((p : Dict) → Triple Clear (again p) (λ _. Clear) Safe)
        → Triple Clear (settle rt again goal approval_mode plan x) (λ _. Clear) Safe
    unfolding settle get key_eq text_eq
    settle-Triple again goal plan (inl activated) t = Triple-pure _ (λ s p. p)
    settle-Triple again goal plan (inr e) t =
        Triple-then _ _
          (Triple-weaken _
            (send-Triple (Within strict e_runs d) (Within strict e_runs d)
              (message_event "status" (str e)) (λ t w. Within_sent strict e_runs d _ t refl w))
            (λ s p. p.within) (λ a s p. p) (λ s p. p))
          λ _. Triple-bind _ _ (planning_phase-Triple goal) λ raw. t _

    pub activate-Triple :
        (more : ℕ) (goal : Text) (plan : Dict)
        → Triple Clear (activate rt more goal approval_mode plan) (λ _. Clear) Safe
    unfolding activate
    activate-Triple zero goal plan = Triple-fail _ (λ s p. p.within)
    activate-Triple (suc more) goal plan = settle-Triple _ goal plan _ (activate-Triple more goal)

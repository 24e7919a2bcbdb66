-- ===== src/Agent/Decide/Keeps.antt =====
-- Choosing a decision runs nothing, shows no plan and sends no done event.
use strange_claw.Prelude.{
  ℕ, leb, ltb, ◌≡◌, refl, Bool, none, some, List, [], ◌∷◌, ◌⊎◌, inl, inr, length, take, true, false,
  if◌then◌else◌,
}
use strange_claw.Text.{Text, is_empty}
use strange_claw.Value.{dict, Dict}
use strange_claw.Assoc.{Assoc}
use strange_claw.Agent.Run.{
  Prompt, execution, summary, Completion, response, llm_error, llm_crashed, Count, tokens,
  uncounted, count_crashed, Runtime, ToolCall, Loop, Action, Run, pure,
}
use strange_claw.Agent.Run.Triple.{
  Triple, Triple-pure, Triple-if, Triple-bind, Triple-then, Caught, Triple-catch_agent,
  Triple-catch_runtime,
}
use strange_claw.Agent.Log.{On, Steady, Triple_quiet, append_history-Triple}
use strange_claw.Agent.Plan.Approval.{
  complete_text-Triple, emit_llm_runtime_error-Triple, emit_decision_parse_error-Triple,
}
use strange_claw.Agent.Decide.{
  store_summary_of, summarize_with, set_count, recent_from, recent_history, counted, count_prompt,
  trim, or_empty, drop, within, build_execution_prompt, action_of, ask, execution_decision,
  note_error, after_parse, after_runtime, choose_next_decision,
}

module _ {W : Type 0} (rt : Runtime W) where
  if-trace :
      (b : Bool) (x y : Loop W) (t : List Action)
      → x.trace ≡ t
      → y.trace ≡ t
      → (if b then x else y).trace ≡ t
  if-trace true x y t h k = h
  if-trace false x y t h k = k

  counted-trace : (p : Prompt) (c : Count × W) (s : Loop W) → (counted rt p c s).1.trace ≡ s.trace
  counted-trace p (tokens n, w) s = refl
  counted-trace p (uncounted e, w) s = refl
  counted-trace p (count_crashed e, w) s = refl

  action_of-trace : (c : Completion × W) (s : Loop W) → (action_of rt c s).1.trace ≡ s.trace
  action_of-trace (response t (some a), w) s = refl
  action_of-trace (response t none, w) s = refl
  action_of-trace (llm_error e, w) s = refl
  action_of-trace (llm_crashed e, w) s = refl

  module _ (P : List Action → Type 0) where
    abbrev Keeps : {A : Type 0} → Run (Loop W) A → Type 0
    Keeps m = Triple (On P) m (λ _. On P) (On P)

    Keeps-pure : {A : Type 0} (a : A) → Keeps (pure a)
    Keeps-pure a = Triple-pure a (λ s p. p)

    store-Keeps : (t : Text) → Keeps (store_summary_of rt t)
    store-Keeps t =
        Triple_quiet P _ (λ s. if-trace (is_empty (rt.py.strip t)) _ _ s.trace refl refl)

    summarize-Keeps : (chunk : List Dict) → Keeps (summarize_with rt chunk)
    summarize-Keeps chunk = record {
      at = λ s p.
          (Triple-bind _ _ (complete_text-Triple rt P (summary (or_empty s.history_summary) chunk))
              store-Keeps).at
            s p;
    }

    set_count-Keeps : (n : ℕ) → Keeps (set_count rt n)
    set_count-Keeps n = record { at = λ s p. p }

    recent_from-Keeps : (history : List Dict) (cutoff : ℕ) → Keeps (recent_from rt history cutoff)
    recent_from-Keeps history cutoff = record {
      at = λ s p.
          (Triple-if (ltb s.history_summarized_count cutoff) _ _
              (λ _.
                Triple-then _ _ (summarize-Keeps (take cutoff history))
                  λ _. Triple-then _ _ (set_count-Keeps cutoff) λ _. Keeps-pure _)
              (λ _. Keeps-pure (drop cutoff history))).at
            s p;
    }

    recent_history-Keeps : (history : List Dict) → Keeps (recent_history rt history)
    unfolding recent_history
    recent_history-Keeps history =
        Triple-if (leb (length history) rt.summary_threshold) _ _ (λ _. Keeps-pure _)
          (λ _. recent_from-Keeps history _)

    count_prompt-Keeps : (p : Prompt) → Keeps (count_prompt rt p)
    unfolding count_prompt
    count_prompt-Keeps p = Triple_quiet P _ (λ s. counted-trace p _ s)

    trim-Keeps :
        (prompt : Text → List Dict → Prompt) (earlier : Text) (es : List Dict)
        → Keeps (trim rt prompt earlier es)
    unfolding trim
    trim-Keeps prompt earlier [] = Triple-bind _ _ (count_prompt-Keeps _) λ n.
        Triple-if (within n rt.token_budget) _ _ (λ _. Keeps-pure _)
          λ _.
            Triple-if (is_empty earlier) _ _ (λ _. Keeps-pure _)
              λ _. Triple-then _ _ (count_prompt-Keeps _) λ _. Keeps-pure _
    trim-Keeps prompt earlier (e ∷ es) = Triple-bind _ _ (count_prompt-Keeps _) λ n.
        Triple-if (within n rt.token_budget) _ _ (λ _. Keeps-pure _)
          λ _. trim-Keeps prompt earlier es

    prompt-Keeps :
        (goal : Text) (plan : Dict) (activated : Assoc Dict) (history : List Dict)
        → Keeps (build_execution_prompt rt goal plan activated history)
    unfolding build_execution_prompt
    prompt-Keeps goal plan activated history =
        Triple-bind _ _ (recent_history-Keeps history) λ recent. record {
          at = λ s p.
              (trim-Keeps
                  (λ earlier events.
                    execution goal (dict plan) activated earlier events s.integrations)
                  (or_empty s.history_summary) recent).at
                s p;
        }

    ask-Keeps : (p : Prompt) → Keeps (ask rt p)
    unfolding ask
    ask-Keeps p = Triple_quiet P _ (λ s. action_of-trace _ s)

    decision-Keeps :
        (goal : Text) (plan : Dict) (activated : Assoc Dict)
        → Keeps (execution_decision rt goal plan activated)
    unfolding execution_decision
    decision-Keeps goal plan activated = record {
      at = λ s p. (Triple-bind _ _ (prompt-Keeps goal plan activated s.history) ask-Keeps).at s p;
    }

    module _ (steady : Steady P) where
      note-Keeps : (m : Run (Loop W) Dict) → Keeps m → Keeps (note_error rt m)
      note-Keeps m k =
          Triple-bind _ _ k
            λ event. Triple-then _ _ (append_history-Triple P event) λ _. Keeps-pure none

      after_parse-Keeps :
          (x : ToolCall ⊎ Text)
          → Triple (Caught (λ _. On P) (On P) x) (after_parse rt x) (λ _. On P) (On P)
      unfolding after_parse
      after_parse-Keeps (inl c) = Triple-pure _ (λ s p. p)
      after_parse-Keeps (inr e) = note-Keeps _ (emit_decision_parse_error-Triple rt P steady e)

      after_runtime-Keeps :
          (x : (ToolCall ⊎ Text) ⊎ Text)
          → Triple
              (Caught (Caught (λ _. On P) (On P)) (On P) x)
              (after_runtime rt x)
              (λ _. On P)
              (On P)
      unfolding after_runtime
      after_runtime-Keeps (inl x) = after_parse-Keeps x
      after_runtime-Keeps (inr e) = note-Keeps _ (emit_llm_runtime_error-Triple rt P steady e)

      pub choose_next_decision-Keeps :
          (goal : Text) (plan : Dict) (activated : Assoc Dict)
          → Triple (On P) (choose_next_decision rt goal plan activated) (λ _. On P) (On P)
      unfolding choose_next_decision
      choose_next_decision-Keeps goal plan activated =
          Triple-bind _ _
            (Triple-catch_runtime _ (Triple-catch_agent _ (decision-Keeps goal plan activated)))
            after_runtime-Keeps

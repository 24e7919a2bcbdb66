-- ===== src/Agent/Decide.antt =====
-- agent/agent.py: `_choose_next_decision`, `_execution_decision`, `build_execution_prompt` with its token
-- budget, `_recent_history`, `_summarize_history`, `_estimate_message_tokens`.
pub mod Keeps
use strange_claw.Prelude.{
  ℕ, zero, suc, ◌-◌, ◌/◌, max, ltb, leb, Bool, true, false, Option, none, some, List, [], ◌∷◌, ◌++◌,
  length, take, ◌⊎◌, inl, inr, if◌then◌else◌,
}
use strange_claw.Prelude.Int.{ℤ, pos, negsuc}
use strange_claw.Text.{Text, codes, is_empty}
use strange_claw.Value.{Value, dict, Dict}
use strange_claw.Assoc.{Assoc}
use strange_claw.Agent.Run.{
  Prompt, execution, summary, Completion, response, llm_error, llm_crashed, Count, tokens,
  uncounted, count_crashed, Runtime, ToolCall, Loop, Failure, agent_error, runtime_error,
  other_error, Answer, returned, failed, Run, pure, fail, catch_agent, catch_runtime, ◌>>=◌, ◌>>◌,
  append_history,
}
use strange_claw.Agent.Plan.{complete_text, emit_llm_runtime_error, emit_decision_parse_error}

-- `history[n:]`
abbrev drop : ℕ → List Dict → List Dict
drop zero es = es
drop (suc n) [] = []
drop (suc n) (e ∷ es) = drop n es

abbrev or_empty : Option Text → Text
or_empty none = []
or_empty (some t) = t

abbrev within : ℤ → ℕ → Bool
within (pos n) budget = leb n budget
within (negsuc n) budget = true

module _ {W : Type 0} (rt : Runtime W) where
  abbrev store_summary : Text → Loop W → Loop W
  store_summary t s = if is_empty t then s else record s { history_summary = some t }

  abbrev store_summary_of : Text → Run (Loop W) (Unit {0})
  store_summary_of t s = (returned tt, store_summary (rt.py.strip t) s)

  abbrev summarize_with : List Dict → Run (Loop W) (Unit {0})
  summarize_with chunk s =
      (complete_text rt (summary (or_empty s.history_summary) chunk) >>= store_summary_of) s

  abbrev set_count : ℕ → Run (Loop W) (Unit {0})
  set_count n s = (returned tt, record s { history_summarized_count = n })

  abbrev recent_from : List Dict → ℕ → Run (Loop W) (List Dict)
  recent_from history cutoff s =
      (if ltb s.history_summarized_count cutoff
          then (do
            summarize_with (take cutoff history)
            set_count cutoff
            pure (drop cutoff history))
          else pure (drop cutoff history))
        s

  unfoldable pub recent_history : List Dict → Run (Loop W) (List Dict)
  recent_history history =
      if leb (length history) rt.summary_threshold
      then pure history
      else recent_from history (length history - rt.summary_threshold)

  -- `max(1, len(serialized) // 4)`
  abbrev estimate : Prompt → ℤ
  estimate prompt = pos (max 1 (length (rt.serialize prompt) / 4))

  abbrev counted : Prompt → Count × W → Loop W → Answer ℤ × Loop W
  counted prompt (tokens n, w) s = (returned n, record s { world = w })
  counted prompt (uncounted e, w) s = (returned (estimate prompt), record s { world = w })
  counted prompt (count_crashed e, w) s = (failed (other_error e), record s { world = w })

  unfoldable pub count_prompt : Prompt → Run (Loop W) ℤ
  count_prompt prompt s = counted prompt (rt.count_tokens prompt s.world) s

  -- The loop over the budget: the oldest events go first, then the summary.
  pub trim : (Text → List Dict → Prompt) → Text → List Dict → Run (Loop W) Prompt
  trim prompt earlier [] = do
    n ← count_prompt (prompt earlier [])
    (if within n rt.token_budget
        then pure (prompt earlier [])
        else if is_empty earlier
        then pure (prompt earlier [])
        else (do count_prompt (prompt [] []); pure (prompt [] [])))
  trim prompt earlier (e ∷ es) = do
    n ← count_prompt (prompt earlier (e ∷ es))
    (if within n rt.token_budget then pure (prompt earlier (e ∷ es)) else trim prompt earlier es)

  abbrev trim_recent : Text → Dict → Assoc Dict → List Dict → Run (Loop W) Prompt
  trim_recent goal plan activated recent s =
      trim (λ earlier events. execution goal (dict plan) activated earlier events s.integrations)
        (or_empty s.history_summary) recent s

  unfoldable pub build_execution_prompt : Text → Dict → Assoc Dict → List Dict → Run (Loop W) Prompt
  unfolding trim
  build_execution_prompt goal plan activated history = do
    recent ← recent_history history
    trim_recent goal plan activated recent

  abbrev action_of : Completion × W → Loop W → Answer ToolCall × Loop W
  action_of (response text (some action), w) s = (returned action, record s { world = w })
  action_of (response text none, w) s = (
    failed (
        agent_error
          (codes "LLM response did not contain exactly one structured execution decision.")),
    record s { world = w },
  )
  action_of (llm_error e, w) s = (failed (runtime_error e), record s { world = w })
  action_of (llm_crashed e, w) s = (failed (other_error e), record s { world = w })

  unfoldable pub ask : Prompt → Run (Loop W) ToolCall
  ask prompt s = action_of (rt.complete prompt s.world) s

  unfoldable pub execution_decision : Text → Dict → Assoc Dict → Run (Loop W) ToolCall
  execution_decision goal plan activated s =
      (build_execution_prompt goal plan activated s.history >>= ask) s

  -- `history.append(...); return None`
  abbrev note_error : Run (Loop W) Dict → Run (Loop W) (Option ToolCall)
  note_error emit = do event ← emit; append_history event; pure none

  unfoldable pub after_parse : ToolCall ⊎ Text → Run (Loop W) (Option ToolCall)
  after_parse (inl decision) = pure (some decision)
  after_parse (inr e) = note_error (emit_decision_parse_error rt e)

  unfoldable pub after_runtime : (ToolCall ⊎ Text) ⊎ Text → Run (Loop W) (Option ToolCall)
  after_runtime (inl decided) = after_parse decided
  after_runtime (inr e) = note_error (emit_llm_runtime_error rt e)

  -- The two `except` clauses; an error in one is not caught by the other.
  unfoldable pub choose_next_decision : Text → Dict → Assoc Dict → Run (Loop W) (Option ToolCall)
  choose_next_decision goal plan activated =
      catch_runtime (catch_agent (execution_decision goal plan activated)) >>= after_runtime

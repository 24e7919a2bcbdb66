-- ===== src/Agent/Run.antt =====
-- agent/agent.py: what `Agent` is given and what its methods change, and the methods as actions.
-- agent/llm_types.py: `ToolCall` and `LLMResponse`.
use strange_claw.Prelude.{
  ℕ, Bool, true, false, Option, none, some, List, [], ◌∷◌, ◌++◌, ◌⊎◌, inl, inr, String,
}
use strange_claw.Prelude.Int.{ℤ}
use strange_claw.Text.{Text, codes, text_eq}
use strange_claw.Value.{Value, str, Dict, get_field}
use strange_claw.Python.{Platform, Outcome}
use strange_claw.Assoc.{Assoc}
use strange_claw.Broker.Checked.{Checked, ok, value_error, crashed}
use strange_claw.Agent.Protocol.{validate_event}
use strange_claw.Agent.Spawn.{Parent, Runner}
pub mod Triple

pub record ToolCall : Type 0 where
  pub tool : Text
  pub args : Dict
  pub reason : Option Text

pub record ToolResult : Type 0 where
  pub exit_code : ℤ
  pub stdout : Text
  pub stderr : Text

-- A prompt by the parts that its messages render: the goal and the feedback of the planning prompt;
-- the goal, the plan, the activated skills, the summary and the recent history of the execution
-- prompt; the previous summary and the new events of the summary prompt.
pub data Prompt : Type 0 where
  planning : Text → Option Value → Prompt
  execution : Text → Value → Assoc Dict → Text → List Dict → List Text → Prompt
  summary : Text → List Dict → Prompt

-- What `complete` does: a response, an `LLMRuntimeError`, or another exception.
pub data Completion : Type 0 where
  response : Text → Option ToolCall → Completion
  llm_error : Text → Completion
  llm_crashed : Text → Completion

pub data Count : Type 0 where
  tokens : ℤ → Count
  uncounted : Text → Count
  count_crashed : Text → Count

-- What `BrokerClient.call` does: a payload, a `HostServiceError`, or another exception.
pub data Called : Type 0 where
  answered : Dict → Called
  service_error : Text → Called
  call_crashed : Text → Called

-- An entry below the output directory.
pub record OutputFile : Type 0 where
  pub is_regular : Bool  -- `is_file()`, and no symbolic link
  pub inside : Bool
  pub shown : Text
  pub rel_path : Text
  pub size : ℕ
  pub content : List ℕ

-- What the agent is given. The functions stand for the objects it holds: the model, the tools, the
-- skills, the broker client, the output directory.
pub record Runtime (W : Type 0) : Type 0 where
  pub py : Platform W
  pub complete : Prompt → W → Completion × W
  pub count_tokens : Prompt → W → Count × W
  pub serialize : Prompt → Text
  pub raw_decode : Text → Option Value
  pub get_doc : Text → Dict ⊎ Text
  pub read_file : Text → Text → W → (Text ⊎ Text) × W
  pub execute : ToolCall → W → Outcome ToolResult × W
  pub call_broker : Option (Text → Dict → W → Called × W)
  pub output_files : W → Option (List OutputFile)
  pub encode_base64 : List ℕ → Text
  pub dumps : Dict → Text
  pub int_of : Value → Outcome ℤ
  pub runner : Option (Runner W)
  pub parent : Parent
  pub max_iterations : ℕ
  pub token_budget : ℕ
  pub summary_threshold : ℕ
  pub max_output_total_bytes : ℕ
  pub clarify_enabled : Bool
  pub task_timeout : Option ℕ

-- What the agent did: an event it sent, a reply of the user it took, a tool or a child it ran.
pub data Action : Type 0 where
  sent : Dict → Action
  replied : Dict → Action
  acted : Text → Dict → Action

-- What `receive` of the transport does: None, an event, or an exception.
pub data Incoming : Type 0 where
  no_event : Incoming
  arrival : Dict → Incoming
  receive_error : Text → Incoming

-- The attributes that change, what is still to be received, which of the next sends the transport fails
-- (`some` with the exception; it fails no other), the history of the task, and the
-- actions so far, the newest first.
pub record Loop (W : Type 0) : Type 0 where
  pub world : W
  pub inbox : List Incoming
  pub send_errors : List (Option Text)
  pub trace : List Action
  pub history : List Dict
  pub history_summary : Option Text
  pub history_summarized_count : ℕ
  pub children_spawned : ℕ
  pub active_session_id : Text
  pub integrations : List Text
  pub deadline : Option ℕ

-- An `AgentError`, an `LLMRuntimeError`, another exception; or the agent waits for an event for ever.
pub data Failure : Type 0 where
  agent_error : Text → Failure
  runtime_error : Text → Failure
  other_error : Text → Failure
  blocked : Failure

pub data Answer (A : Type 0) : Type 0 where
  returned : A → Answer A
  failed : Failure → Answer A

abbrev pub Run : Type 0 → Type 0 → Type 0
Run S A = S → Answer A × S

module _ {S A : Type 0} where
  unfoldable pub pure : A → Run S A
  pure a s = (returned a, s)

  unfoldable pub fail : Failure → Run S A
  fail e s = (failed e, s)

  abbrev pub caught_agent : Answer A × S → Answer (A ⊎ Text) × S
  caught_agent (returned a, s) = (returned (inl a), s)
  caught_agent (failed (agent_error e), s) = (returned (inr e), s)
  caught_agent (failed e, s) = (failed e, s)

  -- `except AgentError`
  unfoldable pub catch_agent : Run S A → Run S (A ⊎ Text)
  catch_agent m s = caught_agent (m s)

  abbrev pub caught_runtime : Answer A × S → Answer (A ⊎ Text) × S
  caught_runtime (returned a, s) = (returned (inl a), s)
  caught_runtime (failed (runtime_error e), s) = (returned (inr e), s)
  caught_runtime (failed e, s) = (failed e, s)

  -- `except LLMRuntimeError`
  unfoldable pub catch_runtime : Run S A → Run S (A ⊎ Text)
  catch_runtime m s = caught_runtime (m s)

module _ {S A B : Type 0} where
  abbrev pub continue : Answer A × S → (A → Run S B) → Answer B × S
  continue (returned a, s) f = f a s
  continue (failed e, s) f = (failed e, s)

  infixl 5 ◌>>=◌
  unfoldable pub ◌>>=◌ : Run S A → (A → Run S B) → Run S B
  (m >>= f) s = continue (m s) f

  infixl 5 ◌>>◌
  unfoldable pub ◌>>◌ : Run S A → Run S B → Run S B
  (m >> k) s = continue (m s) (λ _. k)

abbrev pub type_is : String → Option Value → Bool
type_is t (some (str s)) = text_eq s (codes t)
type_is t _ = false

-- `event.get("type") == t`
abbrev pub is_type : String → Dict → Bool
is_type t event = type_is t (get_field "type" event)

abbrev rest_of : List (Option Text) → List (Option Text)
rest_of [] = []
rest_of (e ∷ rest) = rest

abbrev error_of : List (Option Text) → Option Text
error_of [] = none
error_of (e ∷ rest) = e

module _ {W : Type 0} where
  abbrev pub record_action : Action → Loop W → Loop W
  record_action a s = record s { trace = a ∷ s.trace }

  abbrev sent_once : Loop W → Loop W
  sent_once s = record s { send_errors = rest_of s.send_errors }

  unfoldable pub deliver : Dict → Checked (Unit {0}) → Run (Loop W) (Unit {0})
  deliver event (ok u) s = (returned tt, record_action (sent event) s)
  deliver event (value_error e) s = (failed (other_error e), s)
  deliver event (crashed e) s = (failed (other_error e), s)

  -- The exception of the transport, which is closed or whose socket fails
  unfoldable pub transmit : Dict → Option Text → Run (Loop W) (Unit {0})
  transmit event none s = deliver event (validate_event event) s
  transmit event (some e) s = (failed (other_error e), s)

  -- The transport encodes an event only if it is valid.
  unfoldable pub send : Dict → Run (Loop W) (Unit {0})
  send event s = transmit event (error_of s.send_errors) (sent_once s)

  unfoldable pub append_history : Dict → Run (Loop W) (Unit {0})
  append_history event s = (returned tt, record s { history = s.history ++ event ∷ [] })

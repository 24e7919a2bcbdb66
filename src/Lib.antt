-- ===== src/Lib.antt =====
-- strangeClaw, an agent that runs in a sandbox, and its host. The agent has no network and no
-- secrets. It sends requests to the host, where the broker (sandbox/broker.py) checks each one
-- against the policies made from the operator's credentials (host_secrets.py), sends what is
-- permitted with the credential added, follows redirects under the same checks, and removes every
-- token from the reply. Inside the sandbox the agent (agent/agent.py) takes a task, makes a plan that the
-- user may have to approve, lets the model decide in a loop which tool or child agent to run, and ends
-- with a done event. What crosses the boundary are the events of agent/protocol.py. A child agent
-- has fewer tools (agent/subagents.py, agent/tools.py). On the host a coordinator (coordinator.py) owns
-- the sessions, and the files of a session keep its state and its journal (session.py,
-- adapters/session_persistence.py), from which a follow-up task begins.
--
-- The files and the code they follow:
--   Prelude, Prelude/*   library names, Boolean tests on numbers, lists, integers
--   Text, Text/*         Python texts as lists of code points: `in`, `replace`, `startswith`
--   Value, Value/Fields  the values of JSON and YAML, mappings in the order of insertion
--   Assoc                dictionaries with texts as keys
--   Python               what the code calls and is not in the repository, as the record `Platform`:
--                        urllib.parse, requests, socket, ipaddress, fnmatch, json, the clock, and the
--                        methods of `str` and `float` that depend on Unicode or on rounding
--   Broker/Checked       computations that raise ValueError or another exception
--   Broker/Numbers       `_to_positive_int`, `_to_positive_float`, `_to_int`
--   Broker/Policy        `Policy`, `Policy.from_record`
--   Broker/Bucket        `_TokenBucket`
--   Broker/Tokens        `_collect_credential_tokens`
--   Broker/Redact        `_redact_string`, `_redact_value`
--   Broker/Host          the state that calls change, and the monad of the broker's methods
--   Broker/Validate      `_validate`, `_deny`, `_inject`, `_validate_or_deny`
--   Broker/Public        `_ssrf_check`, `_ssrf_or_deny` and what they use
--   Broker/Fetch         `_execute`, with its loop over the chunks of a response
--   Broker/Redirect      `_redirect_target_from_result`, `_execute_with_redirects`
--   Broker/Requests      `_execute_policy_request`, `_execute_public_request`, the redirect guards
--   Broker/Payload       the `_parse_..._payload` functions and `_normalize_headers`
--   Broker/Config        the methods that read the configuration
--   Broker/Search        `_normalize_..._results`, `_append_query_params`
--   Broker/Handle        the four actions and `RequestBroker.handle`
--   Broker/Init          `RequestBroker.__init__`
--   Broker/Safety        what justifies a request, as a predicate of the trace
--   Agent/Protocol       `validate_event`; Protocol/Event has the table of events
--   Agent/Transport      `encode_event`, `decode_event`, `VsockTransport.receive`, `_extract_line`
--   Agent/Delegation     `_build_subagent_request`, `_clamp_subagent_int`, `_read_pos_int_field`,
--                        the checks of tools and of skills
--   Agent/Spawn          `_handle_spawn_subagent`, `_emit_subagent_observation`,
--                        `_shape_subagent_envelope`; the runner of children is an argument
--   Agent/Envelope       `SubagentRunner._build_envelope` and the summaries in it
--   Agent/Child          `SubagentRunner._build_child_config`, `Tools.__init__`
--   Agent/Run            `Agent.__init__` by what it is given and what it keeps, `_send`, `ToolCall`,
--                        `LLMResponse`, `ToolResult`; Run/Triple has the rules for triples
--   Agent/Log            predicates of what the agent did: approved, counted, done once
--   Agent/Plan           `_planning_phase`, `_normalize_plan`, `_activate_referenced_skills`,
--                        `_wait_for_user_reply`, and the events for errors
--   Agent/Decide         `_choose_next_decision`, `build_execution_prompt`, `_recent_history`
--   Agent/Act            `_act_on_decision`, `_handle_control_decision`
--   Agent/Output         `_collect_output_files`, `_build_done_event`
--   Agent/Task           `run`, `_run_task_guarded`, `_run_task`, `_resume_context`
--   Session              `_validate_session_id`, `redact_sensitive`, `state_for_follow_up`, and the
--                        content that `append_session_event_journal` writes
--   Coordinator          `_SessionRecord`, the counting of sessions, and the changes of the records
--   Coordinator/Start    `start_task`, `_retire_stale_sandbox`
--   Coordinator/Events   `submit_reply`, `_handle_worker_event`, `persist_done_event` of
--                        adapters/session_persistence.py
--   Coordinator/Stop     `stop_session`, `stop_all`, the idle reaper
--   Coordinator/Worker   `_SessionWorker._run`, `_wait_for_reply`
--   Coordinator/Steps    the runs of a coordinator, as a relation
--   Example, */Example, */Tests     a small platform and runs on it
-- The child modules of a part hold its lemmas and theorems.
--
-- State. A broker's policies, configuration and tokens never change after `__init__` and are the
-- record `RequestBroker`. What calls change is the record `Host`: the token buckets, the outside world
-- (a state of any type that the functions of `Platform` step), and the trace of what the broker asked
-- of the network, the newest first. The code has no trace; it is there to state what was sent.
-- The state of the delegation is the record `Delegate`: the count of children, the state of the runner,
-- and the events sent.
-- The state of the agent is the record `Loop`: the attributes that change, the history of the task, the
-- events still to be received (a wait takes them in order, some are receipts without an event or
-- exceptions, and a wait for an event that never comes is the failure `blocked`), which sends
-- the transport fails with an exception, the outside world, and the trace of
-- what the agent did, which the code does not have. The source shares one list `history` between its
-- methods; it is a field of the state. What the agent is given is the record `Runtime`: the model, the
-- tools, the skills, the broker client, the files of the output directory. A prompt stands for the
-- messages that are made of its parts. The methods are actions `Run` that answer or fail.
-- The state of the coordinator is the record `Coordinator`: the records of the sessions, the world outside,
-- and a log of the tasks sent, the replies asked for and the replies taken, which the code does not
-- have. Several threads call it. What a method does under the lock is one function, a section; a step
-- of a run is a section or any change of the world, so a run has the threads in any order. Workers,
-- sandboxes and sinks are objects outside, known by numbers (the record `Outside`).
-- An exception is the constructor `raised`, and each `except` clause of the code is a match on it.
--
-- Bounds. The loop over redirects recurses on the hops that are left, which start at
-- `_MAX_REDIRECT_HOPS`: each turn either ends or uses one, so no bound is added. The loop over chunks
-- recurses on the stream of the response, which is finite. The agent's
-- loop recurses on the iterations left, planning on the errors that may still happen, the activation of
-- skills on the attempts left, a review on the events still to be received, and the prompt on the
-- history that may still be dropped: these are the bounds of the code. No fuel is added.
-- Numbers: Python's integers have no bound and are ℤ or ℕ. The token bucket computes with floats; here
-- the clock and the periods count ticks and a token is a fraction with the period as denominator, so
-- no rounding is modelled: at the very tick where the fractions make up a token, the source may still
-- refuse the call. An infinite period and one that is `nan` are cases of their own.
--
-- Not modelled: logging, the starting and joining of threads, the sandboxes and their
-- processes, the adapters, the clients of the
-- language models, the texts of the prompts, `run_forever`, the readers of the agent's configuration,
-- and the file system. Nothing is assumed of `Platform` or of `Runtime` in any theorem, except, where
-- a theorem says so, that a file keeps its length while it is read, or that JSON reads back what it wrote,
-- and of `Outside` that no other session begins to run while one is started.
pub mod Prelude
pub mod Text
pub mod Value
pub mod Broker
pub mod Agent
pub mod Session
pub mod Coordinator
pub mod Python
pub mod Assoc
pub mod Example

-- ===== src/Agent/Example.antt =====
-- A small agent on which the tests run the code: a model that says that it is done, and one file.
use strange_claw.Prelude.{ℕ, suc, true, false, none, some, [], ◌∷◌, inr}
use strange_claw.Prelude.Int.{pos}
use strange_claw.Text.{codes}
use strange_claw.Value.{boolean, Dict, empty, field, text}
use strange_claw.Python.{returned}
use strange_claw.Agent.Run.{
  Prompt, planning, execution, summary, Completion, response, tokens, OutputFile, Runtime, arrival,
  Loop, ToolCall,
}
use strange_claw.Agent.Spawn.{Parent}
use strange_claw.Example.{py}

abbrev done_call : ToolCall
done_call = record {
  tool = codes "agent_done";
  args = field "success" (boolean true) (field "reply" (text "Finished.") empty);
  reason = none;
}

abbrev complete : Prompt → ℕ → Completion × ℕ
complete (planning goal feedback) w = (response (codes "Look around.") none, suc w)
complete (execution goal plan activated earlier recent integrations) w =
    (response [] (some done_call), suc w)
complete (summary earlier events) w = (response (codes "Nothing yet.") none, suc w)

abbrev pub report : OutputFile
report = record {
  is_regular = true;
  inside = true;
  shown = codes "output/report";
  rel_path = codes "report";
  size = 2;
  content = 104 ∷ 105 ∷ [];
}

abbrev no_children : Parent
no_children = record { subagents_enabled = false; settings = empty; tools = [] }

abbrev pub rt : Runtime ℕ
rt = record {
  py = py;
  complete = complete;
  count_tokens = λ prompt w. (tokens (pos 10), w);
  serialize = λ prompt. [];
  raw_decode = λ s. none;
  get_doc = λ skill. inr (codes "no such skill");
  read_file = λ skill path w. (inr (codes "no such file"), w);
  execute = λ call w. (returned (record { exit_code = pos 0; stdout = []; stderr = [] }), w);
  call_broker = none;
  output_files = λ w. some (report ∷ []);
  encode_base64 = λ bytes. bytes;
  dumps = λ d. codes "{}";
  int_of = λ v. returned (pos 0);
  runner = none;
  parent = no_children;
  max_iterations = 5;
  token_budget = 100;
  summary_threshold = 3;
  max_output_total_bytes = 8;
  clarify_enabled = true;
  task_timeout = none;
}

abbrev pub task : Dict
task = field "type" (text "task") (
    field "text" (text "Write a report.")
      (field "session_id" (text "s1") (field "approval_mode" (text "review") empty)))

abbrev approval : Dict
approval =
    field "type" (text "user_reply")
      (field "approved" (boolean true) (field "text" (text "") empty))

abbrev pub start : Loop ℕ
start = record {
  world = 0;
  inbox = arrival approval ∷ [];
  send_errors = [];
  trace = [];
  history = [];
  history_summary = none;
  history_summarized_count = 0;
  children_spawned = 0;
  active_session_id = [];
  integrations = [];
  deadline = none;
}

-- ===== src/Coordinator/Tests.antt =====
-- The theorems on a coordinator that starts one task in review mode, and may run one at a time.
use strange_claw.Prelude.{◌≡◌, ℕ, suc, ◌+◌, ◌≤◌, refl, true, false, some, [], inl, max, ◌∷◌}
use strange_claw.Text.{Text, codes, text_eq}
use strange_claw.Value.{Dict, empty, field, text, boolean, get, key_eq}
use strange_claw.Assoc.{insert, lookup}
use strange_claw.Python.{returned, Outcome}
use strange_claw.Agent.Log.{IsApproved}
use strange_claw.Agent.Task.{run_task_guarded}
use strange_claw.Agent.Example.{rt, start}
use strange_claw.Coordinator.{
  Outside, Coordinator, active_session_count, record_counts_toward_capacity, SessionRecord,
  new_record,
}
use strange_claw.Coordinator.Start.{
  start_section, start_with, send_to_sandbox, task_event, task_with,
}
use strange_claw.Coordinator.Events.{submit_reply, asked_role}
use strange_claw.Coordinator.Steps.{here, after, starting, replying, new_coordinator}
use strange_claw.Coordinator.Steps.Inserts.{waits}
use strange_claw.Coordinator.Steps.Invariant.{asked_count, answered_count}
use strange_claw.Coordinator.Steps.Capacity.{start_section-le}
use strange_claw.Coordinator.Worker.{silence, event, stop_set, wants_reply, run_worker}
use strange_claw.Coordinator.Worker.Waits.{
  is_asked, LeavesNone, is_asked-wants_reply, run_worker-LeavesNone,
}
use strange_claw.Coordinator.Steps.Laws.{replies-le, sent_task-IsApproved}

abbrev out : Outside ℕ
out = record {
  approval_mode = codes "review";
  max_active_sessions = some 1;
  session_idle_timeout_seconds = 1800;
  strip = λ s. s;
  lower = λ s. s;
  sandbox_factory = λ w. (returned w, suc w);
  start = λ b sid w. (returned tt, w);
  send_task = λ b task w. (returned tt, w);
  stop = λ b w. w;
  is_running = λ w b. returned true;
  is_fire = λ b. false;
  start_worker = λ b task w. (returned w, suc w);
  stop_worker = λ k w. w;
  worker_running = λ w k. true;
  journal = λ sid event w. w;
  store = λ sid state w. (returned tt, w);
  emit = λ sink event w. w;
  monotonic = λ w. (w, w);
}

abbrev sid : Text
sid = codes "s1"

abbrev goal : Text
goal = codes "Write a report."

abbrev plan_event : Dict
plan_event =
    field "type" (text "message") (field "role" (text "plan") (field "content" (text "p") empty))

abbrev begun : Coordinator ℕ
begun = (start_section out sid goal 0 (new_coordinator out 0)).1

abbrev replied : Coordinator ℕ
replied = (submit_reply out sid true [] begun).1

replies-le_example :
    answered_count sid replied.log + waits (lookup sid replied.sessions)
    ≤ asked_count sid replied.log
replies-le_example =
    replies-le out 0 replied (after (after here (starting sid goal 0)) (replying sid true [])) sid

sent_task-IsApproved_example :
    IsApproved true (run_task_guarded rt (task_with out sid goal empty) start).1.trace
unfolding start_section start_with send_to_sandbox task_event insert lookup active_session_count
sent_task-IsApproved_example =
    sent_task-IsApproved out rt 0 begun sid (task_with out sid goal empty) start refl
      (after here (starting sid goal 0)) (inl (refl, refl)) tt

-- Another session is refused while the first one runs.
abbrev other_sid : Text
other_sid = codes "s2"

start_section-le_example :
    active_session_count out
      (start_section out other_sid goal 0 begun).1.world
      (start_section out other_sid goal 0 begun).1.sessions
    ≤ max 1 (active_session_count out begun.world begun.sessions)
unfolding start_section start_with send_to_sandbox task_event insert lookup active_session_count
    record_counts_toward_capacity text_eq
start_section-le_example =
    start_section-le out 1 other_sid goal 0 begun refl ((λ counted. refl), tt)

-- The record of the session that was started
abbrev first_record : SessionRecord
first_record = record new_record { worker = some 1; sink = some 0; sandbox = some 0 }

abbrev send : Dict → ℕ → Outcome (Unit {0}) × ℕ
send reply w = (returned tt, w)

abbrev first_task : Dict
first_task = task_with out sid goal empty

is_asked-wants_reply_example :
    is_asked (asked_role out plan_event) ≡ wants_reply first_task plan_event
unfolding get key_eq text_eq
is_asked-wants_reply_example = is_asked-wants_reply out first_task plan_event refl

run_worker-LeavesNone_example : LeavesNone out send sid first_task (
    run_worker out send sid first_task true true 0
      (silence ∷ event plan_event ∷ stop_set ∷ [])
      (some (field "approved" (boolean true) empty) ∷ [])
      begun)
run_worker-LeavesNone_example =
    run_worker-LeavesNone out send sid first_task true true 0
      (silence ∷ event plan_event ∷ stop_set ∷ [])
      (some (field "approved" (boolean true) empty) ∷ []) begun

-- ===== src/Agent/Envelope.antt =====
-- agent/subagents.py: `_build_envelope` and the summaries in it. `duration` is the rounded number of
-- seconds.
use strange_claw.Prelude.{
  ℕ, zero, suc, ◌-◌, Bool, true, false, not, ◌&&◌, ◌||◌, Option, none, some, List, [], ◌∷◌, ◌++◌,
  String, length, leb, if◌then◌else◌,
}
use strange_claw.Prelude.Int.{pos}
use strange_claw.Text.{Text, codes, text_eq, elem}
use strange_claw.Value.{
  Value, null, boolean, int, str, list, dict, Items, nil, cons, Dict, empty, get_field, field, text,
  items,
}
use strange_claw.Python.{Platform, to_str}
use strange_claw.Broker.Config.{truth}
pub mod Status

abbrev pub max_iterations_reply : Text
max_iterations_reply = codes "Stopped after reaching iteration limit."

-- `event.get("type") == t`
abbrev pub has_type : String → Dict → Bool
has_type t event = elim (get_field "type" event) [ some (str s) ↦ text_eq s (codes t) | _ ↦ false ]

-- The last event that is a `done`
last_done : Option Dict → List Dict → Option Dict
last_done found [] = found
last_done found (event ∷ events) =
    last_done (if has_type "done" event then some event else found) events

abbrev pub value_or : Value → Option Value → Value
value_or fallback none = fallback
value_or fallback (some v) = v

state_summary_of : Option Value → Text
state_summary_of (some (dict state)) = elim (get_field "summary" state) [
  | some (str s) ↦ s
  | _ ↦ []
]
state_summary_of _ = []

-- `result.get("exit_code") if isinstance(result, dict) else None`
exit_code_of : Option Value → Value
exit_code_of (some (dict result)) = value_or null (get_field "exit_code" result)
exit_code_of _ = null

with_exit_code : Option Value → Dict
with_exit_code (some (dict result)) =
    field "exit_code" (value_or null (get_field "exit_code" result)) empty
with_exit_code _ = empty

summary_entry : Dict → Value
unfolding exit_code_of
summary_entry event = dict (
    field "tool" (value_or null (get_field "tool" event))
      (field "exit_code" (exit_code_of (get_field "result" event)) empty))

full_entry : Dict → Value
unfolding with_exit_code
full_entry event = dict (
    field "type" (value_or null (get_field "type" event)) (
      if has_type "action" event
      then field "tool" (value_or null (get_field "tool" event))
          (with_exit_code (get_field "result" event))
      else if has_type "message" event
      then field "role" (value_or null (get_field "role" event)) empty
      else empty))

entries : Bool → List Dict → List Value
unfolding summary_entry full_entry
entries full [] = []
entries full (event ∷ events) =
    let rest = entries full events in
    if full
    then full_entry event ∷ rest
    else if has_type "action" event
    then summary_entry event ∷ rest
    else rest

abbrev drop : ℕ → List Value → List Value
drop zero vs = vs
drop (suc n) [] = []
drop (suc n) (v ∷ vs) = drop n vs

-- `summary[-50:]`
last_entries : List Value → List Value
last_entries vs = drop (length vs - 50) vs

summarize_events : Text → List Dict → List Value
unfolding entries last_entries
summarize_events mode events =
    if text_eq mode (codes "none")
    then []
    else last_entries (entries (not (text_eq mode (codes "summary"))) events)

abbrev pub is_success : Dict → Bool
is_success done = elim (get_field "success" done) [ none ↦ false | some v ↦ truth v ]

abbrev pub hit_limit : Dict → Bool
hit_limit done = elim (get_field "reply" done) [
  | some (str s) ↦ text_eq s max_iterations_reply
  | _ ↦ false
]

-- The end of each envelope
verdict : Bool → String → Text → Text → Dict
verdict success status reply summary = field "success" (boolean success) (
    field "status" (text status)
      (field "reply" (str reply) (field "state_summary" (str summary) empty)))

module _ {W : Type 0} (py : Platform W) where
  mode_of : Dict → Text
  mode_of limits =
      let mode =
        py.lower (to_str py (value_or (text "summary") (get_field "journal_events" limits))) in
      if elem mode (codes "none" ∷ codes "summary" ∷ codes "full" ∷ [])
      then mode
      else codes "summary"

  child_file : Text → Dict → Value
  child_file child_id item = dict (
      field "path"
        (str (
          codes "subagents/"
          ++ child_id
          ++ codes "/"
          ++ to_str py (value_or (text "") (get_field "path" item))))
        (field "size_bytes" (value_or (int (pos 0)) (get_field "size_bytes" item))
          (field "content_b64" (value_or (text "") (get_field "content_b64" item)) empty)))

  child_files : Text → Items → List Value
  unfolding child_file
  child_files child_id nil = []
  child_files child_id (cons (dict item) rest) =
      child_file child_id item ∷ child_files child_id rest
  child_files child_id (cons _ rest) = child_files child_id rest

  files_in : Text → Option Value → List Value
  unfolding child_files
  files_in child_id (some (list xs)) = child_files child_id xs
  files_in child_id _ = []

  collect_child_files : Text → Option Dict → List Value
  unfolding files_in
  collect_child_files child_id none = []
  collect_child_files child_id (some done) = files_in child_id (get_field "files" done)

  verdict_of : Option Dict → Dict
  unfolding verdict state_summary_of
  verdict_of none =
      verdict false "timeout" (codes "Subagent exceeded its time budget before finishing.") []
  verdict_of (some done) =
      let reply = to_str py (value_or (text "") (get_field "reply" done)) in
      let summary = state_summary_of (get_field "state" done) in
      if is_success done
      then verdict true "completed" reply summary
      else verdict false (if hit_limit done then "max_iterations" else "child_failed") reply summary

  pub build_envelope : Dict → Text → List Dict → Value → Dict
  unfolding last_done verdict_of collect_child_files summarize_events mode_of
  build_envelope limits child_id events duration =
      let done = last_done none events in
      field "child_id" (str child_id) (
        field "duration_seconds" duration (
          field "files" (list (items (collect_child_files child_id done))) (
            field "events_summary" (list (items (summarize_events (mode_of limits) events)))
              (verdict_of done))))

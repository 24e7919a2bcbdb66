-- ===== src/Agent/Output.antt =====
-- agent/agent.py: `_collect_output_files` and `_build_done_event`. An exception of the file system is
-- not modelled here.
use strange_claw.Prelude.{
  ℕ, ◌+◌, ◌≤◌, ltb, Bool, true, false, not, Option, none, some, List, [], ◌∷◌, ◌++◌, length, ◌⊎◌,
  inl, inr, if◌then◌else◌,
}
use strange_claw.Prelude.Int.{pos}
use strange_claw.Text.{Text, codes}
use strange_claw.Value.{Value, boolean, int, str, list, dict, Dict, empty, field, text, items}
use strange_claw.Agent.Run.{OutputFile, Runtime, Loop}
pub mod Size
pub mod Tests
pub mod Done

pub record Exported : Type 0 where
  pub path : Text
  pub content : List ℕ

module _ {W : Type 0} (rt : Runtime W) where
  abbrev decimal : ℕ → Text
  decimal n = rt.py.str_of (int (pos n))

  -- The loop over the sorted entries; the files come with the next one first to be appended.
  pub collect_from : ℕ → List Exported → List OutputFile → List Exported ⊎ Text
  collect_from total files [] = inl files
  collect_from total files (f ∷ fs) =
      let skipped = collect_from total files fs in
      let taken =
        collect_from (total + length f.content)
          (files ++ record { path = f.rel_path; content = f.content } ∷ []) fs in
      if not f.is_regular
      then skipped
      else if not f.inside
      then inr (codes "Invalid output file path: " ++ f.shown)
      else if ltb rt.max_output_total_bytes f.size
      then inr (
          codes "Output file '"
          ++ f.rel_path
          ++ codes "' exceeds output limit of "
          ++ decimal rt.max_output_total_bytes
          ++ codes " bytes.")
      else if ltb rt.max_output_total_bytes (total + f.size)
      then inr (
          codes "Total output size exceeds output limit of "
          ++ decimal rt.max_output_total_bytes
          ++ codes " bytes.")
      else taken

  pub collect_output_files : Option (List OutputFile) → List Exported ⊎ Text
  unfolding collect_from
  collect_output_files none = inl []
  collect_output_files (some entries) = collect_from 0 [] entries

  abbrev file_value : Exported → Value
  file_value f = dict (
      field "path" (str f.path) (
        field "content_b64" (str (rt.encode_base64 f.content))
          (field "size_bytes" (int (pos (length f.content))) empty)))

  abbrev file_values : List Exported → List Value
  file_values [] = []
  file_values (f ∷ fs) = file_value f ∷ file_values fs

  abbrev dicts : List Dict → List Value
  dicts [] = []
  dicts (d ∷ ds) = dict d ∷ dicts ds

  abbrev pub state_of : Text → Value → List Dict → Text → Dict
  state_of goal plan history summary = field "goal" (str goal) (
      field "plan" plan
        (field "history" (list (items (dicts history))) (field "summary" (str summary) empty)))

  abbrev pub done_of : Bool → Text → Dict → List Value → Dict
  done_of success reply state files = field "type" (text "done") (
      field "success" (boolean success) (
        field "reply" (str reply)
          (field "state" (dict state) (field "files" (list (items files)) empty))))

  abbrev done_with : Bool → Text → Dict → List Exported ⊎ Text → Dict
  done_with success reply state (inl files) = done_of success reply state (file_values files)
  done_with success reply state (inr e) =
      done_of false (reply ++ codes "\n\nOutput export error: " ++ e) state []

  abbrev summary_or_empty : Option Text → Text
  summary_or_empty none = []
  summary_or_empty (some t) = t

  unfoldable pub build_done_event : Loop W → Text → Value → List Dict → Bool → Text → Dict
  unfolding collect_output_files
  build_done_event s goal plan history success reply =
      done_with success reply (state_of goal plan history (summary_or_empty s.history_summary))
        (collect_output_files (rt.output_files s.world))

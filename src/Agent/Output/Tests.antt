-- ===== src/Agent/Output/Tests.antt =====
-- The theorem on an output directory with one file.
use strange_claw.Prelude.{◌≤◌, refl, [], ◌∷◌}
use strange_claw.Agent.Output.{collect_output_files, collect_from}
use strange_claw.Agent.Output.Size.{total_size, collect_output_files-le}
use strange_claw.Agent.Example.{rt, report}

collect_output_files-le_example :
    total_size (record { path = report.rel_path; content = report.content } ∷ [])
    ≤ rt.max_output_total_bytes
unfolding collect_output_files collect_from
collect_output_files-le_example = collect_output_files-le rt (report ∷ []) _ (refl, tt) refl

-- ===== src/Pipeline/Tests.antt =====
-- core/pipeline_conditions.go and core/pipeline_types.go: conditions on one executed step, and the
-- theorems at them. The files are those of a system with one file, "f", and no restriction.
use mcp_filesystem_go_ultra.Common.{
  ◌≡◌, ◌↔◌, refl, true, false, not, ◌&&◌, ◌||◌, [], ◌∷◌, none, Bytes, codes, bytes_eq,
  if◌then◌else◌, ok,
}
use mcp_filesystem_go_ultra.Common.{List}
use mcp_filesystem_go_ultra.Pipeline.{new_pipeline_context}
use mcp_filesystem_go_ultra.Pipeline.{
  Param, text, StepCondition, PipelineStep, StepResult, PipelineContext, get_step_result,
  total_count, get_input_files,
}
use mcp_filesystem_go_ultra.Pipeline.Condition.{validate_condition, found, not_found, Files}
use mcp_filesystem_go_ultra.Common.Decimal.{show_nat}
use mcp_filesystem_go_ultra.Pipeline.Decide.{
  runs_as, IsAccepted, conditions_opposite, validate_condition_iff,
}
use mcp_filesystem_go_ultra.Pipeline.Template.{
  resolve_field, has_braces, replace_all, match_reference, leading, replace_match, resolve_string,
  resolve_templates,
}
use mcp_filesystem_go_ultra.Pipeline.Resolve.{resolve_templates_same}

abbrev files : Files
files = record {
  restricted = false;
  is_path_allowed = λ path. true;
  normalize_path = λ path. path;
  stat = λ path. if bytes_eq path (codes "f") then found else not_found;
}

abbrev two_files : StepResult
two_files = record {
  success = true;
  skipped = false;
  files_matched = codes "f" ∷ codes "g" ∷ [];
  edits_applied = 0;
  counts = [];
  error = [];
  risk_level = [];
}

abbrev after_a : PipelineContext
after_a = record { step_results = (codes "a", two_files) ∷ []; affected_files = []; backup_id = [] }

abbrev at_a : Bytes → Bytes → StepCondition
at_a kind value = record { kind = kind; step_ref = codes "a"; value = value; path = [] }

abbrev step_b : PipelineStep
step_b = record {
  id = codes "b";
  action = codes "delete";
  input_from = codes "a";
  input_from_all = [];
  params = [];
  condition = none;
}

inputs_of_step : get_input_files step_b after_a ≡ ok (codes "f" ∷ codes "g" ∷ [])
unfolding get_input_files get_step_result
inputs_of_step = refl

count_of_step : resolve_field two_files (codes "count") [] ≡ codes "2"
unfolding resolve_field total_count show_nat
count_of_step = refl

conditions_opposite_example :
    let run = λ (kind : Bytes). runs_as kind (at_a [] (codes "2")) after_a files in
    (run (codes "has_matches") ≡ not (run (codes "no_matches")))
    × (run (codes "step_succeeded") ≡ not (run (codes "step_failed")))
    × (run (codes "count_eq") ≡ not (run (codes "count_lt") || run (codes "count_gt")))
    × ((run (codes "count_lt") && run (codes "count_gt")) ≡ false)
unfolding get_step_result
conditions_opposite_example = conditions_opposite (at_a [] (codes "2")) after_a files two_files refl

validate_condition_iff_example :
    (validate_condition (at_a (codes "count_gt") (codes "x")) ((codes "a", 0) ∷ []) ≡ ok tt)
    ↔ IsAccepted (at_a (codes "count_gt") (codes "x")) ((codes "a", 0) ∷ [])
validate_condition_iff_example =
    validate_condition_iff (at_a (codes "count_gt") (codes "x")) ((codes "a", 0) ∷ [])

reference_resolved :
    resolve_string (codes "n={{{a.count}}, {{b.count}}") after_a ≡ codes "n={2, {{b.count}}"
unfolding resolve_string has_braces replace_all match_reference leading replace_match resolve_field
    get_step_result total_count show_nat
reference_resolved = refl

abbrev a_params : List (Bytes × Param)
a_params = (codes "path", text (codes "{{a.files}}")) ∷ []

resolve_templates_same_example : resolve_templates a_params new_pipeline_context ≡ a_params
unfolding new_pipeline_context get_step_result
resolve_templates_same_example = resolve_templates_same new_pipeline_context (λ id. refl) a_params

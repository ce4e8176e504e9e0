-- ===== src/Executor/Tests.antt =====
-- core/pipeline.go: runs of two steps, and the theorems at them. The engine of the tests counts the
-- actions; a deletion fails, and every other action makes two edits in one file.
use mcp_filesystem_go_ultra.Common.{
  ℕ, ◌+◌, ◌<◌, ◌≡◌, ◌≢◌, ◌↔◌, ◌⊎◌, refl, true, false, List, [], ◌∷◌, ◌++◌, none, some, Bytes, codes,
  length,
}
use mcp_filesystem_go_ultra.Pipeline.{PipelineStep, StepResult, PipelineContext}
use mcp_filesystem_go_ultra.Pipeline.Condition.{found}
use mcp_filesystem_go_ultra.Validate.{Action, delete, action_of}
use mcp_filesystem_go_ultra.Executor.{
  Options, Acted, Engine, blank_result, should_run, execute_step, run_steps, execute_sequential,
  failed_at_step, rolled_back_at_step, Execution, assess_pipeline_risk, high,
}
use mcp_filesystem_go_ultra.Executor.Account.{sum_edits, count_success, all_succeed}
use mcp_filesystem_go_ultra.Executor.Stop.{
  stop_at_first_failure, run_to_the_end, rollback_reported, execution_accounts,
}

abbrev run : Action → ℕ → Acted ℕ
run delete w = record { world = w; result = blank_result; error = some (codes "locked") }
run _ w = record {
  world = w + 1;
  result = record blank_result { files_matched = codes "f" ∷ []; edits_applied = 2 };
  error = none;
}

abbrev engine : Engine ℕ
engine = record {
  files = λ w. record {
    restricted = false;
    is_path_allowed = λ p. true;
    normalize_path = λ p. p;
    stat = λ p. found;
  };
  run_action = λ a step ctx options w. run a w;
  restore = λ backup_id w. (0, true);
  refresh_known_hashes = λ files w. w;
}

abbrev step : Bytes → Bytes → PipelineStep
step id action = record {
  id = id;
  action = action;
  input_from = [];
  input_from_all = [];
  params = [];
  condition = none;
}

abbrev two_steps : List PipelineStep
two_steps =
    step (codes "a") (codes "edit")
    ∷ step (codes "b") (codes "delete")
    ∷ step (codes "c") (codes "copy")
    ∷ []

abbrev stopping : Options
stopping = record { stop_on_error = true; dry_run = false; force = false }

abbrev going_on : Options
going_on = record { stop_on_error = false; dry_run = false; force = false }

abbrev empty_context : PipelineContext
empty_context = record { step_results = []; affected_files = []; backup_id = [] }

abbrev stopped_run : Execution ℕ
stopped_run = execute_sequential engine stopping two_steps empty_context (codes "k") 0

abbrev whole_run : Execution ℕ
whole_run = execute_sequential engine going_on two_steps empty_context (codes "k") 0

rolled_back : (stopped_run.error ≡ some (rolled_back_at_step 2)) × (stopped_run.world ≡ 0)
unfolding execute_sequential run_steps execute_step should_run action_of
rolled_back = (refl, refl)

whole_world : whole_run.world ≡ 2
unfolding execute_sequential run_steps execute_step should_run action_of
whole_world = refl

risk_of_edits : assess_pipeline_risk [] 500 ≡ high
unfolding assess_pipeline_risk
risk_of_edits = refl

stop_at_first_failure_example :
    ((stopped_run.error ≡ none)
      × (stopped_run.result.success ≡ true)
      × (length stopped_run.result.results ≡ 3)
      × (all_succeed stopped_run.result.results ≡ true))
    ⊎ ((front : List StepResult) × (r : StepResult) × (stopped_run.result.results ≡ front ++ r ∷ [])
        × (all_succeed front ≡ true)
        × (r.success ≡ false)
        × (stopped_run.result.success ≡ false)
        × (stopped_run.result.completed_steps ≡ length front)
        × ((stopped_run.error ≡ some (failed_at_step (length front + 1)))
            ⊎ (stopped_run.error ≡ some (rolled_back_at_step (length front + 1)))))
stop_at_first_failure_example =
    stop_at_first_failure engine stopping two_steps empty_context (codes "k") 0 refl

run_to_the_end_example :
    (whole_run.error ≡ none)
    × (length whole_run.result.results ≡ 3)
    × ((whole_run.result.success ≡ true) ↔ (
        (all_succeed whole_run.result.results ≡ true)
        ⊎ (0 < count_success whole_run.result.results)))
run_to_the_end_example = run_to_the_end engine going_on two_steps empty_context (codes "k") 0 refl

rollback_reported_example :
    (stopping.stop_on_error ≡ true)
    × (stopping.dry_run ≡ false)
    × (codes "k" ≢ [])
    × ((before : ℕ) × (engine.restore (codes "k") before ≡ (stopped_run.world, true)))
unfolding execute_sequential run_steps execute_step should_run action_of
rollback_reported_example =
    rollback_reported engine stopping two_steps empty_context (codes "k") 0 refl

execution_accounts_example :
    (stopped_run.result.total_edits ≡ sum_edits stopped_run.result.results)
    × (stopped_run.result.completed_steps ≡ count_success stopped_run.result.results)
execution_accounts_example =
    execution_accounts engine stopping two_steps empty_context (codes "k") 0

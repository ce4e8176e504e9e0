-- ===== src/Executor.antt =====
-- core/pipeline.go: `executeStep`, and the sequential part of `Execute`, from the loop over the
-- steps on. The state of the files and of the engine is a type of the caller's; what the actions
-- do to it, the restoring of a backup and the refresh of the known hashes are the fields of
-- `Engine`. The report of
-- progress, the audit entries and the durations are left out.
pub mod Account
pub mod Stop
mod Tests
use mcp_filesystem_go_ultra.Common.{
  ℕ, zero, suc, ◌+◌, ◌-◌, ◌*◌, ◌≤◌, ◌<◌, ◌≡◌, ◌≢◌, ◌↔◌, ◌⊎◌, inl, inr, refl, sym, ap, subst, ◌∙◌,
  Bool, true, false, not, ◌&&◌, ◌||◌, List, [], ◌∷◌, ◌++◌, map, Option, none, some, Bytes, codes,
  is_empty, concat, length, leb, ltb, if◌then◌else◌,
}
use mcp_filesystem_go_ultra.Pipeline.{
  Param, StepCondition, PipelineStep, StepResult, PipelineContext, set_step_result,
  add_affected_files, get_affected_files,
}
use mcp_filesystem_go_ultra.Pipeline.Condition.{Files, evaluate_condition}
use mcp_filesystem_go_ultra.Pipeline.Template.{resolve_templates}
use mcp_filesystem_go_ultra.Validate.{Action, action_of}
use mcp_filesystem_go_ultra.Scheduler.{is_destructive_action}

-- The fields of `PipelineRequest` that the loop reads.
pub record Options : Type 0 where
  pub stop_on_error : Bool
  pub dry_run : Bool
  pub force : Bool

-- What an action leaves: the state, the result as it has filled it in, and its error.
pub record Acted (W : Type 0) : Type 0 where
  pub world : W
  pub result : StepResult
  pub error : Option Bytes

pub record Engine (W : Type 0) : Type 0 where
  pub files : W → Files
  pub run_action : Action → PipelineStep → PipelineContext → Options → W → Acted W
  pub restore : Bytes → W → W × Bool
  pub refresh_known_hashes : List Bytes → W → W

abbrev pub blank_result : StepResult
blank_result = record {
  success = false;
  skipped = false;
  files_matched = [];
  edits_applied = 0;
  counts = [];
  error = [];
  risk_level = [];
}

-- A step without a condition runs.
unfoldable pub should_run : Option StepCondition → PipelineContext → Files → Bool
should_run none ctx files = true
should_run (some cond) ctx files = (evaluate_condition cond ctx files).0

-- The error and the success of the result follow the error of the action.
unfoldable pub settle : {W : Type 0} → Acted W → Acted W
settle a = elim a.error [
  | none ↦ record a { result = record a.result { success = true } }
  | some e ↦ record a { result = record a.result { success = false; error = e } }
]

-- `(*PipelineStepError).Error` of the `default` branch, which gives the index 0.
unfoldable pub unsupported : PipelineStep → Bytes
unsupported step = concat (
    codes "pipeline step 1 '"
    ∷ step.id
    ∷ codes "' ("
    ∷ step.action
    ∷ codes "): unsupported action: "
    ∷ step.action
    ∷ [])

-- The `switch` over the actions.
unfoldable pub act :
    {W : Type 0} → Engine W → Option Action → PipelineStep → PipelineContext → Options → W → Acted W
act engine none step ctx options w = record {
  world = w;
  result = blank_result;
  error = some (unsupported step);
}
act engine (some a) step ctx options w = engine.run_action a step ctx options w

-- A step that is not to run is skipped, which is a success.
unfoldable pub run_or_skip :
    {W : Type 0} → Engine W → Bool → PipelineStep → PipelineContext → Options → W → Acted W
unfolding settle act
run_or_skip engine false step ctx options w = record {
  world = w;
  result = record blank_result { success = true; skipped = true };
  error = none;
}
run_or_skip engine true step ctx options w =
    let resolved = record step { params = resolve_templates step.params ctx } in
    settle (act engine (action_of step.action) resolved ctx options w)

-- `executeStep`
unfoldable pub execute_step :
    {W : Type 0} → Engine W → PipelineStep → PipelineContext → Options → W → Acted W
unfolding run_or_skip
execute_step engine step ctx options w =
    run_or_skip engine (should_run step.condition ctx (engine.files w)) step ctx options w

-- The variables of the loop.
pub record Progress (W : Type 0) : Type 0 where
  pub world : W
  pub context : PipelineContext
  pub results : List StepResult
  pub completed_steps : ℕ
  pub all_success : Bool
  pub total_edits : ℕ

-- `err != nil || !stepResult.Success`
unfoldable pub failed : {W : Type 0} → Acted W → Bool
failed a = elim a.error [ none ↦ not a.result.success | some e ↦ true ]

-- The body of the loop up to the test for a failure, and `allSuccess = false`.
unfoldable pub record_step : {W : Type 0} → PipelineStep → Acted W → Progress W → Progress W
unfolding failed
record_step step a p = record {
  world = a.world;
  context = set_step_result step.id a.result (add_affected_files a.result.files_matched p.context);
  results = p.results ++ a.result ∷ [];
  completed_steps = p.completed_steps;
  all_success = if failed a then false else p.all_success;
  total_edits = p.total_edits + a.result.edits_applied;
}

-- `if stepResult.Success { completedSteps++ }`
unfoldable pub count_step : {W : Type 0} → Acted W → Progress W → Progress W
count_step a p = record p {
  completed_steps = p.completed_steps + (if a.result.success then 1 else 0);
}

-- The loop, from step `i` on: what it leaves, and the index of the step at which it returned.
unfoldable pub run_steps :
    {W : Type 0} → Engine W → Options → ℕ → List PipelineStep → Progress W → Progress W × Option ℕ
unfolding record_step count_step
run_steps engine options i [] p = (p, none)
run_steps engine options i (step ∷ steps) p =
    let a = execute_step engine step p.context options p.world in
    let p' = record_step step a p in
    elim (failed a && options.stop_on_error) [
      | true ↦ (p', some i)
      | false ↦ run_steps engine options (i + 1) steps (count_step a p')
    ]

-- `hasDestructiveSteps`
unfoldable pub has_destructive_steps : List PipelineStep → Bool
has_destructive_steps [] = false
has_destructive_steps (step ∷ steps) =
    is_destructive_action step.action || has_destructive_steps steps

pub data Risk : Type 0 where
  low medium high critical : Risk

abbrev pub pipeline_risk_medium : ℕ
pipeline_risk_medium = 30

abbrev pub pipeline_risk_high : ℕ
pipeline_risk_high = 50

abbrev pub pipeline_risk_critical : ℕ
pipeline_risk_critical = 80

abbrev pub pipeline_edits_medium : ℕ
pipeline_edits_medium = 100

abbrev pub pipeline_edits_high : ℕ
pipeline_edits_high = 500

abbrev pub pipeline_edits_critical : ℕ
pipeline_edits_critical = 1000

-- `assessPipelineRisk`
unfoldable pub assess_pipeline_risk : List Bytes → ℕ → Risk
assess_pipeline_risk files_affected total_edits =
    let file_count = length files_affected in
    if leb pipeline_risk_critical file_count || leb pipeline_edits_critical total_edits
    then critical
    else if leb pipeline_risk_high file_count || leb pipeline_edits_high total_edits
    then high
    else if leb pipeline_risk_medium file_count || leb pipeline_edits_medium total_edits
    then medium
    else low

-- `PipelineResult`, less the name, the duration and the fields that repeat the request.
pub record PipelineResult : Type 0 where
  pub success : Bool
  pub total_steps : ℕ
  pub completed_steps : ℕ
  pub results : List StepResult
  pub backup_id : Bytes
  pub files_affected : List Bytes
  pub total_edits : ℕ
  pub overall_risk_level : Option Risk
  pub rollback_performed : Bool

pub data ExecutionError : Type 0 where
  failed_at_step : ℕ → ExecutionError
  rolled_back_at_step : ℕ → ExecutionError

pub record Execution (W : Type 0) : Type 0 where
  pub world : W
  pub result : PipelineResult
  pub error : Option ExecutionError

-- `rollback`, which has no backup to restore without an id.
unfoldable pub rollback : {W : Type 0} → Engine W → Bytes → W → W × Bool
rollback engine backup_id w = if is_empty backup_id then (w, false) else engine.restore backup_id w

-- The result of a loop that returned at step `i`.
unfoldable pub stopped_result : {W : Type 0} → ℕ → Bytes → Progress W → ℕ → Bool → PipelineResult
stopped_result total backup_id p i rolled_back = record {
  success = false;
  total_steps = total;
  completed_steps = i;
  results = p.results;
  backup_id = backup_id;
  files_affected = get_affected_files p.context;
  total_edits = p.total_edits;
  overall_risk_level = none;
  rollback_performed = rolled_back;
}

-- With a rollback, whose failure leaves the plain error, and without one.
unfoldable pub stop_with : {W : Type 0} → Bool → Engine W → ℕ → Bytes → Progress W → ℕ → Execution W
unfolding rollback stopped_result
stop_with true engine total backup_id p i =
    let (w, restored) = rollback engine backup_id p.world in
    record {
      world = w;
      result = stopped_result total backup_id p i restored;
      error = some (if restored then rolled_back_at_step (i + 1) else failed_at_step (i + 1));
    }
stop_with false engine total backup_id p i = record {
  world = p.world;
  result = stopped_result total backup_id p i false;
  error = some (failed_at_step (i + 1));
}

-- The branch for `StopOnError`: a rollback where there is a backup and the run is no dry run.
unfoldable pub stop : {W : Type 0} → Engine W → Options → ℕ → Bytes → Progress W → ℕ → Execution W
unfolding stop_with
stop engine options total backup_id p i =
    stop_with (not (is_empty backup_id) && not options.dry_run) engine total backup_id p i

-- `finalSuccess`
unfoldable pub final_success : {W : Type 0} → Options → Progress W → Bool
final_success options p =
    if not options.stop_on_error && ltb 0 p.completed_steps then true else p.all_success

-- What follows the loop.
unfoldable pub finish : {W : Type 0} → Engine W → Options → ℕ → Bytes → Progress W → Execution W
unfolding final_success
finish engine options total backup_id p =
    let affected = get_affected_files p.context in
    record {
      world =
          if not options.dry_run && final_success options p
          then engine.refresh_known_hashes affected p.world
          else p.world;
      result = record {
        success = final_success options p;
        total_steps = total;
        completed_steps = p.completed_steps;
        results = p.results;
        backup_id = backup_id;
        files_affected = affected;
        total_edits = p.total_edits;
        overall_risk_level = some (assess_pipeline_risk affected p.total_edits);
        rollback_performed = false;
      };
      error = none;
    }

abbrev pub start_progress : {W : Type 0} → PipelineContext → W → Progress W
start_progress ctx w = record {
  world = w;
  context = ctx;
  results = [];
  completed_steps = 0;
  all_success = true;
  total_edits = 0;
}

unfoldable pub conclude :
    {W : Type 0} → Engine W → Options → ℕ → Bytes → Progress W → Option ℕ → Execution W
unfolding stop finish
conclude engine options total backup_id p none = finish engine options total backup_id p
conclude engine options total backup_id p (some i) = stop engine options total backup_id p i

-- `Execute`, from the loop on.
unfoldable pub execute_sequential :
    {W : Type 0}
    → Engine W
    → Options
    → List PipelineStep
    → PipelineContext
    → Bytes
    → W
    → Execution W
unfolding run_steps conclude
execute_sequential engine options steps ctx backup_id w =
    let (p, at) = run_steps engine options 0 steps (start_progress ctx w) in
    conclude engine options (length steps) backup_id p at

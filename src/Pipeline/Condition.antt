-- ===== src/Pipeline/Condition.antt =====
-- core/pipeline_conditions.go: `ValidateCondition`, `EvaluateCondition` and `evalCountCondition`.
-- What they ask of the engine and of the file system is the record `Files`.
use mcp_filesystem_go_ultra.Common.{
  ℕ, Bool, true, false, not, ◌&&◌, List, Option, none, some, Bytes, codes, bytes_eq, is_empty,
  length, has_key, if◌then◌else◌, Result, ◌>>◌, refuse_if,
}
use mcp_filesystem_go_ultra.Common.Int.{ℤ, pos, ltb_ℤ}
use mcp_filesystem_go_ultra.Common.Decimal.{atoi}
use mcp_filesystem_go_ultra.Pipeline.{
  StepCondition, StepResult, PipelineContext, get_step_result, total_count,
}

pub data ConditionError : Type 0 where
  unsupported_type : Bytes → ConditionError
  requires_step_ref : Bytes → ConditionError
  step_ref_not_found : Bytes → ConditionError
  requires_value : Bytes → ConditionError
  value_not_an_integer : Bytes → ConditionError
  requires_path : Bytes → ConditionError

-- The nine condition types, and a string that is none of them.
pub data ConditionType : Type 0 where
  has_matches no_matches count_gt count_lt count_eq : ConditionType
  file_exists file_not_exists step_succeeded step_failed : ConditionType
  unknown_type : ConditionType

-- The constants `Cond…` as a switch reads them.
unfoldable pub condition_type : Bytes → ConditionType
condition_type s =
    if bytes_eq s (codes "has_matches")
    then has_matches
    else if bytes_eq s (codes "no_matches")
    then no_matches
    else if bytes_eq s (codes "count_gt")
    then count_gt
    else if bytes_eq s (codes "count_lt")
    then count_lt
    else if bytes_eq s (codes "count_eq")
    then count_eq
    else if bytes_eq s (codes "file_exists")
    then file_exists
    else if bytes_eq s (codes "file_not_exists")
    then file_not_exists
    else if bytes_eq s (codes "step_succeeded")
    then step_succeeded
    else if bytes_eq s (codes "step_failed")
    then step_failed
    else unknown_type

abbrev pub needs_path : ConditionType → Bool
needs_path file_exists = true
needs_path file_not_exists = true
needs_path _ = false

abbrev pub is_known : ConditionType → Bool
is_known unknown_type = false
is_known _ = true

-- The first `switch` names every type but those of files.
abbrev pub needs_step_ref : ConditionType → Bool
needs_step_ref t = is_known t && not (needs_path t)

abbrev pub needs_value : ConditionType → Bool
needs_value count_gt = true
needs_value count_lt = true
needs_value count_eq = true
needs_value _ = false

-- `ValidateCondition` of a condition that is not nil.
unfoldable pub validate_condition :
    StepCondition → List (Bytes × ℕ) → Result ConditionError (Unit {0})
validate_condition cond prior_step_ids = do
  let t = condition_type cond.kind
  refuse_if (not (is_known t)) (unsupported_type cond.kind)
  refuse_if (needs_step_ref t && is_empty cond.step_ref) (requires_step_ref cond.kind)
  refuse_if (needs_step_ref t && not (has_key cond.step_ref prior_step_ids))
      (step_ref_not_found cond.step_ref)
  refuse_if (needs_value t && is_empty cond.value) (requires_value cond.kind)
  refuse_if (needs_value t && not (atoi cond.value).1) (value_not_an_integer cond.value)
  refuse_if (needs_path t && is_empty cond.path) (requires_path cond.kind)

-- What `os.Stat` answers: the file is there, it is not there, or another error.
pub data Stat : Type 0 where
  found not_found failed : Stat

-- `restricted`: there is an engine and it has allowed paths.
pub record Files : Type 0 where
  pub restricted : Bool
  pub is_path_allowed : Bytes → Bool
  pub normalize_path : Bytes → Bytes
  pub stat : Bytes → Stat

-- Why a step is skipped.
pub data Reason : Type 0 where
  no_reason : Reason
  ref_not_found : Bytes → Reason
  had_no_matches : Bytes → Reason
  had_matches : Bytes → ℕ → Reason
  count_unsatisfied : ℕ → Bytes → Reason
  access_denied : Bytes → Reason
  does_not_exist : Bytes → Reason
  exists : Bytes → Reason
  did_not_succeed : Bytes → Reason
  did_succeed : Bytes → Reason
  unknown_condition : Bytes → Reason

abbrev pub is_found : Stat → Bool
is_found found = true
is_found _ = false

abbrev pub is_not_found : Stat → Bool
is_not_found not_found = true
is_not_found _ = false

-- A test of the step that the condition refers to.
unfoldable pub on_result : Bytes → Option StepResult → (StepResult → Bool × Reason) → Bool × Reason
on_result ref none test = (false, ref_not_found ref)
on_result ref (some r) test = test r

-- `evalCountCondition`
unfoldable pub eval_count_condition : StepCondition → (ℤ → ℤ → Bool) → StepResult → Bool × Reason
eval_count_condition cond compare r =
    let total = total_count r in
    if compare (pos total) (atoi cond.value).0
    then (true, no_reason)
    else (false, count_unsatisfied total cond.value)

-- The two branches for files, with the answer that lets the step run.
unfoldable pub eval_file_condition : StepCondition → Files → (Stat → Bool) → Reason → Bool × Reason
eval_file_condition cond files wanted otherwise =
    let path = files.normalize_path cond.path in
    if files.restricted && not (files.is_path_allowed path)
    then (false, access_denied cond.path)
    else if wanted (files.stat path)
    then (true, no_reason)
    else (false, otherwise)

abbrev pub eq_ℤ : ℤ → ℤ → Bool
eq_ℤ a b = not (ltb_ℤ a b) && not (ltb_ℤ b a)

-- The branches of the `switch` of `EvaluateCondition`.
unfoldable pub evaluate_as : ConditionType → StepCondition → PipelineContext → Files → Bool × Reason
unfolding on_result eval_count_condition eval_file_condition
evaluate_as has_matches cond ctx files =
    on_result cond.step_ref (get_step_result cond.step_ref ctx) λ r.
      if is_empty r.files_matched then (false, had_no_matches cond.step_ref) else (true, no_reason)
evaluate_as no_matches cond ctx files =
    on_result cond.step_ref (get_step_result cond.step_ref ctx) λ r.
      if is_empty r.files_matched
      then (true, no_reason)
      else (false, had_matches cond.step_ref (length r.files_matched))
evaluate_as count_gt cond ctx files =
    on_result cond.step_ref (get_step_result cond.step_ref ctx)
      (eval_count_condition cond (λ total threshold. ltb_ℤ threshold total))
evaluate_as count_lt cond ctx files =
    on_result cond.step_ref (get_step_result cond.step_ref ctx)
      (eval_count_condition cond (λ total threshold. ltb_ℤ total threshold))
evaluate_as count_eq cond ctx files =
    on_result cond.step_ref (get_step_result cond.step_ref ctx)
      (eval_count_condition cond (λ total threshold. eq_ℤ total threshold))
evaluate_as file_exists cond ctx files =
    eval_file_condition cond files is_found (does_not_exist cond.path)
evaluate_as file_not_exists cond ctx files =
    eval_file_condition cond files is_not_found (exists cond.path)
evaluate_as step_succeeded cond ctx files =
    on_result cond.step_ref (get_step_result cond.step_ref ctx)
      λ r. if r.success then (true, no_reason) else (false, did_not_succeed cond.step_ref)
evaluate_as step_failed cond ctx files =
    on_result cond.step_ref (get_step_result cond.step_ref ctx)
      λ r. if not r.success then (true, no_reason) else (false, did_succeed cond.step_ref)
evaluate_as unknown_type cond ctx files = (false, unknown_condition cond.kind)

-- `EvaluateCondition` of a condition that is not nil.
unfoldable pub evaluate_condition : StepCondition → PipelineContext → Files → Bool × Reason
unfolding evaluate_as
evaluate_condition cond ctx files = evaluate_as (condition_type cond.kind) cond ctx files

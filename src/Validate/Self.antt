-- ===== src/Validate/Self.antt =====
-- core/pipeline_types.go: conditions on the step that they belong to.
use mcp_filesystem_go_ultra.Common.{
  ℕ, ◌+◌, ◌≡◌, ◌⊎◌, ◌>>◌, ap, refl, false, true, List, [], ◌∷◌, ◌++◌, none, some, Bytes, codes,
  bytes_eq_refl, is_empty, insert, has_key, lookup-insert, ok,
}
use mcp_filesystem_go_ultra.Pipeline.{StepCondition, PipelineStep}
use mcp_filesystem_go_ultra.Pipeline.Condition.{validate_condition}
use mcp_filesystem_go_ultra.Pipeline.Decide.{step_condition-accepted}
use mcp_filesystem_go_ultra.Validate.{
  validate_step, validate_action, params_of_action, require, require_files, require_inputs,
  has_input_files, check_input_from, check_references, check_condition, check_entered,
  validate_steps,
}

-- The step with another condition.
abbrev pub conditioned : StepCondition → PipelineStep → PipelineStep
conditioned cond step = record step { condition = some cond }

abbrev pub unconditioned : PipelineStep → PipelineStep
unconditioned step = record step { condition = none }

has_key-insert :
    (id : Bytes) (i : ℕ) (step_ids : List (Bytes × ℕ)) → has_key id (insert id i step_ids) ≡ true
has_key-insert id i step_ids = rw (lookup-insert id id i step_ids, bytes_eq_refl id, has_key) refl

check_condition_self :
    (cond : StepCondition) (step_ids : List (Bytes × ℕ))
    → validate_condition cond step_ids ≡ ok tt
    → check_condition (some cond) step_ids ≡ check_condition none step_ids
unfolding check_condition
check_condition_self cond step_ids h = rw (h, check_condition) refl

module _ (cond : StepCondition) (step : PipelineStep) (named : is_empty step.id ≡ false)
    (itself : cond.step_ref ≡ step.id)
    (kind : (cond.kind ≡ codes "step_succeeded") ⊎ (cond.kind ≡ codes "step_failed")) where
  check_entered_self :
      (i : ℕ) (step_ids : List (Bytes × ℕ))
      → check_entered i (conditioned cond step) (insert step.id i step_ids)
        ≡ check_entered i (unconditioned step) (insert step.id i step_ids)
  unfolding check_entered check_input_from
  check_entered_self i step_ids =
      let m = insert step.id i step_ids in
      let filled : is_empty cond.step_ref ≡ false = rw itself named in
      let there : has_key cond.step_ref m ≡ true = rw itself (has_key-insert step.id i step_ids) in
      let accepted = step_condition-accepted cond m filled there kind in
      ap (λ c. do check_input_from i step m; check_references i step.id step.input_from_all m; c)
        (check_condition_self cond m accepted)

  check_step_self :
      (i : ℕ) (after : List PipelineStep) (step_ids : List (Bytes × ℕ))
      → validate_steps i (conditioned cond step ∷ after) step_ids
        ≡ validate_steps i (unconditioned step ∷ after) step_ids
  unfolding validate_steps validate_step validate_action params_of_action require require_files
      require_inputs has_input_files
  check_step_self i after step_ids = rw (check_entered_self i step_ids) refl

  -- A condition of the type `step_succeeded` or `step_failed` on its own step, whose id is not
  -- empty, is never refused: wherever the step stands, the loop of `Validate` ends with the same
  -- result or error as without the condition.
  pub self_reference_passes :
      (before after : List PipelineStep) (i : ℕ) (step_ids : List (Bytes × ℕ))
      → validate_steps i (before ++ conditioned cond step ∷ after) step_ids
        ≡ validate_steps i (before ++ unconditioned step ∷ after) step_ids
  unfolding validate_steps
  self_reference_passes [] after i step_ids = check_step_self i after step_ids
  self_reference_passes (b ∷ before) after i step_ids =
      rw (self_reference_passes before after (i + 1) (insert b.id i step_ids)) refl

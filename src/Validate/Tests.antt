-- ===== src/Validate/Tests.antt =====
-- core/pipeline_types.go: requests that are validated, and the theorem at one of them.
use mcp_filesystem_go_ultra.Common.{
  ℕ, ◌≤◌, ◌<◌, ◌≡◌, refl, Bool, true, false, List, [], ◌∷◌, none, some, codes, get_elem?, ok, inl,
}
use mcp_filesystem_go_ultra.Pipeline.{text, PipelineStep}
use mcp_filesystem_go_ultra.Validate.{
  is_blank, is_valid_step_id, PipelineRequest, fill_ids, action_of, validate_step, check_reference,
  validate_steps, validate,
}
use mcp_filesystem_go_ultra.Validate.Self.{conditioned, unconditioned, self_reference_passes}
use mcp_filesystem_go_ultra.Pipeline.{StepCondition}
use mcp_filesystem_go_ultra.Validate.References.{BackwardRefs, validate_backward}

abbrev search_step : PipelineStep
search_step = record {
  id = codes "a";
  action = codes "search";
  input_from = [];
  input_from_all = [];
  params = (codes "pattern", text (codes "x")) ∷ [];
  condition = none;
}

abbrev delete_step : PipelineStep
delete_step = record {
  id = codes "b";
  action = codes "delete";
  input_from = codes "a";
  input_from_all = [];
  params = [];
  condition = none;
}

abbrev request : List PipelineStep → Bool → PipelineRequest
request steps validated = record { name = codes "n"; steps = steps; validated = validated }

request_validated :
    validate (request (search_step ∷ delete_step ∷ []) false)
    ≡ ok (request (search_step ∷ delete_step ∷ []) true)
unfolding validate is_blank fill_ids validate_steps validate_step is_valid_step_id action_of
    check_reference
request_validated = refl

validate_backward_example :
    (0 < 2)
    × (2 ≤ 20)
    × ((i : ℕ) (step : PipelineStep)
        → get_elem? (search_step ∷ delete_step ∷ []) i ≡ some step
        → BackwardRefs (search_step ∷ delete_step ∷ []) i step)
validate_backward_example =
    validate_backward (request (search_step ∷ delete_step ∷ []) false)
      (request (search_step ∷ delete_step ∷ []) true) refl request_validated

abbrev on_itself : StepCondition
on_itself = record { kind = codes "step_succeeded"; step_ref = codes "b"; value = []; path = [] }

self_reference_passes_example :
    validate_steps 0 (search_step ∷ conditioned on_itself delete_step ∷ []) []
    ≡ validate_steps 0 (search_step ∷ unconditioned delete_step ∷ []) []
self_reference_passes_example =
    self_reference_passes on_itself delete_step refl refl (inl refl) (search_step ∷ []) [] 0 []

-- Such a request is validated.
self_reference_validated :
    validate_steps 0 (search_step ∷ conditioned on_itself delete_step ∷ []) [] ≡ ok tt
unfolding validate_steps is_blank validate_step is_valid_step_id action_of check_reference
self_reference_validated =
    self_reference_passes on_itself delete_step refl refl (inl refl) (search_step ∷ []) [] 0 []

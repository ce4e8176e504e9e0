-- ===== src/Scheduler/Tests.antt =====
-- core/pipeline_scheduler.go: plans of some pipelines, and the theorems at them.
use mcp_filesystem_go_ultra.Common.{
  ℕ, zero, suc, ◌≤◌, ◌<◌, ◌≡◌, refl, Bool, List, [], ◌∷◌, Option, none, some, Bytes, codes, All,
  ltb, if◌then◌else◌, arith, ok, err,
}
use mcp_filesystem_go_ultra.Pipeline.{StepCondition, PipelineStep}
use mcp_filesystem_go_ultra.Scheduler.{
  select, all_deps, dependency_cycle, build_execution_plan, split_destructive_levels,
  dependency_names,
}
use mcp_filesystem_go_ultra.Scheduler.Counting.{count}
use mcp_filesystem_go_ultra.Scheduler.Levels.{AreOrdered}
use mcp_filesystem_go_ultra.Scheduler.Plan.{IsRanked, plan_sound, plan_total}
use mcp_filesystem_go_ultra.Scheduler.Split.{IsSafeLevel, split-safe}
use mcp_filesystem_go_ultra.Common.{concat}

abbrev step : Bytes → Bytes → List Bytes → Option StepCondition → PipelineStep
step id action from condition = record {
  id = id;
  action = action;
  input_from = [];
  input_from_all = from;
  params = [];
  condition = condition;
}

-- Two searches, an edit of the first one's files and a deletion of the second one's, and a count.
abbrev five_steps : List PipelineStep
five_steps =
    step (codes "a") (codes "search") [] none
    ∷ step (codes "b") (codes "search") [] none
    ∷ step (codes "c") (codes "edit") (codes "a" ∷ []) none
    ∷ step (codes "d") (codes "delete") (codes "b" ∷ []) none
    ∷ step (codes "e") (codes "count_occurrences") (codes "a" ∷ codes "b" ∷ codes "a" ∷ []) none
    ∷ []

abbrev five_levels : List (List ℕ)
five_levels = (0 ∷ 1 ∷ []) ∷ (4 ∷ []) ∷ (2 ∷ []) ∷ (3 ∷ []) ∷ []

five_steps_planned : build_execution_plan five_steps ≡ ok five_levels
unfolding build_execution_plan select
five_steps_planned = refl

dependency_names_once :
    dependency_names
      (step (codes "e") (codes "merge") (codes "a" ∷ codes "b" ∷ codes "a" ∷ []) none)
    ≡ codes "a" ∷ codes "b" ∷ []
unfolding dependency_names
dependency_names_once = refl

plan_sound_example :
    ((i : ℕ) → i < 5 → count i (concat five_levels) ≡ 1)
    × ((i : ℕ) → 5 ≤ i → count i (concat five_levels) ≡ 0)
    × AreOrdered (all_deps five_steps) [] five_levels
plan_sound_example = plan_sound five_steps five_levels five_steps_planned

abbrev five_ranks : ℕ → ℕ
five_ranks i = if ltb i 2 then 0 else 1

five_steps-IsRanked : IsRanked (all_deps five_steps) five_ranks
unfolding all_deps
five_steps-IsRanked zero lt = tt
five_steps-IsRanked (suc zero) lt = tt
five_steps-IsRanked (suc (suc zero)) lt = ((omega arith, omega arith), tt)
five_steps-IsRanked (suc (suc (suc zero))) lt = ((omega arith, omega arith), tt)
five_steps-IsRanked (suc (suc (suc (suc zero)))) lt =
    ((omega arith, omega arith), ((omega arith, omega arith), tt))
five_steps-IsRanked (suc (suc (suc (suc (suc i))))) lt = absurd (omega arith)

plan_total_example : (plan : List (List ℕ)) × (build_execution_plan five_steps ≡ ok plan)
plan_total_example = plan_total five_steps five_ranks five_steps-IsRanked

-- A condition that refers to its own step.
abbrev own_condition : List PipelineStep
own_condition =
    step (codes "a") (codes "search") []
      (some (record { kind = codes "step_succeeded"; step_ref = codes "a"; value = []; path = [] }))
    ∷ []

own_condition_refused : build_execution_plan own_condition ≡ err (dependency_cycle 0 1)
unfolding build_execution_plan
own_condition_refused = refl

abbrev above_one : ℕ → Bool
above_one = ltb 1

split_levels :
    split_destructive_levels above_one ((0 ∷ 1 ∷ []) ∷ (2 ∷ 0 ∷ 3 ∷ []) ∷ [])
    ≡ (0 ∷ 1 ∷ []) ∷ (0 ∷ []) ∷ (2 ∷ []) ∷ (3 ∷ []) ∷ []
unfolding split_destructive_levels select
split_levels = refl

split-safe_example :
    All (IsSafeLevel above_one) (split_destructive_levels above_one ((2 ∷ 0 ∷ 3 ∷ []) ∷ []))
split-safe_example = split-safe above_one ((2 ∷ 0 ∷ 3 ∷ []) ∷ [])

-- ===== src/Scheduler/Plan.antt =====
-- core/pipeline_scheduler.go: what `BuildExecutionPlan` promises.
use mcp_filesystem_go_ultra.Common.{
  ℕ, zero, suc, ◌+◌, ◌≤◌, ◌<◌, ◌≡◌, refl, sym, ap, ◌∙◌, Bool, true, false, List, [], ◌∷◌, Option,
  some, length, All, ◌==◌, if◌then◌else◌, arith, ok, err,
}
use mcp_filesystem_go_ultra.Common.{concat}
use mcp_filesystem_go_ultra.Pipeline.{PipelineStep}
use mcp_filesystem_go_ultra.Scheduler.{
  all_deps, zero_counts, lengths, run_levels, split_destructive_levels, is_destructive,
  dependency_cycle, finish_plan, build_execution_plan,
}
use mcp_filesystem_go_ultra.Scheduler.Counting.{count, row, missing, missing_of_done}
use mcp_filesystem_go_ultra.Scheduler.Rounds.{Kahn, start-Kahn}
use mcp_filesystem_go_ultra.Scheduler.Pigeonhole.{each_of_length, length_of_each}
use mcp_filesystem_go_ultra.Scheduler.Levels.{AreOrdered, Outcome, run_levels-Outcome}
use mcp_filesystem_go_ultra.Scheduler.Deps.{all_deps-AreSets, length-all_deps}
use mcp_filesystem_go_ultra.Scheduler.Order.{split-AreOrdered, count-split}

-- What the loop of the levels returns for the steps.
abbrev loop_result : List PipelineStep → Option (List (List ℕ) × ℕ)
loop_result steps =
    run_levels (length steps + 1) (all_deps steps) (zero_counts 0 (lengths (all_deps steps)))
      (lengths (all_deps steps))

plan-Outcome : (steps : List PipelineStep) → Outcome (all_deps steps) [] (loop_result steps)
plan-Outcome steps =
    run_levels-Outcome (all_deps steps) (all_deps-AreSets steps) (length steps + 1) [] _ _
      (start-Kahn (all_deps steps)) (omega (arith, length-all_deps steps))

-- The plan from what the loop returns.
plan-finish :
    (steps : List PipelineStep)
    → build_execution_plan steps
      ≡ finish_plan steps
          (some ((plan-Outcome steps).levels, length (concat (plan-Outcome steps).levels)))
unfolding build_execution_plan
plan-finish steps = ap (finish_plan steps) (plan-Outcome steps).returned

-- What a plan is made of.
plan-eq-ok :
    (steps : List PipelineStep) (plan levels : List (List ℕ))
    → finish_plan steps (some (levels, length (concat levels))) ≡ ok plan
    → (length (concat levels) ≡ length steps)
      × (plan ≡ split_destructive_levels (is_destructive steps) levels)
unfolding finish_plan
plan-eq-ok steps plan levels h =
    by_test (length (concat levels) == length steps) (λ e. ground arith) h
  where
    by_test :
        (b : Bool)
        → (b ≡ true → length (concat levels) ≡ length steps)
        → (if b
            then ok (split_destructive_levels (is_destructive steps) levels)
            else err (dependency_cycle (length (concat levels)) (length steps)))
          ≡ ok plan
        → (length (concat levels) ≡ length steps)
          × (plan ≡ split_destructive_levels (is_destructive steps) levels)
    by_test true e h = (e refl, cc h)
    by_test false e h = cc h

plan_when_all :
    (steps : List PipelineStep) (levels : List (List ℕ))
    → length (concat levels) ≡ length steps
    → finish_plan steps (some (levels, length (concat levels)))
      ≡ ok (split_destructive_levels (is_destructive steps) levels)
unfolding finish_plan
plan_when_all steps levels h = rw h (ground arith)

-- Each step stands at most once in what was done.
done_once :
    (deps : List (List ℕ)) (done c : List ℕ)
    → Kahn deps done [] [] c
    → (i : ℕ) → i < length deps
    → count i done ≤ 1
done_once deps done c k i lt = let s = k.standing i lt in ground arith

-- A plan that is returned holds each step exactly once and nothing else, and in its order every
-- step comes after all the steps that it depends on: when a level begins, each dependency of
-- each of its steps stands in an earlier level.
pub plan_sound :
    (steps : List PipelineStep) (plan : List (List ℕ))
    → build_execution_plan steps ≡ ok plan
    → ((i : ℕ) → i < length steps → count i (concat plan) ≡ 1)
      × ((i : ℕ) → length steps ≤ i → count i (concat plan) ≡ 0)
      × AreOrdered (all_deps steps) [] plan
plan_sound steps plan h =
    let o = plan-Outcome steps in
    let (all, same) = plan-eq-ok steps plan o.levels (sym (plan-finish steps) ∙ h) in
    let size = length-all_deps steps in
    let deps = all_deps steps in
    let beyond : (i : ℕ) → length deps ≤ i → count i (concat o.levels) ≡ 0 =
      λ i ge. omega (arith, o.finished.outside i ge) in
    let each : (i : ℕ) → i < length deps → count i (concat o.levels) ≡ 1 =
      each_of_length (length deps) (concat o.levels) beyond
        (done_once deps (concat o.levels) o.final o.finished) (all ∙ sym size) in
    let kept : (i : ℕ) → count i (concat plan) ≡ count i (concat o.levels) =
      λ i. ap (λ p. count i (concat p)) same ∙ count-split (is_destructive steps) i o.levels in
    (
      λ i lt. kept i ∙ each i (omega arith),
      λ i ge. kept i ∙ beyond i (omega arith),
      rw same (split-AreOrdered deps (is_destructive steps) [] o.levels o.ordered),
    )

-- The dependencies of each step are steps of a smaller rank, so that there is no cycle.
abbrev pub IsRanked : List (List ℕ) → (ℕ → ℕ) → Type 0
IsRanked deps rank =
    (i : ℕ) → i < length deps → All (λ d. (d < length deps) × (rank d < rank i)) (row deps i)

all_done :
    (deps : List (List ℕ)) (rank : ℕ → ℕ) (done c : List ℕ)
    → IsRanked deps rank
    → Kahn deps done [] [] c
    → (k i : ℕ) → rank i < k
    → i < length deps
    → count i done ≡ 1
all_done deps rank done c ranked kahn zero i below lt = absurd (omega arith)
all_done deps rank done c ranked kahn (suc k) i below lt =
    let ready : missing done (row deps i) ≡ 0 = missing_of_done done (row deps i) (
      each (row deps i) (ranked i lt) (λ d d_lt less.
        omega (arith, all_done deps rank done c ranked kahn k d (omega arith) d_lt))) in
    let s = kahn.standing i lt in ground arith
  where
    each :
        (ds : List ℕ)
        → All (λ d. (d < length deps) × (rank d < rank i)) ds
        → ((d : ℕ) → d < length deps → rank d < rank i → 0 < count d done)
        → All (λ d. 0 < count d done) ds
    each [] h ih = tt
    each (d ∷ ds) h ih = (ih d h.0.0 h.0.1, each ds h.1 ih)

-- A plan is returned whenever the dependencies have no cycle: whenever the steps can be given
-- ranks such that every step depends only on steps of a smaller rank. The loop has fuel enough.
pub plan_total :
    (steps : List PipelineStep) (rank : ℕ → ℕ)
    → IsRanked (all_deps steps) rank
    → (plan : List (List ℕ)) × (build_execution_plan steps ≡ ok plan)
plan_total steps rank ranked =
    let o = plan-Outcome steps in
    let deps = all_deps steps in
    let all : length (concat o.levels) ≡ length deps =
      length_of_each (length deps) (concat o.levels)
        (λ i ge. omega (arith, o.finished.outside i ge))
        (λ i lt.
          all_done deps rank (concat o.levels) o.final ranked o.finished (suc (rank i)) i
            (omega arith) lt) in
    (
      split_destructive_levels (is_destructive steps) o.levels,
      plan-finish steps ∙ plan_when_all steps o.levels (all ∙ length-all_deps steps),
    )

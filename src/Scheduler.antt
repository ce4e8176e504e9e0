-- ===== src/Scheduler.antt =====
-- core/pipeline_scheduler.go: `BuildExecutionPlan` orders the steps by Kahn's algorithm, level by
-- level, and `splitDestructiveLevels` divides the levels. `GetDependencies` lists references.
-- The slices `deps`, `depCount` and `dependents` are one list of dependencies here: a step's
-- count is the number of its dependencies, and its dependents are found in the order in which
-- the source appends them, that of the steps. The loop runs on fuel; `n + 1` rounds are given.
pub mod Split
pub mod Counting
pub mod Rounds
pub mod Pigeonhole
pub mod Deps
pub mod Order
pub mod Plan
pub mod Cycle
pub mod Levels
mod Tests
use mcp_filesystem_go_ultra.Common.{
  ℕ, zero, suc, ◌+◌, ◌-◌, ◌*◌, ◌≤◌, ◌<◌, ◌≡◌, ◌≢◌, ◌↔◌, ◌⊎◌, inl, inr, refl, sym, ap, subst, ◌∙◌,
  Bool, true, false, not, ◌&&◌, ◌||◌, List, [], ◌∷◌, ◌++◌, map, Option, none, some, append-nil,
  append_assoc, Bytes, codes, bytes_eq, bytes_eq_refl, eq_of_bytes_eq, bytes_eq_of_eq, is_empty,
  length, get_elem?, get_or, set, length-append, lookup, insert, has_key, lookup-insert, All, ltb,
  leb, ◌==◌, if◌then◌else◌, Bool-cases, Option-cases, arith, Result, ok, err, ◌>>=◌, ◌>>◌,
  refuse_if, >>=-eq-ok,
}
use mcp_filesystem_go_ultra.Pipeline.{StepCondition, PipelineStep}

-- `idToIdx`: the last step of an id wins.
unfoldable pub id_to_idx : ℕ → List PipelineStep → List (Bytes × ℕ) → List (Bytes × ℕ)
id_to_idx i [] m = m
id_to_idx i (step ∷ steps) m = id_to_idx (i + 1) steps (insert step.id i m)

abbrev pub mem_nat : ℕ → List ℕ → Bool
mem_nat a [] = false
mem_nat a (x ∷ xs) = x == a || mem_nat a xs

-- A reference to a step is added once; one to no step is passed over.
unfoldable pub add_dep : List (Bytes × ℕ) → List ℕ → Bytes → List ℕ
add_dep m deps ref = elim (lookup ref m) [
  | none ↦ deps
  | some idx ↦ if mem_nat idx deps then deps else deps ++ idx ∷ []
]

unfoldable pub add_deps : List (Bytes × ℕ) → List ℕ → List Bytes → List ℕ
unfolding add_dep
add_deps m deps [] = deps
add_deps m deps (ref ∷ refs) = add_deps m (add_dep m deps ref) refs

-- The `step_ref` of a condition, empty where there is none.
abbrev pub condition_ref : PipelineStep → Bytes
condition_ref step = elim step.condition [ none ↦ [] | some c ↦ c.step_ref ]

-- `deps[i]`
unfoldable pub step_deps : List (Bytes × ℕ) → PipelineStep → List ℕ
unfolding add_deps
step_deps m step =
    let from = if is_empty step.input_from then [] else add_dep m [] step.input_from in
    let all = add_deps m from step.input_from_all in
    if is_empty (condition_ref step) then all else add_dep m all (condition_ref step)

unfoldable pub all_deps : List PipelineStep → List (List ℕ)
unfolding id_to_idx step_deps
all_deps steps = let m = id_to_idx 0 steps [] in map (step_deps m) steps

-- `dependents[idx]`: the steps, from step `i` on, that depend on `idx`.
unfoldable pub dependents : ℕ → List (List ℕ) → ℕ → List ℕ
dependents i [] idx = []
dependents i (d ∷ ds) idx =
    let rest = dependents (i + 1) ds idx in if mem_nat idx d then i ∷ rest else rest

-- `depCount`, entry by entry.
abbrev pub lengths : List (List ℕ) → List ℕ
lengths [] = []
lengths (d ∷ ds) = length d ∷ lengths ds

-- The steps, from step `i` on, whose count is 0.
unfoldable pub zero_counts : ℕ → List ℕ → List ℕ
zero_counts i [] = []
zero_counts i (n ∷ ns) = let rest = zero_counts (i + 1) ns in if n == 0 then i ∷ rest else rest

-- The counts and `nextQueue` inside a round.
pub record Round : Type 0 where
  pub dep_count : List ℕ
  pub next_queue : List ℕ

-- `depCount[dep]--`, and the step is queued when nothing is left. A dependent has a count above
-- 0 here, since it is met once for each of its dependencies.
unfoldable pub release : ℕ → Round → Round
release dep r =
    let left = get_or r.dep_count dep 0 - 1 in
    record {
      dep_count = set r.dep_count dep left;
      next_queue = if left == 0 then r.next_queue ++ dep ∷ [] else r.next_queue;
    }

unfoldable pub release_all : List ℕ → Round → Round
unfolding release
release_all [] r = r
release_all (dep ∷ deps) r = release_all deps (release dep r)

-- The loop over the queue.
unfoldable pub process_queue : List (List ℕ) → List ℕ → Round → Round
unfolding release_all dependents
process_queue deps [] r = r
process_queue deps (idx ∷ queue) r =
    process_queue deps queue (release_all (dependents 0 deps idx) r)

-- `for len(queue) > 0`: the levels and the number of steps visited; `none` means that the fuel
-- ran out.
unfoldable pub run_levels : ℕ → List (List ℕ) → List ℕ → List ℕ → Option (List (List ℕ) × ℕ)
unfolding process_queue
run_levels fuel deps [] dep_count = some ([], 0)
run_levels zero deps (q ∷ queue) dep_count = none
run_levels (suc fuel) deps (q ∷ queue) dep_count =
    let level = q ∷ queue in
    let r = process_queue deps level (record { dep_count = dep_count; next_queue = [] }) in
    let rest = run_levels fuel deps r.next_queue r.dep_count in
    elim rest [
      | none ↦ none
      | some (levels, visited) ↦ some (level ∷ levels, length level + visited)
    ]

-- `destructiveActions[steps[idx].Action]`
abbrev pub is_destructive_action : Bytes → Bool
is_destructive_action a =
    bytes_eq a (codes "edit")
    || (bytes_eq a (codes "multi_edit")
        || (bytes_eq a (codes "regex_transform")
            || (bytes_eq a (codes "delete") || bytes_eq a (codes "rename"))))

unfoldable pub is_destructive : List PipelineStep → ℕ → Bool
is_destructive steps idx = elim (get_elem? steps idx) [
  | none ↦ false
  | some step ↦ is_destructive_action step.action
]

-- The steps of a level that pass a test, in order.
unfoldable pub select : (ℕ → Bool) → List ℕ → List ℕ
select test [] = []
select test (idx ∷ level) = let rest = select test level in if test idx then idx ∷ rest else rest

abbrev pub singletons : List ℕ → List (List ℕ)
singletons [] = []
singletons (idx ∷ level) = (idx ∷ []) ∷ singletons level

-- One round of `splitDestructiveLevels`.
unfoldable pub split_level : (ℕ → Bool) → List ℕ → List (List ℕ)
split_level test level =
    let destructive = select test level in
    let read_only = select (λ idx. not (test idx)) level in
    if leb (length level) 1
    then level ∷ []
    else if is_empty destructive
    then level ∷ []
    else if is_empty read_only
    then singletons destructive
    else read_only ∷ singletons destructive

-- `splitDestructiveLevels`
unfoldable pub split_destructive_levels : (ℕ → Bool) → List (List ℕ) → List (List ℕ)
unfolding split_level
split_destructive_levels test [] = []
split_destructive_levels test (level ∷ levels) =
    split_level test level ++ split_destructive_levels test levels

pub data PlanError : Type 0 where
  dependency_cycle : ℕ → ℕ → PlanError
  out_of_fuel : PlanError

-- What follows the loop: the test for a cycle, and the split.
unfoldable pub finish_plan :
    List PipelineStep → Option (List (List ℕ) × ℕ) → Result PlanError (List (List ℕ))
unfolding is_destructive split_destructive_levels
finish_plan steps none = err out_of_fuel
finish_plan steps (some (levels, visited)) =
    if visited == length steps
    then ok (split_destructive_levels (is_destructive steps) levels)
    else err (dependency_cycle visited (length steps))

-- `BuildExecutionPlan`; the levels are empty for no steps.
unfoldable pub build_execution_plan : List PipelineStep → Result PlanError (List (List ℕ))
unfolding all_deps zero_counts run_levels finish_plan
build_execution_plan steps =
    let deps = all_deps steps in
    finish_plan steps
      (run_levels (length steps + 1) deps (zero_counts 0 (lengths deps)) (lengths deps))

abbrev pub mem_bytes : Bytes → List Bytes → Bool
mem_bytes a [] = false
mem_bytes a (x ∷ xs) = bytes_eq x a || mem_bytes a xs

-- A name that was not seen is added.
abbrev pub add_name : List Bytes → Bytes → List Bytes
add_name names ref = if mem_bytes ref names then names else names ++ ref ∷ []

abbrev pub add_names : List Bytes → List Bytes → List Bytes
add_names names [] = names
add_names names (ref ∷ refs) = add_names (add_name names ref) refs

-- The entry of `GetDependencies` for one step.
unfoldable pub dependency_names : PipelineStep → List Bytes
dependency_names step =
    let from = if is_empty step.input_from then [] else step.input_from ∷ [] in
    let all = add_names from step.input_from_all in
    if is_empty (condition_ref step) then all else add_name all (condition_ref step)

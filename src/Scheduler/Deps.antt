-- ===== src/Scheduler/Deps.antt =====
-- core/pipeline_scheduler.go: the dependencies that `BuildExecutionPlan` collects.
use mcp_filesystem_go_ultra.Common.{
  ℕ, zero, suc, ◌≤◌, ◌≡◌, inl, inr, refl, false, List, [], ◌∷◌, ◌++◌, map, Option, none, some,
  Bytes, is_empty, length, lookup, if◌then◌else◌, Bool-cases, arith,
}
use mcp_filesystem_go_ultra.Common.{length-map, ℕ_discrete}
use mcp_filesystem_go_ultra.Pipeline.{PipelineStep}
use mcp_filesystem_go_ultra.Scheduler.{
  mem_nat, id_to_idx, add_dep, add_deps, step_deps, condition_ref, all_deps,
}
use mcp_filesystem_go_ultra.Scheduler.Counting.{count, count-append, AreSets}

not_mem-count : (a : ℕ) (ds : List ℕ) → mem_nat a ds ≡ false → count a ds ≡ 0
not_mem-count a [] e = refl
not_mem-count a (d ∷ ds) e = ground (arith, not_mem-count a ds)

abbrev NoRepeats : List ℕ → Type 0
NoRepeats ds = (a : ℕ) → count a ds ≤ 1

add_new :
    (idx : ℕ) (deps : List ℕ)
    → NoRepeats deps
    → NoRepeats (if mem_nat idx deps then deps else deps ++ idx ∷ [])
add_new idx deps h a = elim (Bool-cases (mem_nat idx deps)) [
  | inl e ↦ rw e (h a)
  | inr e ↦
      rw (e, count-append a deps (idx ∷ []))
        (elim (ℕ_discrete idx a) [
          | yes same ↦ rw (← same) (ground (arith, not_mem-count idx deps e))
          | no other ↦ ground (arith, h a)
        ])
]

-- A dependency is added only where it is not there yet.
add_dep-NoRepeats :
    (m : List (Bytes × ℕ)) (deps : List ℕ) (ref : Bytes)
    → NoRepeats deps
    → NoRepeats (add_dep m deps ref)
unfolding add_dep
add_dep-NoRepeats m deps ref h = by_lookup (lookup ref m)
  where
    by_lookup :
        (o : Option ℕ)
        → NoRepeats (elim o [
          | none ↦ deps
          | some idx ↦ if mem_nat idx deps then deps else deps ++ idx ∷ []
        ])
    by_lookup none = h
    by_lookup (some idx) = add_new idx deps h

add_deps-NoRepeats :
    (m : List (Bytes × ℕ)) (deps : List ℕ) (refs : List Bytes)
    → NoRepeats deps
    → NoRepeats (add_deps m deps refs)
unfolding add_deps
add_deps-NoRepeats m deps [] h = h
add_deps-NoRepeats m deps (ref ∷ refs) h =
    add_deps-NoRepeats m (add_dep m deps ref) refs (add_dep-NoRepeats m deps ref h)

step_deps-NoRepeats : (m : List (Bytes × ℕ)) (step : PipelineStep) → NoRepeats (step_deps m step)
unfolding step_deps
step_deps-NoRepeats m step =
    last (condition_ref step) _ (add_deps-NoRepeats m _ step.input_from_all (first step.input_from))
  where
    first : (ref : Bytes) → NoRepeats (if is_empty ref then [] else add_dep m [] ref)
    first [] = λ a. omega arith
    first (c ∷ ref) = add_dep-NoRepeats m [] (c ∷ ref) (λ a. omega arith)

    last :
        (ref : Bytes) (all : List ℕ)
        → NoRepeats all
        → NoRepeats (if is_empty ref then all else add_dep m all ref)
    last [] all h = h
    last (c ∷ ref) all h = add_dep-NoRepeats m all (c ∷ ref) h

rows_of_map :
    (f : PipelineStep → List ℕ) (steps : List PipelineStep)
    → ((s : PipelineStep) → NoRepeats (f s))
    → AreSets (map f steps)
rows_of_map f [] h i a = omega arith
rows_of_map f (s ∷ steps) h zero a = h s a
rows_of_map f (s ∷ steps) h (suc i) a = rows_of_map f steps h i a

pub all_deps-AreSets : (steps : List PipelineStep) → AreSets (all_deps steps)
unfolding all_deps
all_deps-AreSets steps =
    rows_of_map (step_deps (id_to_idx 0 steps [])) steps
      (step_deps-NoRepeats (id_to_idx 0 steps []))

pub length-all_deps : (steps : List PipelineStep) → length (all_deps steps) ≡ length steps
unfolding all_deps
length-all_deps steps = length-map steps (step_deps (id_to_idx 0 steps []))

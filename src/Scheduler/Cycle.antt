-- ===== src/Scheduler/Cycle.antt =====
-- core/pipeline_scheduler.go: a step that depends on itself.
use mcp_filesystem_go_ultra.Common.{
  ℕ, ◌<◌, ◌≡◌, ◌≢◌, refl, ◌∙◌, List, [], ◌∷◌, ◌++◌, length, All, arith, ok,
}
use mcp_filesystem_go_ultra.Common.{concat, ℕ_discrete}
use mcp_filesystem_go_ultra.Pipeline.{PipelineStep}
use mcp_filesystem_go_ultra.Scheduler.{all_deps, build_execution_plan}
use mcp_filesystem_go_ultra.Scheduler.Counting.{count, count-append, row}
use mcp_filesystem_go_ultra.Scheduler.Levels.{IsReady, AreOrdered}
use mcp_filesystem_go_ultra.Scheduler.Plan.{plan_sound}

-- A dependency that stands in the list is one of those that are done.
done_of_count :
    (done ds : List ℕ) (d : ℕ) → All (λ d. 0 < count d done) ds → 0 < count d ds → 0 < count d done
done_of_count done [] d h lt = absurd (omega arith)
done_of_count done (x ∷ ds) d h lt = elim (ℕ_discrete x d) [
  | yes e ↦ rw (← e) h.0
  | no n ↦ done_of_count done ds d h.1 (ground arith)
]

IsReady-of_count :
    (deps : List (List ℕ)) (done l : List ℕ) (i : ℕ)
    → All (IsReady deps done) l
    → 0 < count i l
    → IsReady deps done i
IsReady-of_count deps done [] i h lt = absurd (omega arith)
IsReady-of_count deps done (x ∷ l) i h lt = elim (ℕ_discrete x i) [
  | yes e ↦ rw (← e) h.0
  | no n ↦ IsReady-of_count deps done l i h.1 (ground arith)
]

-- In an order a step that needs itself does not occur.
never_ordered :
    (deps : List (List ℕ)) (i : ℕ) (done : List ℕ) (levels : List (List ℕ))
    → 0 < count i (row deps i)
    → AreOrdered deps done levels
    → count i done ≡ 0
    → count i (concat levels) ≡ 0
never_ordered deps i done [] self h new = refl
never_ordered deps i done (l ∷ levels) self h new = elim (ℕ_discrete (count i l) 0) [
  | yes none_here ↦
      count-append i l (concat levels)
      ∙ omega (
        arith,
        none_here,
        never_ordered deps i (done ++ l) levels self h.1 (omega (arith, count-append i done l)),
      )
  | no some_here ↦ absurd (
      omega (
        arith,
        done_of_count done (row deps i) i (IsReady-of_count deps done l i h.0 (omega arith)) self,
      ))
]

-- No plan is made for steps of which one depends on itself.
pub self_dependency_refused :
    (steps : List PipelineStep) (i : ℕ) (plan : List (List ℕ))
    → i < length steps
    → 0 < count i (row (all_deps steps) i)
    → build_execution_plan steps ≢ ok plan
self_dependency_refused steps i plan lt self h =
    let (each, beyond, ordered) = plan_sound steps plan h in
    absurd (omega (arith, each i lt, never_ordered (all_deps steps) i [] plan self ordered refl))

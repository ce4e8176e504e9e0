-- ===== src/Executor/Account.antt =====
-- core/pipeline.go: what the loop over the steps counts.
use mcp_filesystem_go_ultra.Common.{
  ℕ, ◌+◌, ◌≡◌, inl, inr, refl, Bool, true, false, not, ◌&&◌, List, [], ◌∷◌, ◌++◌, Option, none,
  some, Bytes, length, if◌then◌else◌, Bool-cases, arith,
}
use mcp_filesystem_go_ultra.Pipeline.{PipelineStep, StepResult, PipelineContext}
use mcp_filesystem_go_ultra.Validate.{action_of}
use mcp_filesystem_go_ultra.Executor.{
  Options, Acted, Engine, settle, act, run_or_skip, execute_step, Progress, failed, record_step,
  count_step, run_steps,
}

unfoldable pub sum_edits : List StepResult → ℕ
sum_edits [] = 0
sum_edits (r ∷ rs) = r.edits_applied + sum_edits rs

unfoldable pub count_success : List StepResult → ℕ
count_success [] = 0
count_success (r ∷ rs) = (if r.success then 1 else 0) + count_success rs

unfoldable pub all_succeed : List StepResult → Bool
all_succeed [] = true
all_succeed (r ∷ rs) = r.success && all_succeed rs

sum_edits-snoc :
    (rs : List StepResult) (r : StepResult)
    → sum_edits (rs ++ r ∷ []) ≡ sum_edits rs + r.edits_applied
unfolding sum_edits
sum_edits-snoc [] r = omega arith
sum_edits-snoc (s ∷ rs) r = omega (arith, sum_edits-snoc rs r)

pub count_success-snoc :
    (rs : List StepResult) (r : StepResult)
    → count_success (rs ++ r ∷ []) ≡ count_success rs + (if r.success then 1 else 0)
unfolding count_success
count_success-snoc [] r = omega arith
count_success-snoc (s ∷ rs) r = omega (arith, count_success-snoc rs r)

pub all_succeed-snoc :
    (rs : List StepResult) (r : StepResult)
    → all_succeed (rs ++ r ∷ []) ≡ (all_succeed rs && r.success)
unfolding all_succeed
all_succeed-snoc [] r = ground arith
all_succeed-snoc (s ∷ rs) r = ground (arith, all_succeed-snoc rs r)

pub count_success-all :
    (rs : List StepResult) → all_succeed rs ≡ true → count_success rs ≡ length rs
unfolding count_success all_succeed
count_success-all [] h = refl
count_success-all (r ∷ rs) h = ground (arith, count_success-all rs)

settle-failed :
    {W : Type 0} (w : W) (r : StepResult) (e : Option Bytes)
    → let a : Acted W = record { world = w; result = r; error = e } in
      failed (settle a) ≡ not (settle a).result.success
unfolding settle failed
settle-failed w r none = refl
settle-failed w r (some e) = refl

acted-failed : {W : Type 0} (a : Acted W) → failed (settle a) ≡ not (settle a).result.success
acted-failed a = settle-failed a.world a.result a.error

module _ {W : Type 0} (engine : Engine W) (options : Options) where
  run_or_skip-failed :
      (b : Bool) (step : PipelineStep) (ctx : PipelineContext) (w : W)
      → let a = run_or_skip engine b step ctx options w in failed a ≡ not a.result.success
  unfolding run_or_skip failed
  run_or_skip-failed false step ctx w = refl
  run_or_skip-failed true step ctx w =
      acted-failed (act engine (action_of step.action) _ ctx options w)

  -- A step fails exactly when its result says so.
  pub execute_step-failed :
      (step : PipelineStep) (ctx : PipelineContext) (w : W)
      → let a = execute_step engine step ctx options w in failed a ≡ not a.result.success
  unfolding execute_step
  execute_step-failed step ctx w = run_or_skip-failed _ step ctx w

  -- What the loop has counted is what its results show.
  pub record Accounts (p : Progress W) : Type 0 where
    pub edits : p.total_edits ≡ sum_edits p.results
    pub completed : p.completed_steps ≡ count_success p.results
    pub success : p.all_success ≡ all_succeed p.results

  pub account_step :
      (step : PipelineStep) (a : Acted W) (p : Progress W)
      → failed a ≡ not a.result.success
      → Accounts p
      → Accounts (count_step a (record_step step a p))
  unfolding count_step record_step
  account_step step a p fails h = record {
    edits = omega (arith, sum_edits-snoc p.results a.result, h.edits);
    completed = omega (arith, count_success-snoc p.results a.result, h.completed);
    success = ground (arith, all_succeed-snoc p.results a.result, h.success, fails);
  }

  pub account_failed :
      (step : PipelineStep) (a : Acted W) (p : Progress W)
      → failed a ≡ not a.result.success
      → failed a ≡ true
      → Accounts p
      → Accounts (record_step step a p)
  unfolding record_step
  account_failed step a p fails bad h = record {
    edits = omega (arith, sum_edits-snoc p.results a.result, h.edits);
    completed = ground (arith, count_success-snoc p.results a.result, h.completed, fails, bad);
    success = ground (arith, all_succeed-snoc p.results a.result, h.success, fails);
  }

  pub run_steps-Accounts :
      (i : ℕ) (steps : List PipelineStep) (p : Progress W)
      → Accounts p
      → Accounts (run_steps engine options i steps p).0
  unfolding run_steps
  run_steps-Accounts i [] p h = h
  run_steps-Accounts i (step ∷ steps) p h =
      let a : Acted W = execute_step engine step p.context options p.world in
      let fails = execute_step-failed step p.context p.world in
      elim (Bool-cases (failed a && options.stop_on_error)) [
        | inl stops ↦
            rw (stops, run_steps) (account_failed step a p fails (ground (arith, stops)) h)
        | inr runs ↦
            rw (runs, run_steps)
              (run_steps-Accounts (i + 1) steps _ (account_step step a p fails h))
      ]

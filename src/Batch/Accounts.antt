-- ===== src/Batch/Accounts.antt =====
-- core/batch_operations.go: the counts and the results of a batch.
use mcp_filesystem_go_ultra.Common.{
  ℕ, ◌+◌, ◌≡◌, ◌⊎◌, inl, inr, refl, sym, ap, subst, Bool, true, false, List, [], ◌∷◌, ◌++◌, Option,
  none, some, Bytes, length, length-append, ◌==◌, if◌then◌else◌, Bool-cases, arith, err,
}
use mcp_filesystem_go_ultra.Common.Int.{ℤ}
use mcp_filesystem_go_ultra.Batch.{
  FileOperation, BatchRequest, BatchResult, BatchError, OperationResult, OperationError, Disk,
}
use mcp_filesystem_go_ultra.Batch.Check.{validate_operations}
use mcp_filesystem_go_ultra.Batch.Operation.{execute_operation}
use mcp_filesystem_go_ultra.Batch.Undo.{RollbackData, prepare_rollback}
use mcp_filesystem_go_ultra.Batch.Run.{
  run_operations, after_operation, execute_batch, execute_checked, execute_valid, run_with_backup,
  conclude, close_run, backup, add_success, add_failure, empty_result, succeeded, failed,
}
use mcp_filesystem_go_ultra.Batch.Atomic.{Outcome-cases}

-- How many results have the given success.
abbrev pub count_results : Bool → List OperationResult → ℕ
count_results b [] = 0
count_results b (r ∷ rs) =
    (if r.success then (if b then 1 else 0) else (if b then 0 else 1)) + count_results b rs

count_results-append :
    (b : Bool) (rs ts : List OperationResult)
    → count_results b (rs ++ ts) ≡ count_results b rs + count_results b ts
count_results-append b [] ts = omega arith
count_results-append b (r ∷ rs) ts = omega (arith, count_results-append b rs ts)

-- The counts are those of the results.
pub AreCounted : BatchResult → Type 0
AreCounted r =
    (r.completed_ops ≡ count_results true r.results)
    × (r.failed_ops ≡ count_results false r.results)
    × (r.completed_ops + r.failed_ops ≡ length r.results)

-- How a run ends that is to have `n` results: all of them, or fewer and a rollback.
EndsWith : ℕ → BatchResult → Type 0
EndsWith n r =
    AreCounted r
    × ((r.success ≡ false) ⊎ ((r.failed_ops ≡ 0) × (length r.results ≡ n)))
    × (((r.rollback_done ≡ true) × (r.success ≡ false))
        ⊎ ((r.rollback_done ≡ false) × (length r.results ≡ n)))

add_success-AreCounted :
    (i : ℕ) (op : FileOperation) (b : ℤ) (r : BatchResult)
    → AreCounted r
    → AreCounted (add_success i op b r)
unfolding AreCounted
add_success-AreCounted i op b r (completed, failing, total) =
    let yes_more = count_results-append true r.results (succeeded i op b ∷ []) in
    let no_more = count_results-append false r.results (succeeded i op b ∷ []) in
    let longer = length-append r.results (succeeded i op b ∷ []) in
    (
      omega (arith, completed, yes_more),
      omega (arith, failing, no_more),
      omega (arith, total, longer),
    )

add_failure-AreCounted :
    (i : ℕ) (op : FileOperation) (e : OperationError) (r : BatchResult)
    → AreCounted r
    → AreCounted (add_failure i op e r)
unfolding AreCounted
add_failure-AreCounted i op e r (completed, failing, total) =
    let yes_more = count_results-append true r.results (failed i op e ∷ []) in
    let no_more = count_results-append false r.results (failed i op e ∷ []) in
    let longer = length-append r.results (failed i op e ∷ []) in
    (
      omega (arith, completed, yes_more),
      omega (arith, failing, no_more),
      omega (arith, total, longer),
    )

module _ {W : Type 0} (disk : Disk W) where
  run_operations-EndsWith :
      (atomic : Bool) (i : ℕ) (ops : List FileOperation) (info : List RollbackData)
      (r : BatchResult) (w : W) (n : ℕ)
      → AreCounted r
      → r.success ≡ false
      → r.rollback_done ≡ false
      → length r.results + length ops ≡ n
      → EndsWith n (run_operations disk atomic i ops info r w).0
  unfolding run_operations after_operation EndsWith AreCounted
  run_operations-EndsWith atomic i [] info r w n counted running fresh size =
      (counted, inl running, inr (fresh, omega (arith, size)))
  run_operations-EndsWith atomic i (op ∷ ops) info r w n counted running fresh size =
      let rb = prepare_rollback disk op w in
      let round =
        after_operation disk atomic i op rb info r (run_operations disk atomic (i + 1) ops) in
      elim (Outcome-cases (execute_operation disk op w)) [
        | inl (b, (w', e)) ↦
            let longer = length-append r.results (succeeded i op b ∷ []) in
            subst (λ o. EndsWith n o.0) (sym (ap round e))
              (run_operations-EndsWith atomic (i + 1) ops (if atomic then info ++ rb ∷ [] else info)
                (add_success i op b r) w' n (add_success-AreCounted i op b r counted) running fresh
                (omega (arith, size, longer)))
        | inr (x, (w', e)) ↦
            let longer = length-append r.results (failed i op x ∷ []) in
            let next = run_operations disk atomic (i + 1) ops in
            let by : Bool → Type 0 =
              λ a. EndsWith n (after_operation disk a i op rb info r next (err x, w')).0 in
            subst (λ o. EndsWith n o.0) (sym (ap round e))
              (elim (Bool-cases atomic) [
                | inl a ↦
                    subst by (sym a)
                      (add_failure-AreCounted i op x r counted, inl running, inl (refl, running))
                | inr a ↦ subst by (sym a) (
                    run_operations-EndsWith atomic (i + 1) ops info (add_failure i op x r) w' n
                      (add_failure-AreCounted i op x r counted) running fresh
                      (omega (arith, size, longer)))
              ])
      ]

  close_run-EndsWith :
      (rolled clean : Bool) (ops : List FileOperation) (r : BatchResult) (w : W) (n : ℕ)
      → r.rollback_done ≡ rolled
      → (r.failed_ops == 0) ≡ clean
      → EndsWith n r
      → EndsWith n (close_run disk rolled clean ops r w).0
  unfolding close_run EndsWith AreCounted
  close_run-EndsWith true clean ops r w n e f all = all
  close_run-EndsWith false clean ops r w n e f (counted, good, inl (rolled, _)) =
      absurd (cc (e, rolled))
  close_run-EndsWith false true ops r w n e f (counted, good, inr (fresh, size)) =
      (counted, inr (ground (arith, f), size), inr (fresh, size))
  close_run-EndsWith false false ops r w n e f (counted, good, inr (fresh, size)) =
      (counted, inl refl, inr (fresh, size))

  conclude-EndsWith :
      (ops : List FileOperation) (o : BatchResult × W) (n : ℕ)
      → EndsWith n o.0
      → EndsWith n (conclude disk ops o).0
  unfolding conclude
  conclude-EndsWith ops (r, w) n all =
      close_run-EndsWith r.rollback_done (r.failed_ops == 0) ops r w n refl refl all

  run_with_backup-EndsWith :
      (request : BatchRequest) (o : Option Bytes × W)
      → AreCounted (run_with_backup disk request o).0
        × (((run_with_backup disk request o).0.success ≡ false)
            ⊎ (((run_with_backup disk request o).0.failed_ops ≡ 0)
                × (length (run_with_backup disk request o).0.results ≡ length request.operations)))
  unfolding run_with_backup AreCounted EndsWith
  run_with_backup-EndsWith request (none, w) = ((refl, refl, omega arith), inl refl)
  run_with_backup-EndsWith request (some path, w) =
      let r : BatchResult = record (empty_result request) { backup_path = path } in
      let (counted, good, _) =
        conclude-EndsWith request.operations
          (run_operations disk request.atomic 0 request.operations [] r w)
          (length request.operations)
          (run_operations-EndsWith request.atomic 0 request.operations [] r w
            (length request.operations) (refl, refl, omega arith) refl refl (omega arith)) in
      (counted, good)

  checked-EndsWith :
      (errors : List BatchError) (request : BatchRequest) (w : W)
      → request.validate_only ≡ false
      → AreCounted (execute_checked disk errors request w).0
        × (((execute_checked disk errors request w).0.success ≡ false)
            ⊎ (((execute_checked disk errors request w).0.failed_ops ≡ 0)
                × (length (execute_checked disk errors request w).0.results
                    ≡ length request.operations)))
  unfolding execute_checked execute_valid AreCounted
  checked-EndsWith (e ∷ errors) request w executed = ((refl, refl, omega arith), inl refl)
  checked-EndsWith [] request w executed =
      let P : Bool → Type 0 = λ only.
        AreCounted (execute_valid disk only request w).0
        × (((execute_valid disk only request w).0.success ≡ false)
            ⊎ (((execute_valid disk only request w).0.failed_ops ≡ 0)
                × (length (execute_valid disk only request w).0.results
                    ≡ length request.operations))) in
      subst P (sym executed) (run_with_backup-EndsWith request (backup disk request w))

-- A batch that is executed counts its results: as many are completed as succeeded and as many
-- failed as did not, and it reports success only where every operation has a result and none
-- failed.
pub batch_accounts :
    {W : Type 0} (disk : Disk W) (request : BatchRequest) (w : W)
    → request.validate_only ≡ false
    → AreCounted (execute_batch disk request w).0
      × (((execute_batch disk request w).0.success ≡ false)
          ⊎ (((execute_batch disk request w).0.failed_ops ≡ 0)
              × (length (execute_batch disk request w).0.results ≡ length request.operations)))
unfolding execute_batch
batch_accounts disk request w executed =
    checked-EndsWith disk (validate_operations disk request.operations w) request w executed

-- ===== src/Batch/Run.antt =====
-- core/batch_operations.go: `ExecuteBatch` and `refreshKnownHashes`.
use mcp_filesystem_go_ultra.Common.{
  ℕ, ◌+◌, Bool, true, false, List, [], ◌∷◌, ◌++◌, Option, none, some, Bytes, length, ◌==◌,
  if◌then◌else◌, ok, err,
}
use mcp_filesystem_go_ultra.Common.Int.{ℤ, pos}
use mcp_filesystem_go_ultra.Batch.{
  OperationType, write, edit, search_and_replace, move, delete, create_dir, copy, extract, other,
  FileOperation, BatchRequest, OperationError, BatchError, backup_failed, rolled_back,
  OperationResult, BatchResult, Disk,
}
use mcp_filesystem_go_ultra.Batch.Check.{validate_operations}
use mcp_filesystem_go_ultra.Batch.Operation.{execute_operation, Outcome}
use mcp_filesystem_go_ultra.Batch.Undo.{RollbackData, prepare_rollback, rollback}

abbrev pub empty_result : BatchRequest → BatchResult
empty_result request = record {
  success = false;
  total_ops = length request.operations;
  completed_ops = 0;
  failed_ops = 0;
  results = [];
  backup_path = [];
  rollback_done = false;
  validation_only = request.validate_only;
  errors = [];
}

-- The results of a request that is only validated.
abbrev pub validated_results : ℕ → List FileOperation → List OperationResult
validated_results i [] = []
validated_results i (op ∷ ops) =
    record {
      index = i;
      type = op.type;
      path = op.path;
      success = true;
      error = none;
      bytes_affected = pos 0;
    }
    ∷ validated_results (i + 1) ops

-- `opResult` of an operation that succeeded, and of one that failed.
abbrev pub succeeded : ℕ → FileOperation → ℤ → OperationResult
succeeded i op bytes = record {
  index = i;
  type = op.type;
  path = op.path;
  success = true;
  error = none;
  bytes_affected = bytes;
}

abbrev pub failed : ℕ → FileOperation → OperationError → OperationResult
failed i op e = record {
  index = i;
  type = op.type;
  path = op.path;
  success = false;
  error = some e;
  bytes_affected = pos 0;
}

-- The result with one operation more.
abbrev pub add_success : ℕ → FileOperation → ℤ → BatchResult → BatchResult
add_success i op bytes r = record r {
  completed_ops = r.completed_ops + 1;
  results = r.results ++ succeeded i op bytes ∷ [];
}

abbrev pub add_failure : ℕ → FileOperation → OperationError → BatchResult → BatchResult
add_failure i op e r = record r {
  failed_ops = r.failed_ops + 1;
  results = r.results ++ failed i op e ∷ [];
}

module _ {W : Type 0} (disk : Disk W) where
  -- `refreshKnownHashes`, for one operation.
  abbrev pub refresh_type : OperationType → FileOperation → W → W
  refresh_type write op w = disk.refresh_known_hash op.path w
  refresh_type edit op w = disk.refresh_known_hash op.path w
  refresh_type search_and_replace op w = disk.refresh_known_hash op.path w
  refresh_type extract op w =
      disk.refresh_known_hash op.destination (disk.refresh_known_hash op.source w)
  refresh_type copy op w = disk.refresh_known_hash op.destination w
  refresh_type move op w =
      disk.refresh_known_hash op.destination (disk.invalidate_known_hash op.source w)
  refresh_type delete op w = disk.invalidate_known_hash op.path w
  refresh_type create_dir op w = w
  refresh_type (other name) op w = w

  unfoldable pub refresh_known_hashes : List FileOperation → W → W
  refresh_known_hashes [] w = w
  refresh_known_hashes (op ∷ ops) w = refresh_known_hashes ops (refresh_type op.type op w)

  -- What a round does with the outcome of its operation: `next` is the loop from there on.
  unfoldable pub after_operation :
      Bool
      → ℕ
      → FileOperation
      → RollbackData
      → List RollbackData
      → BatchResult
      → (List RollbackData → BatchResult → W → BatchResult × W)
      → Outcome W
      → BatchResult × W
  unfolding rollback
  after_operation atomic i op rb info r next (ok bytes, w) =
      next (if atomic then info ++ rb ∷ [] else info) (add_success i op bytes r) w
  after_operation true i op rb info r next (err e, w) = (
    record (add_failure i op e r) { rollback_done = true; errors = rolled_back i e ∷ [] },
    rollback disk info w,
  )
  after_operation false i op rb info r next (err e, w) = next info (add_failure i op e r) w

  -- The loop, from operation `i` on, up to its end or its `return`.
  unfoldable pub run_operations :
      Bool → ℕ → List FileOperation → List RollbackData → BatchResult → W → BatchResult × W
  unfolding execute_operation prepare_rollback after_operation
  run_operations atomic i [] info r w = (r, w)
  run_operations atomic i (op ∷ ops) info r w =
      after_operation atomic i op (prepare_rollback disk op w) info r
        (run_operations atomic (i + 1) ops) (execute_operation disk op w)

  -- What follows the loop, where it was not left by the rollback.
  unfoldable pub close_run : Bool → Bool → List FileOperation → BatchResult → W → BatchResult × W
  unfolding refresh_known_hashes
  close_run true no_failure ops r w = (r, w)
  close_run false true ops r w = (record r { success = true }, refresh_known_hashes ops w)
  close_run false false ops r w = (record r { success = false }, w)

  unfoldable pub conclude : List FileOperation → BatchResult × W → BatchResult × W
  unfolding close_run
  conclude ops (r, w) = close_run r.rollback_done (r.failed_ops == 0) ops r w

  -- From the backup on.
  unfoldable pub run_with_backup : BatchRequest → Option Bytes × W → BatchResult × W
  unfolding run_operations conclude
  run_with_backup request (none, w) =
      (record (empty_result request) { errors = backup_failed ∷ [] }, w)
  run_with_backup request (some path, w) = conclude request.operations (
      run_operations request.atomic 0 request.operations []
        (record (empty_result request) { backup_path = path }) w)

  -- The backup, if one is asked for.
  abbrev pub backup : BatchRequest → W → Option Bytes × W
  backup request w =
      if request.create_backup then disk.create_backup request.operations w else (some [], w)

  -- A request whose operations are valid.
  unfoldable pub execute_valid : Bool → BatchRequest → W → BatchResult × W
  unfolding run_with_backup
  execute_valid true request w = (
    record (empty_result request) {
      success = true;
      results = validated_results 0 request.operations;
    },
    w,
  )
  execute_valid false request w = run_with_backup request (backup request w)

  unfoldable pub execute_checked : List BatchError → BatchRequest → W → BatchResult × W
  unfolding execute_valid
  execute_checked [] request w = execute_valid request.validate_only request w
  execute_checked (e ∷ errors) request w =
      (record (empty_result request) { errors = e ∷ errors }, w)

  -- `ExecuteBatch`
  unfoldable pub execute_batch : BatchRequest → W → BatchResult × W
  unfolding validate_operations execute_checked
  execute_batch request w =
      execute_checked (validate_operations disk request.operations w) request w

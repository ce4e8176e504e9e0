-- ===== src/Batch/Atomic.antt =====
-- core/batch_operations.go: the rollback of an atomic batch.
use mcp_filesystem_go_ultra.Common.{
  ℕ, ◌+◌, ◌≡◌, ◌⊎◌, inl, inr, refl, sym, ap, subst, ◌∙◌, Bool, true, false, List, [], ◌∷◌, ◌++◌,
  Option, none, some, Bytes, ◌==◌, if◌then◌else◌, Bool-cases, ok, err,
}
use mcp_filesystem_go_ultra.Common.Int.{ℤ}
use mcp_filesystem_go_ultra.Batch.{
  OperationType, write, edit, search_and_replace, move, delete, create_dir, copy, extract, other,
  FileOperation, BatchRequest, BatchError, OperationError, denied_by_hook, BatchResult, Disk,
}
use mcp_filesystem_go_ultra.Batch.Check.{validate_operations}
use mcp_filesystem_go_ultra.Batch.Operation.{execute_operation, Outcome, execute_type, is_known}
use mcp_filesystem_go_ultra.Batch.Undo.{
  RollbackData, prepare_rollback, prepare_type, rollback, undo,
}
use mcp_filesystem_go_ultra.Batch.Run.{
  run_operations, after_operation, execute_batch, run_with_backup, execute_valid, execute_checked,
  conclude, close_run, backup, add_success, empty_result,
}
use mcp_filesystem_go_ultra.Batch.Laws.{
  AreSameFiles, DiskLaws, HooksKeepFiles, FailuresKeepFiles, then_on-eq-ok, then_on-eq-err,
}
use mcp_filesystem_go_ultra.Batch.Restore.{same_state}
use mcp_filesystem_go_ultra.Batch.Unchanged.{unchanged_type}
use mcp_filesystem_go_ultra.Batch.Rollback.{
  undoable_type, AreUndoable, Undoes, Undoes-type, is_ok, and_of, undo_works, rollback_works,
}

pub Outcome-cases :
    {W : Type 0} (o : Outcome W)
    → ((b : ℤ) × ((w : W) × (o ≡ (ok b, w))))
      ⊎ ((x : OperationError) × ((w : W) × (o ≡ (err x, w))))
Outcome-cases (ok b, w) = inl (b, (w, refl))
Outcome-cases (err x, w) = inr (x, (w, refl))

module _ {W : Type 0} (disk : Disk W) (laws : DiskLaws disk) (quiet : HooksKeepFiles disk) where
  -- What is saved of an operation depends on the files only.
  prepare_type-same :
      (kind : OperationType) (op : FileOperation) (v w : W)
      → AreSameFiles disk v w
      → prepare_type disk kind op v ≡ prepare_type disk kind op w
  unfolding AreSameFiles
  prepare_type-same write op v w same = rw (same op.path) refl
  prepare_type-same edit op v w same = rw (same op.path) refl
  prepare_type-same search_and_replace op v w same = rw (same op.path) refl
  prepare_type-same move op v w same = refl
  prepare_type-same copy op v w same = refl
  prepare_type-same delete op v w same = rw (same op.path) refl
  prepare_type-same create_dir op v w same = refl
  prepare_type-same extract op v w same = rw (same op.source, same op.destination) refl
  prepare_type-same (other name) op v w same = refl

  -- So does what its undoing relies on.
  undoable_type-same :
      (kind : OperationType) (op : FileOperation) (v w : W)
      → AreSameFiles disk v w
      → undoable_type disk kind op w ≡ undoable_type disk kind op v
  unfolding AreSameFiles
  undoable_type-same write op v w same = refl
  undoable_type-same edit op v w same = refl
  undoable_type-same search_and_replace op v w same = refl
  undoable_type-same move op v w same = rw (same op.source, same op.destination) refl
  undoable_type-same copy op v w same = rw (same op.destination) refl
  undoable_type-same delete op v w same = rw (same op.path) refl
  undoable_type-same create_dir op v w same = refl
  undoable_type-same extract op v w same = refl
  undoable_type-same (other name) op v w same = refl

  -- An operation that has succeeded is undone by its rollback data.
  undoes_operation :
      (op : FileOperation) (w w' x : W) (b : ℤ)
      → undoable_type disk op.type op w ≡ true
      → execute_operation disk op w ≡ (ok b, w')
      → AreSameFiles disk x w'
      → undo_works disk (prepare_rollback disk op w) x ≡ true
      → AreSameFiles disk (undo disk (prepare_rollback disk op w) x) w
  unfolding execute_operation prepare_rollback Undoes AreSameFiles
  undoes_operation op w w' x b good h same works q = elim (Bool-cases (is_known op.type)) [
    | inr e ↦
        Undoes-type disk laws quiet op.type op w w' b good (rw (e, execute_operation) at h) x same
          works q
    | inl e ↦
        let w1 = (disk.pre_hook op w).1 in
        let hook : AreSameFiles disk w1 w = quiet.pre_hook_reads op w in
        let (allowed, ran) =
          then_on-eq-ok (disk.pre_hook op w) denied_by_hook (execute_type disk op.type op) b w'
            (rw (e, execute_operation) at h) in
        let good_1 : undoable_type disk op.type op w1 ≡ true =
          sym (undoable_type-same op.type op w1 w hook) ∙ good in
        let prepared = prepare_type-same op.type op w1 w hook in
        let works_1 : undo_works disk (prepare_type disk op.type op w1) x ≡ true =
          subst (λ rb. undo_works disk rb x ≡ true) (sym prepared) works in
        rw (sym prepared)
          (Undoes-type disk laws quiet op.type op w1 w' b good_1 ran x same works_1 q ∙ hook q)
  ]

  unknown_unchanged :
      (kind : OperationType) (op : FileOperation) (w w' : W) (x : OperationError)
      → is_known kind ≡ false
      → execute_type disk kind op w ≡ (err x, w')
      → AreSameFiles disk w' w
  unfolding execute_type
  unknown_unchanged (other name) op w w' x e h = same_state disk laws quiet _ _ (ap (λ y. y.1) h)
  unknown_unchanged write op w w' x e h = absurd (cc e)
  unknown_unchanged edit op w w' x e h = absurd (cc e)
  unknown_unchanged search_and_replace op w w' x e h = absurd (cc e)
  unknown_unchanged move op w w' x e h = absurd (cc e)
  unknown_unchanged copy op w w' x e h = absurd (cc e)
  unknown_unchanged delete op w w' x e h = absurd (cc e)
  unknown_unchanged create_dir op w w' x e h = absurd (cc e)
  unknown_unchanged extract op w w' x e h = absurd (cc e)

  -- One that fails has changed no file, where its failing call has not.
  unchanged_operation :
      (op : FileOperation) (w w' : W) (x : OperationError)
      → FailuresKeepFiles disk op.type op (disk.pre_hook op w).1
      → execute_operation disk op w ≡ (err x, w')
      → AreSameFiles disk w' w
  unfolding execute_operation AreSameFiles
  unchanged_operation op w w' x keep h q = elim (Bool-cases (is_known op.type)) [
    | inr e ↦ unknown_unchanged op.type op w w' x e (rw (e, execute_operation) at h) q
    | inl e ↦
        elim (then_on-eq-err (disk.pre_hook op w) denied_by_hook (execute_type disk op.type op) x w'
          (rw (e, execute_operation) at h)) [
            | inl (denied, last) ↦
                same_state disk laws quiet _ _ last q ∙ quiet.pre_hook_reads op w q
            | inr (allowed, ran) ↦
                unchanged_type disk laws quiet op.type op (disk.pre_hook op w).1 w' x keep ran q
                ∙ quiet.pre_hook_reads op w q
          ]
  ]

  -- The rollback of one operation more.
  rollback-append :
      (info : List RollbackData) (rb : RollbackData) (w : W)
      → rollback disk (info ++ rb ∷ []) w ≡ rollback disk info (undo disk rb w)
  unfolding rollback
  rollback-append [] rb w = refl
  rollback-append (i ∷ info) rb w = ap (λ x. undo disk i x) (rollback-append info rb w)

  rollback_works-append :
      (info : List RollbackData) (rb : RollbackData) (w : W)
      → rollback_works disk (info ++ rb ∷ []) w ≡ true
      → (undo_works disk rb w ≡ true) × (rollback_works disk info (undo disk rb w) ≡ true)
  unfolding rollback_works rollback
  rollback_works-append [] rb w h = (h, refl)
  rollback_works-append (i ∷ info) rb w h =
      let (before, last) = and_of _ _ h in
      let (first, others) = rollback_works-append info rb w before in
      let last' : undo_works disk i (rollback disk info (undo disk rb w)) ≡ true =
        subst (λ v. undo_works disk i v ≡ true) (rollback-append info rb w) last in
      (first, rw (others, last') refl)

  -- The rollback data lead from the files of `w` back to those of `start`.
  unfoldable LeadsBack : List RollbackData → W → W → Type 0
  LeadsBack info w start =
      (x : W)
      → AreSameFiles disk x w
      → rollback_works disk info x ≡ true
      → AreSameFiles disk (rollback disk info x) start

  step-ok :
      (atomic : Bool) (i : ℕ) (op : FileOperation) (ops : List FileOperation)
      (info : List RollbackData) (r : BatchResult) (w w' : W) (b : ℤ)
      → execute_operation disk op w ≡ (ok b, w')
      → run_operations disk atomic i (op ∷ ops) info r w
        ≡ run_operations disk atomic
            (i + 1)
            ops
            (if atomic then info ++ prepare_rollback disk op w ∷ [] else info)
            (add_success i op b r)
            w'
  unfolding run_operations after_operation
  step-ok atomic i op ops info r w w' b e =
      ap
        (after_operation disk atomic i op (prepare_rollback disk op w) info r
          (run_operations disk atomic (i + 1) ops))
        e

  -- A run that begins without a rollback and ends with one ends with the files of the start.
  run_restores :
      (i : ℕ) (ops : List FileOperation) (info : List RollbackData) (r : BatchResult) (w start : W)
      → AreUndoable disk ops info w
      → LeadsBack info w start
      → r.rollback_done ≡ false
      → (run_operations disk true i ops info r w).0.rollback_done ≡ true
      → AreSameFiles disk (run_operations disk true i ops info r w).1 start
  unfolding run_operations after_operation AreUndoable LeadsBack
  run_restores i [] info r w start good back fresh rolled = absurd (cc (fresh, rolled))
  run_restores i (op ∷ ops) info r w start (succeeding, failing) back fresh rolled =
      elim (Outcome-cases (execute_operation disk op w)) [
        | inr (x, (w', e)) ↦
            let ended =
              ap
                (after_operation disk true i op (prepare_rollback disk op w) info r
                  (run_operations disk true (i + 1) ops))
                e in
            let (kept, works) =
              subst
                (λ o.
                  is_ok o.0 ≡ false
                  → FailuresKeepFiles disk op.type op (disk.pre_hook op w).1
                    × (rollback_works disk info o.1 ≡ true))
                e failing refl in
            subst (λ o. AreSameFiles disk o.1 start) (sym ended)
              (back w' (unchanged_operation op w w' x kept e) works)
        | inl (b, (w', e)) ↦
            let rb = prepare_rollback disk op w in
            let next = step-ok true i op ops info r w w' b e in
            let (undoable, rest) =
              subst
                (λ o.
                  is_ok o.0 ≡ true
                  → (undoable_type disk op.type op w ≡ true)
                    × AreUndoable disk ops (info ++ rb ∷ []) o.1)
                e succeeding refl in
            let back' : LeadsBack (info ++ rb ∷ []) w' start = λ x same works.
              let (first, others) = rollback_works-append info rb x works in
              rw (rollback-append info rb x)
                (back _ (undoes_operation op w w' x b undoable e same first) others) in
            subst (λ o. AreSameFiles disk o.1 start) (sym next)
              (run_restores (i + 1) ops (info ++ rb ∷ []) (add_success i op b r) w' start rest back'
                fresh (subst (λ o. o.0.rollback_done ≡ true) next rolled))
      ]

  -- What follows the loop does not touch a run that was rolled back.
  close_run-restores :
      (rolled clean : Bool) (ops : List FileOperation) (r : BatchResult) (w start : W)
      → r.rollback_done ≡ rolled
      → (r.rollback_done ≡ true → AreSameFiles disk w start)
      → (close_run disk rolled clean ops r w).0.rollback_done ≡ true
      → AreSameFiles disk (close_run disk rolled clean ops r w).1 start
  unfolding close_run
  close_run-restores true clean ops r w start e back done_so = back e
  close_run-restores false true ops r w start e back done_so = absurd (cc (e, done_so))
  close_run-restores false false ops r w start e back done_so = absurd (cc (e, done_so))

  conclude-restores :
      (ops : List FileOperation) (o : BatchResult × W) (start : W)
      → (o.0.rollback_done ≡ true → AreSameFiles disk o.1 start)
      → (conclude disk ops o).0.rollback_done ≡ true
      → AreSameFiles disk (conclude disk ops o).1 start
  unfolding conclude
  conclude-restores ops (r, w) start back rolled =
      close_run-restores r.rollback_done (r.failed_ops == 0) ops r w start refl back rolled

  run_with_backup-restores :
      (request : BatchRequest) (o : Option Bytes × W)
      → request.atomic ≡ true
      → AreUndoable disk request.operations [] o.1
      → (run_with_backup disk request o).0.rollback_done ≡ true
      → AreSameFiles disk (run_with_backup disk request o).1 o.1
  unfolding run_with_backup LeadsBack
  run_with_backup-restores request (none, w) atomic good rolled = absurd (cc rolled)
  run_with_backup-restores request (some path, w) atomic good rolled =
      let r : BatchResult = record (empty_result request) { backup_path = path } in
      conclude-restores request.operations
        (run_operations disk request.atomic 0 request.operations [] r w) w
        (subst
          (λ a.
            (run_operations disk a 0 request.operations [] r w).0.rollback_done ≡ true
            → AreSameFiles disk (run_operations disk a 0 request.operations [] r w).1 w)
          (sym atomic)
          (run_restores 0 request.operations [] r w w good (λ x same works. same) refl))
        rolled

  execute_valid-restores :
      (only : Bool) (request : BatchRequest) (w : W)
      → request.atomic ≡ true
      → AreUndoable disk request.operations [] (backup disk request w).1
      → (execute_valid disk only request w).0.rollback_done ≡ true
      → AreSameFiles disk (execute_valid disk only request w).1 (backup disk request w).1
  unfolding execute_valid
  execute_valid-restores true request w atomic good rolled = absurd (cc rolled)
  execute_valid-restores false request w atomic good rolled =
      run_with_backup-restores request (backup disk request w) atomic good rolled

  execute_checked-restores :
      (errors : List BatchError) (request : BatchRequest) (w : W)
      → request.atomic ≡ true
      → AreUndoable disk request.operations [] (backup disk request w).1
      → (execute_checked disk errors request w).0.rollback_done ≡ true
      → AreSameFiles disk (execute_checked disk errors request w).1 (backup disk request w).1
  unfolding execute_checked
  execute_checked-restores [] request w atomic good rolled =
      execute_valid-restores request.validate_only request w atomic good rolled
  execute_checked-restores (e ∷ errors) request w atomic good rolled = absurd (cc rolled)

-- An atomic batch that was rolled back ends with the files that it had when its operations
-- began, where different paths name different files, no hook changes a file, the destination of
-- each move and copy that succeeded was no file and what was moved or deleted was one, the call
-- by which an operation failed changed no file, an extraction that failed changed none, and the
-- calls of the rollback succeed.
pub atomic_rollback :
    {W : Type 0} (disk : Disk W) (request : BatchRequest) (w : W)
    → DiskLaws disk
    → HooksKeepFiles disk
    → request.atomic ≡ true
    → AreUndoable disk request.operations [] (backup disk request w).1
    → (execute_batch disk request w).0.rollback_done ≡ true
    → AreSameFiles disk (execute_batch disk request w).1 (backup disk request w).1
unfolding execute_batch
atomic_rollback disk request w laws quiet atomic good rolled =
    execute_checked-restores disk laws quiet (validate_operations disk request.operations w) request
      w atomic good rolled

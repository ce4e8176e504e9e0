-- ===== src/Batch/Unchanged.antt =====
-- core/batch_operations.go: what an operation that fails does to the files.
use mcp_filesystem_go_ultra.Common.{
  ◌≡◌, inl, inr, ap, ◌∙◌, Option, none, some, Bytes, length, Bool-cases, Option-cases, err,
}
use mcp_filesystem_go_ultra.Common.Int.{pos, ◌-ℤ◌}
use mcp_filesystem_go_ultra.Batch.{
  OperationType, write, edit, search_and_replace, move, delete, create_dir, copy, extract, other,
  FileOperation, OperationError, io_error, Disk,
}
use mcp_filesystem_go_ultra.Batch.Operation.{
  execute_type, execute_write, execute_edit, execute_search_and_replace, execute_move, execute_copy,
  execute_delete, execute_create_dir, edit_content, write_edit, size_of, final_content,
}
use mcp_filesystem_go_ultra.Batch.Laws.{
  AreSameFiles, DiskLaws, HooksKeepFiles, FailuresKeepFiles, with_file-eq-err, finish-eq-err,
  finish_replace-eq-err,
}
use mcp_filesystem_go_ultra.Batch.Restore.{same_state}

module _ {W : Type 0} (disk : Disk W) (laws : DiskLaws disk) (quiet : HooksKeepFiles disk) where
  -- Where the call that failed has changed nothing, the operation has not.
  write-unchanged :
      (op : FileOperation) (w w' : W) (x : OperationError)
      → FailuresKeepFiles disk write op w
      → execute_write disk op w ≡ (err x, w')
      → AreSameFiles disk w' w
  unfolding execute_write AreSameFiles FailuresKeepFiles
  write-unchanged op w w' x keep h q =
      let call = disk.atomic_write_file op.path op.content w in
      let (failing, last) = finish-eq-err disk call io_error op (pos (length op.content)) x w' h in
      same_state disk laws quiet _ _ last q ∙ keep failing q

  write_edit-unchanged :
      (op : FileOperation) (s : Bytes) (o : Option Bytes) (w w' : W) (x : OperationError)
      → FailuresKeepFiles disk edit op w
      → write_edit disk op s o w ≡ (err x, w')
      → AreSameFiles disk w' w
  unfolding write_edit AreSameFiles FailuresKeepFiles
  write_edit-unchanged op s none w w' x keep h q =
      same_state disk laws quiet _ _ (ap (λ y. y.1) h) q
  write_edit-unchanged op s (some final) w w' x keep h q =
      let call = disk.write_file op.path final w in
      let op' : FileOperation = record op { content = final } in
      let (failing, last) =
        finish-eq-err disk call io_error op' (pos (length final) -ℤ pos (length s)) x w' h in
      same_state disk laws quiet _ _ last q ∙ keep final failing q

  edit-unchanged :
      (op : FileOperation) (w w' : W) (x : OperationError)
      → FailuresKeepFiles disk edit op w
      → execute_edit disk op w ≡ (err x, w')
      → AreSameFiles disk w' w
  unfolding execute_edit edit_content AreSameFiles FailuresKeepFiles
  edit-unchanged op w w' x keep h q = elim (Option-cases (disk.read_file op.path w)) [
    | inl gone ↦ same_state disk laws quiet _ _ (ap (λ y. y.1) (rw (gone, edit_content) at h)) q
    | inr (c, there) ↦
        write_edit-unchanged op c (final_content disk op c) w w' x keep
          (rw (there, edit_content) at h) q
  ]

  replace-unchanged :
      (op : FileOperation) (w w' : W) (x : OperationError)
      → FailuresKeepFiles disk search_and_replace op w
      → execute_search_and_replace disk op w ≡ (err x, w')
      → AreSameFiles disk w' w
  unfolding execute_search_and_replace AreSameFiles FailuresKeepFiles
  replace-unchanged op w w' x keep h q =
      let call = disk.search_and_replace_in_file op.path op.old_text op.new_text w in
      elim (Bool-cases disk.has_engine) [
        | inr e ↦
            same_state disk laws quiet _ _ (ap (λ y. y.1) (rw (e, execute_search_and_replace) at h))
              q
        | inl e ↦
            let (nothing, last) =
              finish_replace-eq-err disk op (size_of (disk.stat op.path w)) call x w'
                (rw (e, execute_search_and_replace) at h) in
            same_state disk laws quiet _ _ last q ∙ keep nothing q
      ]

  move-unchanged :
      (op : FileOperation) (w w' : W) (x : OperationError)
      → FailuresKeepFiles disk move op w
      → execute_move disk op w ≡ (err x, w')
      → AreSameFiles disk w' w
  unfolding execute_move AreSameFiles FailuresKeepFiles
  move-unchanged op w w' x keep h q =
      elim (with_file-eq-err disk op (disk.stat op.source w) (disk.rename op.source op.destination)
        w x w' h) [
          | inl e ↦ same_state disk laws quiet _ _ e q
          | inr (failing, last) ↦ same_state disk laws quiet _ _ last q ∙ keep failing q
        ]

  copy-unchanged :
      (op : FileOperation) (w w' : W) (x : OperationError)
      → FailuresKeepFiles disk copy op w
      → execute_copy disk op w ≡ (err x, w')
      → AreSameFiles disk w' w
  unfolding execute_copy AreSameFiles FailuresKeepFiles
  copy-unchanged op w w' x keep h q =
      elim (with_file-eq-err disk op (disk.stat op.source w)
        (disk.copy_file op.source op.destination) w x w' h) [
          | inl e ↦ same_state disk laws quiet _ _ e q
          | inr (failing, last) ↦ same_state disk laws quiet _ _ last q ∙ keep failing q
        ]

  delete-unchanged :
      (op : FileOperation) (w w' : W) (x : OperationError)
      → FailuresKeepFiles disk delete op w
      → execute_delete disk op w ≡ (err x, w')
      → AreSameFiles disk w' w
  unfolding execute_delete AreSameFiles FailuresKeepFiles
  delete-unchanged op w w' x keep h q =
      elim (with_file-eq-err disk op (disk.stat op.path w) (disk.remove op.path) w x w' h) [
        | inl e ↦ same_state disk laws quiet _ _ e q
        | inr (failing, last) ↦ same_state disk laws quiet _ _ last q ∙ keep failing q
      ]

  create_dir-unchanged :
      (op : FileOperation) (w w' : W) (x : OperationError)
      → FailuresKeepFiles disk create_dir op w
      → execute_create_dir disk op w ≡ (err x, w')
      → AreSameFiles disk w' w
  unfolding execute_create_dir AreSameFiles FailuresKeepFiles
  create_dir-unchanged op w w' x keep h q =
      let (failing, last) =
        finish-eq-err disk (disk.mkdir_all op.path w) io_error op (pos 0) x w' h in
      same_state disk laws quiet _ _ last q ∙ keep failing q

  -- Behind the hook.
  pub unchanged_type :
      (kind : OperationType) (op : FileOperation) (w w' : W) (x : OperationError)
      → FailuresKeepFiles disk kind op w
      → execute_type disk kind op w ≡ (err x, w')
      → AreSameFiles disk w' w
  unfolding execute_type FailuresKeepFiles
  unchanged_type write op w w' x keep h = write-unchanged op w w' x keep h
  unchanged_type edit op w w' x keep h = edit-unchanged op w w' x keep h
  unchanged_type search_and_replace op w w' x keep h = replace-unchanged op w w' x keep h
  unchanged_type move op w w' x keep h = move-unchanged op w w' x keep h
  unchanged_type copy op w w' x keep h = copy-unchanged op w w' x keep h
  unchanged_type delete op w w' x keep h = delete-unchanged op w w' x keep h
  unchanged_type create_dir op w w' x keep h = create_dir-unchanged op w w' x keep h
  unchanged_type extract op w w' x keep h = keep x w' h
  unchanged_type (other name) op w w' x keep h = same_state disk laws quiet _ _ (ap (λ y. y.1) h)

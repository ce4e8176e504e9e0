-- ===== src/Batch/Rollback.antt =====
-- core/batch_operations.go: undoing an operation that has succeeded.
use mcp_filesystem_go_ultra.Common.{
  ◌≡◌, inl, inr, refl, sym, ap, ◌∙◌, Bool, true, false, not, ◌&&◌, List, [], ◌∷◌, ◌++◌, Option,
  none, some, Bytes, bytes_eq, bytes_eq_refl, eq_of_bytes_eq, Bool-cases, Result, ok, err,
}
use mcp_filesystem_go_ultra.Common.Int.{ℤ}
use mcp_filesystem_go_ultra.Batch.{
  OperationType, write, edit, search_and_replace, move, delete, create_dir, copy, extract, other,
  FileOperation, Disk,
}
use mcp_filesystem_go_ultra.Batch.Operation.{
  execute_operation, execute_type, execute_write, execute_edit, execute_search_and_replace,
  execute_move, execute_copy, execute_delete, execute_create_dir, execute_extract,
}
use mcp_filesystem_go_ultra.Batch.Undo.{
  RollbackData, prepare_rollback, prepare_type, undo, rollback, content_of, is_none,
}
use mcp_filesystem_go_ultra.Batch.Laws.{
  AreSameFiles, DiskLaws, HooksKeepFiles, FailuresKeepFiles, put_back_works,
}
use mcp_filesystem_go_ultra.Batch.Restore.{
  OnlyAt, put_back-reads, restore_one, write-OnlyAt, edit-OnlyAt, replace-OnlyAt, delete-OnlyAt,
  copy-OnlyAt, create_dir-OnlyAt, move-reads, extract-reads,
}

abbrev pub is_ok : {E A : Type 0} → Result E A → Bool
is_ok (ok a) = true
is_ok (err e) = false

none_of : (o : Option Bytes) → is_none o ≡ true → o ≡ none
none_of none h = refl
none_of (some c) h = absurd (cc h)

some_of : (o : Option Bytes) → not (is_none o) ≡ true → (c : Bytes) × (o ≡ some c)
some_of none h = absurd (cc h)
some_of (some c) h = (c, refl)

pub and_of : (a b : Bool) → (a && b) ≡ true → (a ≡ true) × (b ≡ true)
and_of true b h = (refl, h)
and_of false b h = absurd (cc h)

module _ {W : Type 0} (disk : Disk W) where
  -- What the rollback of an operation relies on, in the state in which the operation starts: the
  -- destination of a move or a copy is no file yet, and what is moved or deleted is a file.
  abbrev pub undoable_type : OperationType → FileOperation → W → Bool
  undoable_type move op w =
      not (is_none (disk.read_file op.source w)) && is_none (disk.read_file op.destination w)
  undoable_type copy op w = is_none (disk.read_file op.destination w)
  undoable_type delete op w = not (is_none (disk.read_file op.path w))
  undoable_type other_type op w = true

  -- The calls of the rollback succeed: of one operation, and of all in their order.
  abbrev pub undo_type_works : OperationType → RollbackData → W → Bool
  undo_type_works write rb w = put_back_works disk rb.was_created rb.original_path rb.content w
  undo_type_works edit rb w = put_back_works disk rb.was_created rb.original_path rb.content w
  undo_type_works search_and_replace rb w =
      put_back_works disk rb.was_created rb.original_path rb.content w
  undo_type_works move rb w = (disk.rename rb.backup_path rb.original_path w).0
  undo_type_works copy rb w = (disk.remove rb.original_path w).0
  undo_type_works delete rb w = (disk.write_file rb.original_path rb.content w).0
  undo_type_works create_dir rb w = (disk.remove rb.original_path w).0
  undo_type_works extract rb w =
      (disk.write_file rb.original_path rb.content w).0
      && put_back_works disk rb.second_was_created rb.second_path rb.second_content
          (disk.write_file rb.original_path rb.content w).1
  undo_type_works (other name) rb w = true

  unfoldable pub undo_works : RollbackData → W → Bool
  undo_works rb w = undo_type_works rb.operation_type rb w

  unfoldable pub rollback_works : List RollbackData → W → Bool
  rollback_works [] w = true
  rollback_works (rb ∷ info) w = rollback_works info w && undo_works rb (rollback disk info w)

  -- Each operation that is started and succeeds can be undone; in the one that fails, the
  -- failing call changes no file, and the calls of the rollback that follows succeed.
  unfoldable pub AreUndoable : List FileOperation → List RollbackData → W → Type 0
  AreUndoable [] info w = Unit
  AreUndoable (op ∷ ops) info w =
      (is_ok (execute_operation disk op w).0 ≡ true
        → (undoable_type op.type op w ≡ true)
          × AreUndoable ops (info ++ prepare_rollback disk op w ∷ [])
              (execute_operation disk op w).1)
      × (is_ok (execute_operation disk op w).0 ≡ false
          → FailuresKeepFiles disk op.type op (disk.pre_hook op w).1
            × (rollback_works info (execute_operation disk op w).1 ≡ true))

module _ {W : Type 0} (disk : Disk W) (laws : DiskLaws disk) (quiet : HooksKeepFiles disk) where
  -- Undoing an operation that has run from `w` to `w'`, in a state with the files of `w'`.
  unfoldable pub Undoes : OperationType → FileOperation → W → W → Type 0
  Undoes kind op w w' =
      (x : W)
      → AreSameFiles disk x w'
      → undo_works disk (prepare_type disk kind op w) x ≡ true
      → AreSameFiles disk (undo disk (prepare_type disk kind op w) x) w

  -- A file that was read is put back by writing it.
  put_file :
      (p c : Bytes) (w w' : W)
      → OnlyAt disk laws quiet p w w'
      → disk.read_file p w ≡ some c
      → (x : W) → AreSameFiles disk x w'
      → (disk.write_file p (content_of (disk.read_file p w)) x).0 ≡ true
      → AreSameFiles disk (disk.write_file p (content_of (disk.read_file p w)) x).1 w
  put_file p c w w' only there x same works =
      restore_one disk laws quiet p w w' x _ only same
        (λ q. laws.write_reads p (content_of (disk.read_file p w)) x works q ∙ rw there refl)

  Undoes-write :
      (op : FileOperation) (w w' : W) (b : ℤ)
      → execute_write disk op w ≡ (ok b, w')
      → Undoes write op w w'
  unfolding Undoes undo undo_works
  Undoes-write op w w' b h x same works =
      restore_one disk laws quiet op.path w w' x _ (write-OnlyAt disk laws quiet op w w' b h) same
        (put_back-reads disk laws quiet op.path (disk.read_file op.path w) x works)

  Undoes-copy :
      (op : FileOperation) (w w' : W) (b : ℤ)
      → is_none (disk.read_file op.destination w) ≡ true
      → execute_copy disk op w ≡ (ok b, w')
      → Undoes copy op w w'
  unfolding Undoes undo undo_works
  Undoes-copy op w w' b fresh h x same works =
      restore_one disk laws quiet op.destination w w' x _ (copy-OnlyAt disk laws quiet op w w' b h)
        same
        (λ q.
          laws.remove_reads op.destination x works q
          ∙ rw (none_of (disk.read_file op.destination w) fresh) refl)

  Undoes-create_dir :
      (op : FileOperation) (w w' : W) (b : ℤ)
      → execute_create_dir disk op w ≡ (ok b, w')
      → Undoes create_dir op w w'
  unfolding Undoes undo undo_works
  Undoes-create_dir op w w' b h x same works =
      let (only, fresh) = create_dir-OnlyAt disk laws quiet op w w' b h in
      restore_one disk laws quiet op.path w w' x _ only same
        (λ q. laws.remove_reads op.path x works q ∙ rw fresh refl)

  Undoes-delete :
      (op : FileOperation) (w w' : W) (b : ℤ)
      → not (is_none (disk.read_file op.path w)) ≡ true
      → execute_delete disk op w ≡ (ok b, w')
      → Undoes delete op w w'
  unfolding Undoes undo undo_works
  Undoes-delete op w w' b file h x same works =
      let (c, there) = some_of (disk.read_file op.path w) file in
      put_file op.path c w w' (delete-OnlyAt disk laws quiet op w w' b h) there x same works

  Undoes-move :
      (op : FileOperation) (w w' : W) (b : ℤ)
      → (not (is_none (disk.read_file op.source w)) && is_none (disk.read_file op.destination w))
        ≡ true
      → execute_move disk op w ≡ (ok b, w')
      → Undoes move op w w'
  unfolding Undoes undo undo_works AreSameFiles
  Undoes-move op w w' b both h x same works q =
      let (file, free) = and_of _ _ both in
      let (c, there) = some_of (disk.read_file op.source w) file in
      let fresh = none_of (disk.read_file op.destination w) free in
      let moved = move-reads disk laws quiet op w w' b c h there fresh in
      let apart : bytes_eq op.destination op.source ≡ false =
        elim (Bool-cases (bytes_eq op.destination op.source)) [
          | inr e ↦ e
          | inl e ↦ absurd (
              cc (
                there,
                fresh,
                ap (λ p. disk.read_file p w) (eq_of_bytes_eq op.destination op.source e),
              ))
        ] in
      let gone : disk.read_file op.source x ≡ none =
        same op.source ∙ moved op.source ∙ rw (apart, bytes_eq_refl op.source) refl in
      let at_destination : disk.read_file op.destination x ≡ some c =
        same op.destination ∙ moved op.destination ∙ rw (bytes_eq_refl op.destination) refl in
      laws.rename_reads op.destination op.source c x at_destination gone works q
      ∙ elim (Bool-cases (bytes_eq op.source q)) [
        | inl e ↦ rw e (sym there ∙ ap (λ p. disk.read_file p w) (eq_of_bytes_eq op.source q e))
        | inr e ↦ elim (Bool-cases (bytes_eq op.destination q)) [
          | inl f ↦
              rw (e, f)
                (sym fresh ∙ ap (λ p. disk.read_file p w) (eq_of_bytes_eq op.destination q f))
          | inr f ↦ rw (e, f) (same q ∙ moved q ∙ rw (e, f) refl)
        ]
      ]

  Undoes-extract :
      (op : FileOperation) (w w' : W) (b : ℤ)
      → execute_extract disk op w ≡ (ok b, w')
      → Undoes extract op w w'
  unfolding Undoes undo undo_works AreSameFiles
  Undoes-extract op w w' b h x same works q =
      let ((c, there), others) = extract-reads disk laws quiet op w w' b h in
      let source_back = (disk.write_file op.source (content_of (disk.read_file op.source w)) x).1 in
      let (wrote, put) = and_of _ _ works in
      put_back-reads disk laws quiet op.destination (disk.read_file op.destination w) source_back
        put q
      ∙ elim (Bool-cases (bytes_eq op.destination q)) [
        | inl e ↦ rw e (ap (λ p. disk.read_file p w) (eq_of_bytes_eq op.destination q e))
        | inr e ↦ elim (Bool-cases (bytes_eq op.source q)) [
          | inl f ↦ rw e (
              laws.write_reads op.source _ x wrote q
              ∙ rw (f, there)
                  (sym there ∙ ap (λ p. disk.read_file p w) (eq_of_bytes_eq op.source q f)))
          | inr f ↦ rw e (laws.write_reads op.source _ x wrote q ∙ rw f (same q ∙ others q f e))
        ]
      ]

  Undoes-edit :
      (op : FileOperation) (w w' : W) (b : ℤ)
      → execute_edit disk op w ≡ (ok b, w')
      → Undoes edit op w w'
  unfolding Undoes undo undo_works
  Undoes-edit op w w' b h x same works =
      let (only, (c, there)) = edit-OnlyAt disk laws quiet op w w' b h in
      put_file op.path c w w' only there x same works

  Undoes-replace :
      (op : FileOperation) (w w' : W) (b : ℤ)
      → execute_search_and_replace disk op w ≡ (ok b, w')
      → Undoes search_and_replace op w w'
  unfolding Undoes undo undo_works
  Undoes-replace op w w' b h x same works =
      let (only, (c, there)) = replace-OnlyAt disk laws quiet op w w' b h in
      put_file op.path c w w' only there x same works

  -- Behind the hook.
  pub Undoes-type :
      (kind : OperationType) (op : FileOperation) (w w' : W) (b : ℤ)
      → undoable_type disk kind op w ≡ true
      → execute_type disk kind op w ≡ (ok b, w')
      → Undoes kind op w w'
  unfolding execute_type
  Undoes-type write op w w' b good h = Undoes-write op w w' b h
  Undoes-type edit op w w' b good h = Undoes-edit op w w' b h
  Undoes-type search_and_replace op w w' b good h = Undoes-replace op w w' b h
  Undoes-type move op w w' b good h = Undoes-move op w w' b good h
  Undoes-type copy op w w' b good h = Undoes-copy op w w' b good h
  Undoes-type delete op w w' b good h = Undoes-delete op w w' b good h
  Undoes-type create_dir op w w' b good h = Undoes-create_dir op w w' b h
  Undoes-type extract op w w' b good h = Undoes-extract op w w' b h
  Undoes-type (other name) op w w' b good h = absurd (cc h)

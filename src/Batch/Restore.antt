-- ===== src/Batch/Restore.antt =====
-- core/batch_operations.go: what the operations and their undoing do to the files, on a disk that
-- keeps the laws of Laws.
use mcp_filesystem_go_ultra.Common.{
  ◌≡◌, inl, inr, refl, sym, ap, ◌∙◌, true, false, Option, none, some, Bytes, bytes_eq,
  eq_of_bytes_eq, length, if◌then◌else◌, Bool-cases, Option-cases, ok,
}
use mcp_filesystem_go_ultra.Common.Int.{ℤ, pos, ◌-ℤ◌}
use mcp_filesystem_go_ultra.LineRange.{compute_line_range_deletion}
use mcp_filesystem_go_ultra.Batch.{FileOperation, io_error, Disk}
use mcp_filesystem_go_ultra.Batch.Operation.{
  Outcome, then_on, execute_write, execute_edit, execute_search_and_replace, execute_move,
  execute_copy, execute_delete, execute_create_dir, execute_extract, extract_to, extract_lines,
  edit_content, write_edit, extract_content, forget_reads, finish, size_of, final_content,
}
use mcp_filesystem_go_ultra.Batch.Undo.{put_back, content_of, is_none}
use mcp_filesystem_go_ultra.Batch.Laws.{
  AreSameFiles, DiskLaws, HooksKeepFiles, put_back_works, then_on-eq-ok, Result-cases, finish-eq-ok,
  with_file-eq-ok, finish_replace-eq-ok,
}

module _ {W : Type 0} (disk : Disk W) (laws : DiskLaws disk) (quiet : HooksKeepFiles disk) where
  -- Nothing but the file `p` is changed.
  unfoldable pub OnlyAt : Bytes → W → W → Type 0
  OnlyAt p w w' = (q : Bytes) → bytes_eq p q ≡ false → disk.read_file q w' ≡ disk.read_file q w

  -- The file put back is read as it was, and the others as they are.
  pub put_back-reads :
      (p : Bytes) (v : Option Bytes) (w : W)
      → put_back_works disk (is_none v) p (content_of v) w ≡ true
      → (q : Bytes)
      → disk.read_file q (put_back disk (is_none v) p (content_of v) w)
        ≡ (if bytes_eq p q then v else disk.read_file q w)
  put_back-reads p none w works q = laws.remove_reads p w works q
  put_back-reads p (some c) w works q = laws.write_reads p c w works q

  -- Where one file was changed and is put back, all files are as they were.
  pub restore_one :
      (p : Bytes) (w w' t u : W)
      → OnlyAt p w w'
      → AreSameFiles disk t w'
      → ((q : Bytes)
          → disk.read_file q u ≡ (if bytes_eq p q then disk.read_file p w else disk.read_file q t))
      → AreSameFiles disk u w
  unfolding OnlyAt AreSameFiles
  restore_one p w w' t u only same put q = elim (Bool-cases (bytes_eq p q)) [
    | inl e ↦ put q ∙ rw e (ap (λ x. disk.read_file x w) (eq_of_bytes_eq p q e))
    | inr e ↦ put q ∙ rw e (same q ∙ only q e)
  ]

  -- An equal state has the same files.
  pub same_state : (v w : W) → v ≡ w → AreSameFiles disk w v
  unfolding AreSameFiles
  same_state v w e q = ap (λ x. disk.read_file q x) (sym e)

  -- The hook behind an operation changes no file.
  OnlyAt-hook :
      (op : FileOperation) (p : Bytes) (w v w' : W)
      → OnlyAt p w v
      → disk.post_hook op v ≡ w'
      → OnlyAt p w w'
  unfolding OnlyAt AreSameFiles
  OnlyAt-hook op p w v w' only last q apart =
      same_state _ _ last q ∙ quiet.post_hook_reads op v q ∙ only q apart

  pub write-OnlyAt :
      (op : FileOperation) (w w' : W) (b : ℤ)
      → execute_write disk op w ≡ (ok b, w')
      → OnlyAt op.path w w'
  unfolding execute_write OnlyAt
  write-OnlyAt op w w' b h =
      let call = disk.atomic_write_file op.path op.content w in
      let (wrote, last) = finish-eq-ok disk call io_error op (pos (length op.content)) b w' h in
      OnlyAt-hook op op.path w call.1 w' (laws.atomic_write_others op.path op.content w wrote) last

  write_edit-OnlyAt :
      (op : FileOperation) (s : Bytes) (o : Option Bytes) (w w' : W) (b : ℤ)
      → write_edit disk op s o w ≡ (ok b, w')
      → OnlyAt op.path w w'
  unfolding write_edit OnlyAt
  write_edit-OnlyAt op s none w w' b h = absurd (cc h)
  write_edit-OnlyAt op s (some final) w w' b h =
      let call = disk.write_file op.path final w in
      let op' : FileOperation = record op { content = final } in
      let (wrote, last) =
        finish-eq-ok disk call io_error op' (pos (length final) -ℤ pos (length s)) b w' h in
      OnlyAt-hook op' op.path w call.1 w'
        (λ q apart. laws.write_reads op.path final w wrote q ∙ rw apart refl) last

  -- An edit that succeeds has read the file.
  pub edit-OnlyAt :
      (op : FileOperation) (w w' : W) (b : ℤ)
      → execute_edit disk op w ≡ (ok b, w')
      → OnlyAt op.path w w' × ((c : Bytes) × (disk.read_file op.path w ≡ some c))
  unfolding execute_edit edit_content
  edit-OnlyAt op w w' b h = elim (Option-cases (disk.read_file op.path w)) [
    | inl gone ↦ absurd (cc (rw (gone, edit_content) at h))
    | inr (c, there) ↦ (
      write_edit-OnlyAt op c (final_content disk op c) w w' b (rw (there, edit_content) at h),
      (c, there),
    )
  ]

  pub replace-OnlyAt :
      (op : FileOperation) (w w' : W) (b : ℤ)
      → execute_search_and_replace disk op w ≡ (ok b, w')
      → OnlyAt op.path w w' × ((c : Bytes) × (disk.read_file op.path w ≡ some c))
  unfolding execute_search_and_replace OnlyAt
  replace-OnlyAt op w w' b h =
      let call = disk.search_and_replace_in_file op.path op.old_text op.new_text w in
      elim (Bool-cases disk.has_engine) [
        | inr e ↦ absurd (cc (rw (e, execute_search_and_replace) at h))
        | inl e ↦
            let (n, times, last) =
              finish_replace-eq-ok disk op (size_of (disk.stat op.path w)) call b w'
                (rw (e, execute_search_and_replace) at h) in
            let (there, others) = laws.replace_reads op.path op.old_text op.new_text w n times in
            (OnlyAt-hook op op.path w call.1 w' others last, there)
      ]

  pub delete-OnlyAt :
      (op : FileOperation) (w w' : W) (b : ℤ)
      → execute_delete disk op w ≡ (ok b, w')
      → OnlyAt op.path w w'
  unfolding execute_delete OnlyAt
  delete-OnlyAt op w w' b h =
      let (called, last) =
        with_file-eq-ok disk op (disk.stat op.path w) (disk.remove op.path) w b w' h in
      OnlyAt-hook op op.path w (disk.remove op.path w).1 w'
        (λ q apart. laws.remove_reads op.path w called q ∙ rw apart refl) last

  pub copy-OnlyAt :
      (op : FileOperation) (w w' : W) (b : ℤ)
      → execute_copy disk op w ≡ (ok b, w')
      → OnlyAt op.destination w w'
  unfolding execute_copy OnlyAt
  copy-OnlyAt op w w' b h =
      let call = disk.copy_file op.source op.destination in
      let (called, last) = with_file-eq-ok disk op (disk.stat op.source w) call w b w' h in
      OnlyAt-hook op op.destination w (call w).1 w'
        (laws.copy_others op.source op.destination w called) last

  -- The new directory is at a path where there was no file.
  pub create_dir-OnlyAt :
      (op : FileOperation) (w w' : W) (b : ℤ)
      → execute_create_dir disk op w ≡ (ok b, w')
      → OnlyAt op.path w w' × (disk.read_file op.path w ≡ none)
  unfolding execute_create_dir OnlyAt AreSameFiles
  create_dir-OnlyAt op w w' b h =
      let call = disk.mkdir_all op.path w in
      let (made, last) = finish-eq-ok disk call io_error op (pos 0) b w' h in
      let (same, fresh) = laws.mkdir_reads op.path w made in
      (OnlyAt-hook op op.path w call.1 w' (λ q apart. same q) last, fresh)

  -- Where the source is a file, a move takes it to the destination.
  pub move-reads :
      (op : FileOperation) (w w' : W) (b : ℤ) (c : Bytes)
      → execute_move disk op w ≡ (ok b, w')
      → disk.read_file op.source w ≡ some c
      → disk.read_file op.destination w ≡ none
      → (q : Bytes)
      → disk.read_file q w' ≡ (
          if bytes_eq op.destination q
          then some c
          else if bytes_eq op.source q
          then none
          else disk.read_file q w)
  unfolding execute_move AreSameFiles
  move-reads op w w' b c h there fresh q =
      let call = disk.rename op.source op.destination in
      let (called, last) = with_file-eq-ok disk op (disk.stat op.source w) call w b w' h in
      same_state _ _ last q
      ∙ quiet.post_hook_reads op (call w).1 q
      ∙ laws.rename_reads op.source op.destination c w there fresh called q

  forget_reads-AreSameFiles :
      (op : FileOperation) (w : W) → AreSameFiles disk (forget_reads disk op w) w
  unfolding AreSameFiles
  forget_reads-AreSameFiles op w q = elim (Bool-cases disk.has_engine) [
    | inl e ↦ rw e (laws.cache_reads op.destination _ q ∙ laws.cache_reads op.source w q)
    | inr e ↦ rw e refl
  ]

  extract_to-reads :
      (op : FileOperation) (removed remaining : Bytes) (w w' : W) (b : ℤ) (q : Bytes)
      → extract_to disk op removed remaining w ≡ (ok b, w')
      → bytes_eq op.source q ≡ false
      → bytes_eq op.destination q ≡ false
      → disk.read_file q w' ≡ disk.read_file q w
  unfolding extract_to AreSameFiles
  extract_to-reads op removed remaining w w' b q h not_source not_destination =
      let d = extract_content disk op removed w in
      let first = disk.atomic_write_file op.destination d w in
      let second = disk.atomic_write_file op.source remaining first.1 in
      let done_with : W → Outcome W =
        λ v. finish disk op (pos (length removed)) (forget_reads disk op v) in
      let (wrote, h1) =
        then_on-eq-ok first io_error
          (λ v. then_on (disk.atomic_write_file op.source remaining v) io_error done_with) b w' h in
      let (cut, h2) = then_on-eq-ok second io_error done_with b w' h1 in
      same_state _ _ (ap (λ y. y.1) h2) q
      ∙ quiet.post_hook_reads op (forget_reads disk op second.1) q
      ∙ forget_reads-AreSameFiles op second.1 q
      ∙ laws.atomic_write_others op.source remaining first.1 cut q not_source
      ∙ laws.atomic_write_others op.destination d w wrote q not_destination

  -- An extraction that succeeds has read the source, and changes the two files only.
  pub extract-reads :
      (op : FileOperation) (w w' : W) (b : ℤ)
      → execute_extract disk op w ≡ (ok b, w')
      → ((c : Bytes) × (disk.read_file op.source w ≡ some c))
        × ((q : Bytes)
            → bytes_eq op.source q ≡ false
            → bytes_eq op.destination q ≡ false
            → disk.read_file q w' ≡ disk.read_file q w)
  unfolding execute_extract extract_lines
  extract-reads op w w' b h = elim (Option-cases (disk.read_file op.source w)) [
    | inl gone ↦ absurd (cc (rw (gone, extract_lines) at h))
    | inr (c, there) ↦ (
      (c, there),
      λ q not_source not_destination.
          elim (Result-cases (compute_line_range_deletion c op.start_line op.end_line)) [
            | inl (e, refused) ↦ absurd (cc (rw (there, extract_lines, refused) at h))
            | inr ((removed, remaining), cut) ↦
                extract_to-reads op removed remaining w w' b q (rw (there, extract_lines, cut) at h)
                  not_source not_destination
          ],
    )
  ]

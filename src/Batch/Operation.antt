-- ===== src/Batch/Operation.antt =====
-- core/batch_operations.go: `executeOperation` and the operations. Each begins with its hook, which
-- is called in `execute_operation` here, and is modelled from there on. `executeEdit` gives the
-- replacement a round for each byte and one more.
use mcp_filesystem_go_ultra.Common.{
  ℕ, zero, suc, ◌+◌, Bool, true, false, ◌++◌, Option, none, some, Bytes, bytes_eq, length, ◌==◌,
  if◌then◌else◌, Result, ok, err,
}
use mcp_filesystem_go_ultra.Common.{take, drop}
use mcp_filesystem_go_ultra.Common.Int.{ℤ, pos, ◌-ℤ◌, ◌*ℤ◌}
use mcp_filesystem_go_ultra.Common.Search.{index_of}
use mcp_filesystem_go_ultra.LineRange.{compute_line_range_deletion}
use mcp_filesystem_go_ultra.Edit.{EditResult, EditError}
use mcp_filesystem_go_ultra.Edit.Cascade.{perform_intelligent_edit}
use mcp_filesystem_go_ultra.Batch.{
  OperationType, write, edit, search_and_replace, move, delete, create_dir, copy, extract, other,
  FileOperation, OperationError, denied_by_hook, io_error, range_error, text_not_found,
  engine_required, unknown_operation, Stat, found, missing, unreadable, Disk,
}

-- The bytes affected or the error, and the state left.
abbrev pub Outcome : Type 0 → Type 0
Outcome W = Result OperationError ℤ × W

-- `if err != nil { return err }`
abbrev pub then_on : {W : Type 0} → Bool × W → OperationError → (W → Outcome W) → Outcome W
then_on (true, w) e next = next w
then_on (false, w) e next = (err e, w)

-- `strings.Replace(s, old, new, 1)`
unfoldable pub replace_first : Bytes → Bytes → Bytes → Bytes
unfolding index_of
replace_first s old new = elim (index_of s old) [
  | none ↦ s
  | some i ↦ take i s ++ (new ++ drop (i + length old) s)
]

-- The size of a file, 0 where it cannot be asked.
abbrev pub size_of : Stat → ℕ
size_of (found size) = size
size_of missing = 0
size_of unreadable = 0

abbrev pub is_known : OperationType → Bool
is_known (other name) = false
is_known known_type = true

module _ {W : Type 0} (disk : Disk W) where
  -- What an operation ends with: the bytes affected, and the hook behind it.
  abbrev pub finish : FileOperation → ℤ → W → Outcome W
  finish op bytes w = (ok bytes, disk.post_hook op w)

  unfoldable pub execute_write : FileOperation → W → Outcome W
  execute_write op w =
      then_on (disk.atomic_write_file op.path op.content w) io_error
        (finish op (pos (length op.content)))

  -- What `executeExtract` writes to the destination.
  abbrev pub extract_content : FileOperation → Bytes → W → Bytes
  extract_content op removed w =
      if op.append
      then elim (disk.read_file op.destination w) [
        | none ↦ removed
        | some existing ↦ existing ++ removed
      ]
      else removed

  -- The engine forgets what it has cached of the two files.
  abbrev pub forget_reads : FileOperation → W → W
  forget_reads op w =
      if disk.has_engine
      then disk.invalidate_file_read_cache op.destination
          (disk.invalidate_file_read_cache op.source w)
      else w

  unfoldable pub extract_to : FileOperation → Bytes → Bytes → W → Outcome W
  extract_to op removed remaining w =
      then_on (disk.atomic_write_file op.destination (extract_content op removed w) w) io_error
        (λ w1.
          then_on (disk.atomic_write_file op.source remaining w1) io_error
            (λ w2. finish op (pos (length removed)) (forget_reads op w2)))

  unfoldable pub extract_lines : FileOperation → Option Bytes → W → Outcome W
  unfolding compute_line_range_deletion extract_to
  extract_lines op none w = (err io_error, w)
  extract_lines op (some src) w = elim (compute_line_range_deletion src op.start_line op.end_line) [
    | err e ↦ (err (range_error e), w)
    | ok (removed, remaining) ↦ extract_to op removed remaining w
  ]

  unfoldable pub execute_extract : FileOperation → W → Outcome W
  unfolding extract_lines
  execute_extract op w = extract_lines op (disk.read_file op.source w) w

  -- The text after `performIntelligentEdit`, if it has found the old text.
  abbrev pub edited_text : Result EditError EditResult → Option Bytes
  edited_text (ok r) = if r.replacement_count == 0 then none else some r.modified_content
  edited_text (err e) = none

  -- The text that `executeEdit` writes, with the engine or without.
  unfoldable pub final_content : FileOperation → Bytes → Option Bytes
  unfolding perform_intelligent_edit replace_first
  final_content op original =
      let once = replace_first original op.old_text op.new_text in
      if disk.has_engine
      then edited_text (
          perform_intelligent_edit disk.library (length original + 1) original op.old_text
            op.new_text false)
      else if bytes_eq once original
      then none
      else some once

  unfoldable pub write_edit : FileOperation → Bytes → Option Bytes → W → Outcome W
  write_edit op original none w = (err text_not_found, w)
  write_edit op original (some final) w =
      then_on (disk.write_file op.path final w) io_error
        (finish (record op { content = final }) (pos (length final) -ℤ pos (length original)))

  unfoldable pub edit_content : FileOperation → Option Bytes → W → Outcome W
  unfolding final_content write_edit
  edit_content op none w = (err io_error, w)
  edit_content op (some original) w = write_edit op original (final_content op original) w

  unfoldable pub execute_edit : FileOperation → W → Outcome W
  unfolding edit_content
  execute_edit op w = edit_content op (disk.read_file op.path w) w

  -- The size after the replacement, or the estimate where it cannot be asked.
  abbrev pub replaced_bytes : FileOperation → ℕ → ℕ → Stat → ℤ
  replaced_bytes op count before (found size) = pos size -ℤ pos before
  replaced_bytes op count before other_stat =
      pos count *ℤ (pos (length op.new_text) -ℤ pos (length op.old_text))

  unfoldable pub finish_replace : FileOperation → ℕ → Option ℕ × W → Outcome W
  finish_replace op before (none, w) = (err io_error, w)
  finish_replace op before (some zero, w) = (err text_not_found, w)
  finish_replace op before (some (suc n), w) =
      finish op (replaced_bytes op (suc n) before (disk.stat op.path w)) w

  unfoldable pub execute_search_and_replace : FileOperation → W → Outcome W
  unfolding finish_replace
  execute_search_and_replace op w =
      if disk.has_engine
      then finish_replace op (size_of (disk.stat op.path w))
          (disk.search_and_replace_in_file op.path op.old_text op.new_text w)
      else (err engine_required, w)

  -- What move, copy and delete share: the file is asked for, then the call is made.
  abbrev pub with_file : FileOperation → Stat → (W → Bool × W) → W → Outcome W
  with_file op (found size) call w = then_on (call w) io_error (finish op (pos size))
  with_file op missing call w = (err io_error, w)
  with_file op unreadable call w = (err io_error, w)

  unfoldable pub execute_move : FileOperation → W → Outcome W
  execute_move op w = with_file op (disk.stat op.source w) (disk.rename op.source op.destination) w

  unfoldable pub execute_copy : FileOperation → W → Outcome W
  execute_copy op w =
      with_file op (disk.stat op.source w) (disk.copy_file op.source op.destination) w

  unfoldable pub execute_delete : FileOperation → W → Outcome W
  execute_delete op w = with_file op (disk.stat op.path w) (disk.remove op.path) w

  unfoldable pub execute_create_dir : FileOperation → W → Outcome W
  execute_create_dir op w = then_on (disk.mkdir_all op.path w) io_error (finish op (pos 0))

  unfoldable pub execute_type : OperationType → FileOperation → W → Outcome W
  unfolding execute_write execute_edit execute_search_and_replace execute_move execute_copy
      execute_delete execute_create_dir execute_extract
  execute_type write = execute_write
  execute_type edit = execute_edit
  execute_type search_and_replace = execute_search_and_replace
  execute_type move = execute_move
  execute_type copy = execute_copy
  execute_type delete = execute_delete
  execute_type create_dir = execute_create_dir
  execute_type extract = execute_extract
  execute_type (other name) = λ op w. (err (unknown_operation name), w)

  -- `executeOperation`: the hook before it, and the operation; a type that is not known has none.
  unfoldable pub execute_operation : FileOperation → W → Outcome W
  unfolding execute_type
  execute_operation op w =
      if is_known op.type
      then then_on (disk.pre_hook op w) denied_by_hook (execute_type op.type op)
      else execute_type op.type op w

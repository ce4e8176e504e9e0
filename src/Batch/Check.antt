-- ===== src/Batch/Check.antt =====
-- core/batch_operations.go: `collectPaths` and `validateOperations`. The paths that an earlier
-- operation brings about are a list; `os.Stat` is asked of the disk as it is before the batch.
use mcp_filesystem_go_ultra.Common.{
  ℕ, ◌+◌, Bool, true, false, not, ◌&&◌, ◌||◌, List, [], ◌∷◌, ◌++◌, map, Bytes, bytes_eq, is_empty,
  if◌then◌else◌,
}
use mcp_filesystem_go_ultra.Common.Int.{pos, ltb_ℤ}
use mcp_filesystem_go_ultra.Batch.{
  OperationType, write, edit, search_and_replace, move, delete, create_dir, copy, extract, other,
  FileOperation, Issue, access_denied, root_protected, path_required, parent_missing, text_required,
  pattern_required, file_missing, ends_required, destination_exists, directory_exists,
  lines_required, unknown_type, BatchError, invalid, Stat, found, missing, unreadable, Disk,
}

abbrev pub paths_of_type : OperationType → FileOperation → List Bytes
paths_of_type move op = op.source ∷ op.destination ∷ []
paths_of_type copy op = op.source ∷ op.destination ∷ []
paths_of_type extract op = op.source ∷ op.destination ∷ []
paths_of_type other_type op = op.path ∷ []

-- `collectPaths`
unfoldable pub collect_paths : FileOperation → List Bytes
collect_paths op = paths_of_type op.type op

abbrev pub has_path : Bytes → List Bytes → Bool
has_path p [] = false
has_path p (q ∷ paths) = bytes_eq q p || has_path p paths

-- `delete(pendingPaths, p)`
abbrev pub without_path : Bytes → List Bytes → List Bytes
without_path p [] = []
without_path p (q ∷ paths) = if bytes_eq q p then without_path p paths else q ∷ without_path p paths

-- One error, if the condition holds.
abbrev pub issue_if : Bool → Issue → List Issue
issue_if true x = x ∷ []
issue_if false x = []

abbrev pub is_missing : Stat → Bool
is_missing missing = true
is_missing (found size) = false
is_missing unreadable = false

abbrev pub is_found : Stat → Bool
is_found (found size) = true
is_found missing = false
is_found unreadable = false

module _ {W : Type 0} (disk : Disk W) where
  -- The loop over the paths of an operation.
  unfoldable pub denied_paths : List Bytes → List Issue
  denied_paths [] = []
  denied_paths (p ∷ paths) =
      issue_if (not (is_empty p) && not (disk.is_path_allowed p)) (access_denied p)
      ++ denied_paths paths

  -- The target that a destructive operation takes away.
  abbrev pub root_issues : OperationType → FileOperation → List Issue
  root_issues delete op =
      issue_if (not (is_empty op.path) && disk.is_allowed_path_root op.path)
        (root_protected op.path)
  root_issues move op =
      issue_if (not (is_empty op.source) && disk.is_allowed_path_root op.source)
        (root_protected op.source)
  root_issues other_type op = []

  unfoldable pub access_issues : FileOperation → List Issue
  unfolding denied_paths collect_paths
  access_issues op =
      if disk.has_engine && disk.restricted
      then denied_paths (collect_paths op) ++ root_issues op.type op
      else []

  -- Missing on disk, and no earlier operation brings it about.
  abbrev pub is_absent : Bytes → List Bytes → W → Bool
  is_absent p pending w = is_missing (disk.stat p w) && not (has_path p pending)

  -- The `switch`: the errors of an operation, and the pending paths behind it.
  unfoldable pub type_issues :
      OperationType → FileOperation → List Bytes → W → List Issue × List Bytes
  type_issues write op pending w = (
    issue_if (is_empty op.path) path_required
        ++ issue_if (is_absent (disk.dir op.path) pending w) (parent_missing (disk.dir op.path)),
    op.path ∷ pending,
  )
  type_issues edit op pending w = (
    issue_if (is_empty op.path) path_required
        ++ (issue_if (is_empty op.old_text && is_empty op.new_text) text_required
            ++ issue_if (is_absent op.path pending w) (file_missing op.path)),
    pending,
  )
  type_issues search_and_replace op pending w = (
    issue_if (is_empty op.path) path_required
        ++ (issue_if (is_empty op.old_text) pattern_required
            ++ issue_if (is_absent op.path pending w) (file_missing op.path)),
    pending,
  )
  type_issues move op pending w = (
    issue_if (is_empty op.source || is_empty op.destination) ends_required
        ++ (issue_if (is_absent op.source pending w) (file_missing op.source)
            ++ issue_if
                (is_found (disk.stat op.destination w) && not (has_path op.destination pending))
                (destination_exists op.destination)),
    without_path op.source (op.destination ∷ pending),
  )
  type_issues copy op pending w = (
    issue_if (is_empty op.source || is_empty op.destination) ends_required
        ++ issue_if (is_absent op.source pending w) (file_missing op.source),
    op.destination ∷ pending,
  )
  type_issues delete op pending w = (
    issue_if (is_empty op.path) path_required
        ++ issue_if (is_absent op.path pending w) (file_missing op.path),
    without_path op.path pending,
  )
  type_issues create_dir op pending w = (
    issue_if (is_empty op.path) path_required
        ++ issue_if (is_found (disk.stat op.path w)) (directory_exists op.path),
    op.path ∷ pending,
  )
  type_issues extract op pending w = (
    issue_if (is_empty op.source || is_empty op.destination) ends_required
        ++ (issue_if (ltb_ℤ op.start_line (pos 1) || ltb_ℤ op.end_line op.start_line) lines_required
            ++ issue_if (is_absent op.source pending w) (file_missing op.source)),
    op.destination ∷ pending,
  )
  type_issues (other name) op pending w = (unknown_type name ∷ [], pending)

  -- The loop, from operation `i` on.
  unfoldable pub validate_from : ℕ → List FileOperation → List Bytes → W → List BatchError
  unfolding access_issues type_issues
  validate_from i [] pending w = []
  validate_from i (op ∷ ops) pending w =
      let (issues, later) = type_issues op.type op pending w in
      map (invalid i) (access_issues op ++ issues) ++ validate_from (i + 1) ops later w

  -- `validateOperations`
  unfoldable pub validate_operations : List FileOperation → W → List BatchError
  unfolding validate_from
  validate_operations ops w = validate_from 0 ops [] w

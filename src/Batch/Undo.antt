-- ===== src/Batch/Undo.antt =====
-- core/batch_operations.go: `rollbackData`, `prepareRollback` and `rollback`.
use mcp_filesystem_go_ultra.Common.{Bool, true, false, List, [], ◌∷◌, Option, none, some, Bytes}
use mcp_filesystem_go_ultra.Batch.{
  OperationType, write, edit, search_and_replace, move, delete, create_dir, copy, extract, other,
  FileOperation, Disk,
}

-- A Go slice that was not set is the empty one.
pub record RollbackData : Type 0 where
  pub operation_type : OperationType
  pub original_path : Bytes
  pub backup_path : Bytes
  pub content : Bytes
  pub was_created : Bool
  pub second_path : Bytes
  pub second_content : Bytes
  pub second_was_created : Bool

abbrev pub no_rollback : OperationType → RollbackData
no_rollback t = record {
  operation_type = t;
  original_path = [];
  backup_path = [];
  content = [];
  was_created = false;
  second_path = [];
  second_content = [];
  second_was_created = false;
}

-- `rb.content = content`, where the file could be read.
abbrev pub content_of : Option Bytes → Bytes
content_of none = []
content_of (some content) = content

abbrev pub is_none : Option Bytes → Bool
is_none none = true
is_none (some content) = false

module _ {W : Type 0} (disk : Disk W) where
  abbrev pub prepare_type : OperationType → FileOperation → W → RollbackData
  prepare_type write op w = record (no_rollback write) {
    original_path = op.path;
    content = content_of (disk.read_file op.path w);
    was_created = is_none (disk.read_file op.path w);
  }
  prepare_type edit op w = record (no_rollback edit) {
    original_path = op.path;
    content = content_of (disk.read_file op.path w);
  }
  prepare_type search_and_replace op w = record (no_rollback search_and_replace) {
    original_path = op.path;
    content = content_of (disk.read_file op.path w);
  }
  prepare_type move op w = record (no_rollback move) {
    original_path = op.source;
    backup_path = op.destination;
  }
  prepare_type copy op w = record (no_rollback copy) {
    original_path = op.destination;
    was_created = true;
  }
  prepare_type delete op w = record (no_rollback delete) {
    original_path = op.path;
    content = content_of (disk.read_file op.path w);
  }
  prepare_type create_dir op w = record (no_rollback create_dir) {
    original_path = op.path;
    was_created = true;
  }
  prepare_type extract op w = record (no_rollback extract) {
    original_path = op.source;
    content = content_of (disk.read_file op.source w);
    second_path = op.destination;
    second_content = content_of (disk.read_file op.destination w);
    second_was_created = is_none (disk.read_file op.destination w);
  }
  prepare_type (other name) op w = no_rollback (other name)

  -- `prepareRollback`
  unfoldable pub prepare_rollback : FileOperation → W → RollbackData
  prepare_rollback op w = prepare_type op.type op w

  -- `os.Remove` of a file that was created, else `os.WriteFile` of its content; the errors are
  -- ignored.
  abbrev pub put_back : Bool → Bytes → Bytes → W → W
  put_back true path content w = (disk.remove path w).1
  put_back false path content w = (disk.write_file path content w).1

  abbrev pub undo_type : OperationType → RollbackData → W → W
  undo_type write rb w = put_back rb.was_created rb.original_path rb.content w
  undo_type edit rb w = put_back rb.was_created rb.original_path rb.content w
  undo_type search_and_replace rb w = put_back rb.was_created rb.original_path rb.content w
  undo_type move rb w = (disk.rename rb.backup_path rb.original_path w).1
  undo_type copy rb w = (disk.remove rb.original_path w).1
  undo_type delete rb w = (disk.write_file rb.original_path rb.content w).1
  undo_type create_dir rb w = (disk.remove rb.original_path w).1
  undo_type extract rb w =
      put_back rb.second_was_created rb.second_path rb.second_content
        (disk.write_file rb.original_path rb.content w).1
  undo_type (other name) rb w = w

  -- The `switch` of `rollback`.
  unfoldable pub undo : RollbackData → W → W
  undo rb w = undo_type rb.operation_type rb w

  -- `rollback`: the last operation first.
  unfoldable pub rollback : List RollbackData → W → W
  unfolding undo
  rollback [] w = w
  rollback (rb ∷ info) w = undo rb (rollback info w)

-- ===== src/Batch.antt =====
-- core/batch_operations.go: the data of a batch, and what it asks of the disk and of the engine.
-- The children hold the validation, the operations, the rollback and the run. A `Type` string is
-- the enum of the strings that the code switches on; modes, hashes' formats, times and the texts
-- of the errors are left out.
pub mod Check
pub mod Operation
pub mod Undo
pub mod Run
pub mod Laws
pub mod Restore
pub mod Rollback
pub mod Unchanged
pub mod Atomic
pub mod Access
pub mod Accounts
mod Tests
use mcp_filesystem_go_ultra.Common.{
  ℕ, zero, suc, ◌+◌, ◌-◌, ◌*◌, ◌≤◌, ◌<◌, ◌≡◌, ◌≢◌, ◌↔◌, ◌⊎◌, inl, inr, refl, sym, ap, subst, ◌∙◌,
  Bool, true, false, not, ◌&&◌, ◌||◌, List, [], ◌∷◌, ◌++◌, map, Option, none, some, append-nil,
  append_assoc, Bytes, codes, bytes_eq, bytes_eq_refl, eq_of_bytes_eq, bytes_eq_of_eq, is_empty,
  length, get_elem?, get_or, set, length-append, lookup, insert, has_key, lookup-insert, All, ltb,
  leb, ◌==◌, if◌then◌else◌, Bool-cases, Option-cases, arith, Result, ok, err, ◌>>=◌, ◌>>◌,
  refuse_if, >>=-eq-ok,
}
use mcp_filesystem_go_ultra.Common.Int.{ℤ}
use mcp_filesystem_go_ultra.LineRange.{RangeError}
use mcp_filesystem_go_ultra.Edit.{Library}

pub data OperationType : Type 0 where
  write : OperationType
  edit : OperationType
  search_and_replace : OperationType
  move : OperationType
  delete : OperationType
  create_dir : OperationType
  copy : OperationType
  extract : OperationType
  other : Bytes → OperationType

pub record FileOperation : Type 0 where
  pub type : OperationType
  pub path : Bytes
  pub source : Bytes
  pub destination : Bytes
  pub content : Bytes
  pub old_text : Bytes
  pub new_text : Bytes
  pub start_line : ℤ
  pub end_line : ℤ
  pub append : Bool

pub record BatchRequest : Type 0 where
  pub operations : List FileOperation
  pub atomic : Bool
  pub create_backup : Bool
  pub validate_only : Bool

-- Why an operation is refused by the validation.
pub data Issue : Type 0 where
  access_denied : Bytes → Issue
  root_protected : Bytes → Issue
  path_required : Issue
  parent_missing : Bytes → Issue
  text_required : Issue
  pattern_required : Issue
  file_missing : Bytes → Issue
  ends_required : Issue
  destination_exists : Bytes → Issue
  directory_exists : Bytes → Issue
  lines_required : Issue
  unknown_type : Bytes → Issue

-- Why an operation fails.
pub data OperationError : Type 0 where
  denied_by_hook : OperationError
  io_error : OperationError
  range_error : RangeError → OperationError
  text_not_found : OperationError
  engine_required : OperationError
  unknown_operation : Bytes → OperationError

pub data BatchError : Type 0 where
  invalid : ℕ → Issue → BatchError
  backup_failed : BatchError
  rolled_back : ℕ → OperationError → BatchError

pub record OperationResult : Type 0 where
  pub index : ℕ
  pub type : OperationType
  pub path : Bytes
  pub success : Bool
  pub error : Option OperationError
  pub bytes_affected : ℤ

pub record BatchResult : Type 0 where
  pub success : Bool
  pub total_ops : ℕ
  pub completed_ops : ℕ
  pub failed_ops : ℕ
  pub results : List OperationResult
  pub backup_path : Bytes
  pub rollback_done : Bool
  pub validation_only : Bool
  pub errors : List BatchError

-- What `os.Stat` says of a path.
pub data Stat : Type 0 where
  found : ℕ → Stat
  missing : Stat
  unreadable : Stat

-- The calls to the operating system, each with its success; the hooks, of which the one before an
-- operation can refuse it; and the engine: `restricted` stands for a list of allowed paths that is
-- not empty.
pub record Disk (W : Type 0) : Type 0 where
  pub read_file : Bytes → W → Option Bytes
  pub stat : Bytes → W → Stat
  pub write_file : Bytes → Bytes → W → Bool × W
  pub atomic_write_file : Bytes → Bytes → W → Bool × W
  pub copy_file : Bytes → Bytes → W → Bool × W
  pub remove : Bytes → W → Bool × W
  pub rename : Bytes → Bytes → W → Bool × W
  pub mkdir_all : Bytes → W → Bool × W
  pub dir : Bytes → Bytes
  pub pre_hook : FileOperation → W → Bool × W
  pub post_hook : FileOperation → W → W
  pub create_backup : List FileOperation → W → Option Bytes × W
  pub has_engine : Bool
  pub restricted : Bool
  pub is_path_allowed : Bytes → Bool
  pub is_allowed_path_root : Bytes → Bool
  pub search_and_replace_in_file : Bytes → Bytes → Bytes → W → Option ℕ × W
  pub library : Library
  pub refresh_known_hash : Bytes → W → W
  pub invalidate_known_hash : Bytes → W → W
  pub invalidate_file_read_cache : Bytes → W → W

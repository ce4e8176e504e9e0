-- ===== src/Batch/Tests.antt =====
-- core/batch_operations.go: a disk that is a map from paths to contents, batches on it, and the
-- theorems at them.
use mcp_filesystem_go_ultra.Common.{
  ℕ, zero, suc, ◌≡◌, ◌⊎◌, inl, inr, refl, ap, subst, ◌∙◌, Bool, true, false, not, ◌||◌, List, [],
  ◌∷◌, Option, none, some, Bytes, codes, bytes_eq, is_empty, length, lookup, insert, lookup-insert,
  All, if◌then◌else◌, Option-cases,
}
use mcp_filesystem_go_ultra.Common.{erase, lookup-erase}
use mcp_filesystem_go_ultra.Common.Int.{pos}
use mcp_filesystem_go_ultra.Common.Search.{count_text, replace_all, replace_from}
use mcp_filesystem_go_ultra.Render.{drop_phantom}
use mcp_filesystem_go_ultra.Edit.{Library}
use mcp_filesystem_go_ultra.Batch.{
  OperationType, write, edit, move, copy, FileOperation, BatchRequest, Disk, found, missing,
}
use mcp_filesystem_go_ultra.Batch.Run.{execute_batch, backup}
use mcp_filesystem_go_ultra.Batch.Laws.{AreSameFiles, DiskLaws, HooksKeepFiles, FailuresKeepFiles}
use mcp_filesystem_go_ultra.Batch.Rollback.{AreUndoable, rollback_works, undo_works}
use mcp_filesystem_go_ultra.Batch.Atomic.{atomic_rollback}
use mcp_filesystem_go_ultra.Batch.Access.{IsPermitted, batch_access}
use mcp_filesystem_go_ultra.Batch.Accounts.{AreCounted, batch_accounts}

abbrev FileMap : Type 0
FileMap = List (Bytes × Bytes)

abbrev is_some : Option Bytes → Bool
is_some none = false
is_some (some c) = true

-- What a replacement leaves, by its number of occurrences.
abbrev replaced : ℕ → Bytes → Bytes → FileMap → Option ℕ × FileMap
replaced zero p c w = (some 0, w)
replaced (suc n) p c w = (some (suc n), insert p c w)

-- A copy creates its destination before it reads anything.
abbrev copied : Option Bytes → Bytes → FileMap → Bool × FileMap
copied none t w = (false, insert t [] w)
copied (some c) t w = (true, insert t c w)

abbrev renamed : Option Bytes → Bytes → Bytes → FileMap → Bool × FileMap
renamed none p t w = (false, w)
renamed (some c) p t w = (true, insert t c (erase p w))

abbrev replaced_in : Option Bytes → Bytes → Bytes → Bytes → FileMap → Option ℕ × FileMap
replaced_in none p old new w = (none, w)
replaced_in (some c) p old new w = replaced (count_text c old) p (replace_all c old new) w

abbrev plain_library : Library
plain_library = record { compile = λ p. none; proportion = λ a b c. 0 }

-- All files are in the directory "", "dir" is another, and the path "/x" is not allowed.
abbrev map_disk : Disk FileMap
map_disk = record {
  read_file = lookup;
  stat = λ p w.
      if is_empty p || bytes_eq p (codes "dir")
      then found 0
      else elim (lookup p w) [ none ↦ missing | some c ↦ found (length c) ];
  write_file = λ p c w. (true, insert p c w);
  atomic_write_file = λ p c w. (true, insert p c w);
  copy_file = λ p t w. copied (lookup p w) t w;
  remove = λ p w. (is_some (lookup p w), erase p w);
  rename = λ p t w. renamed (lookup p w) p t w;
  mkdir_all = λ p w. (not (is_some (lookup p w)), w);
  dir = λ p. [];
  pre_hook = λ op w. (true, w);
  post_hook = λ op w. w;
  create_backup = λ ops w. (some (codes "backup"), w);
  has_engine = true;
  restricted = true;
  is_path_allowed = λ p. not (bytes_eq p (codes "/x"));
  is_allowed_path_root = λ p. false;
  search_and_replace_in_file = λ p old new w. replaced_in (lookup p w) p old new w;
  library = plain_library;
  refresh_known_hash = λ p w. w;
  invalidate_known_hash = λ p w. w;
  invalidate_file_read_cache = λ p w. w;
}

replaced_in-reads :
    (o : Option Bytes) (p old new : Bytes) (w : FileMap) (n : ℕ)
    → (replaced_in o p old new w).0 ≡ some (suc n)
    → ((c : Bytes) × (o ≡ some c))
      × ((q : Bytes) → bytes_eq p q ≡ false → lookup q (replaced_in o p old new w).1 ≡ lookup q w)
replaced_in-reads none p old new w n h = absurd (cc h)
replaced_in-reads (some c) p old new w n h =
    ((c, refl), replaced-others (count_text c old) p (replace_all c old new) w)
  where
    replaced-others :
        (n : ℕ) (p c : Bytes) (w : FileMap) (q : Bytes)
        → bytes_eq p q ≡ false
        → lookup q (replaced n p c w).1 ≡ lookup q w
    replaced-others zero p c w q apart = refl
    replaced-others (suc n) p c w q apart = lookup-insert p q c w ∙ rw apart refl

copied-others :
    (o : Option Bytes) (t : Bytes) (w : FileMap) (q : Bytes)
    → bytes_eq t q ≡ false
    → lookup q (copied o t w).1 ≡ lookup q w
copied-others none t w q apart = lookup-insert t q [] w ∙ rw apart refl
copied-others (some c) t w q apart = lookup-insert t q c w ∙ rw apart refl

renamed-reads :
    (o : Option Bytes) (p t c : Bytes) (w : FileMap) (q : Bytes)
    → o ≡ some c
    → lookup q (renamed o p t w).1
      ≡ (if bytes_eq t q then some c else if bytes_eq p q then none else lookup q w)
renamed-reads none p t c w q h = absurd (cc h)
renamed-reads (some d) p t c w q h =
    lookup-insert t q d (erase p w)
    ∙ rw (lookup-erase p q w)
        (ap (λ o. if bytes_eq t q then o else if bytes_eq p q then none else lookup q w) h)

has_key-false : (p : Bytes) (w : FileMap) → not (is_some (lookup p w)) ≡ true → lookup p w ≡ none
has_key-false p w h = elim (Option-cases (lookup p w)) [
  | inl gone ↦ gone
  | inr (c, there) ↦ absurd (cc (subst (λ o. not (is_some o) ≡ true) there h))
]

abbrev map_disk_laws : DiskLaws map_disk
unfolding AreSameFiles
map_disk_laws = record {
  write_reads = λ p c w works q. lookup-insert p q c w;
  atomic_write_others = λ p c w works q apart. lookup-insert p q c w ∙ rw apart refl;
  copy_others = λ p t w works q apart. copied-others (lookup p w) t w q apart;
  remove_reads = λ p w works q. lookup-erase p q w;
  rename_reads = λ p t c w there fresh works q. renamed-reads (lookup p w) p t c w q there;
  mkdir_reads = λ p w works. ((λ q. refl), has_key-false p w works);
  cache_reads = λ p w q. refl;
  replace_reads = λ p old new w n h. replaced_in-reads (lookup p w) p old new w n h;
}

abbrev no_hooks : HooksKeepFiles map_disk
unfolding AreSameFiles
no_hooks = record { pre_hook_reads = λ op w q. refl; post_hook_reads = λ op w q. refl }

abbrev blank : OperationType → FileOperation
blank t = record {
  type = t;
  path = [];
  source = [];
  destination = [];
  content = [];
  old_text = [];
  new_text = [];
  start_line = pos 0;
  end_line = pos 0;
  append = false;
}

-- A write, a move, and an edit that does not find its text.
abbrev failing_request : BatchRequest
failing_request = record {
  operations =
      record (blank write) { path = codes "b"; content = codes "new" }
      ∷ record (blank move) { source = codes "a"; destination = codes "c" }
      ∷ record (blank edit) { path = codes "b"; old_text = codes "zz"; new_text = codes "y" }
      ∷ [];
  atomic = true;
  create_backup = false;
  validate_only = false;
}

abbrev two_files : FileMap
two_files = (codes "a", codes "1") ∷ (codes "b", codes "2") ∷ []

-- A copy over a file, and an edit that does not find its text: the rollback removes the file.
abbrev copying_request : BatchRequest
copying_request = record failing_request {
  operations =
      record (blank copy) { source = codes "a"; destination = codes "b" }
      ∷ record (blank edit) { path = codes "a"; old_text = codes "zz"; new_text = codes "y" }
      ∷ [];
}

copy_rolled_back : lookup (codes "b") (execute_batch map_disk copying_request two_files).1 ≡ none
unfolding execute_batch replace_from drop_phantom
copy_rolled_back = refl

-- A copy of a directory fails, and the empty file that it has created is kept.
abbrev directory_request : BatchRequest
directory_request = record failing_request {
  operations = record (blank copy) { source = codes "dir"; destination = codes "d" } ∷ [];
}

half_copy_kept : lookup (codes "d") (execute_batch map_disk directory_request two_files).1 ≡ some []
unfolding execute_batch
half_copy_kept = refl

-- Moving a file to a path that is not allowed.
abbrev forbidden_request : BatchRequest
forbidden_request = record failing_request {
  operations = record (blank move) { source = codes "a"; destination = codes "/x" } ∷ [];
}

forbidden_refused : (execute_batch map_disk forbidden_request two_files).1 ≡ two_files
unfolding execute_batch
forbidden_refused = refl

atomic_rollback_example :
    AreSameFiles map_disk
      (execute_batch map_disk failing_request two_files).1
      (backup map_disk failing_request two_files).1
unfolding execute_batch AreUndoable AreSameFiles FailuresKeepFiles rollback_works undo_works
    replace_from drop_phantom
atomic_rollback_example =
    atomic_rollback map_disk failing_request two_files map_disk_laws no_hooks refl
      (
        (λ good. (
          refl,
          (
            (λ fine. (
              refl,
              (
                (λ never. absurd (cc never)),
                (λ failing. ((λ final never. absurd (cc never)), refl)),
              ),
            )),
            (λ never. absurd (cc never)),
          ),
        )),
        (λ never. absurd (cc never)),
      )
      refl

batch_access_example :
    All (λ op. IsPermitted map_disk op.type op) failing_request.operations
    ⊎ (((execute_batch map_disk failing_request two_files).1 ≡ two_files)
        × ((execute_batch map_disk failing_request two_files).0.success ≡ false))
batch_access_example = batch_access map_disk failing_request two_files refl

batch_accounts_example :
    AreCounted (execute_batch map_disk failing_request two_files).0
    × (((execute_batch map_disk failing_request two_files).0.success ≡ false)
        ⊎ (((execute_batch map_disk failing_request two_files).0.failed_ops ≡ 0)
            × (length (execute_batch map_disk failing_request two_files).0.results
                ≡ length failing_request.operations)))
batch_accounts_example = batch_accounts map_disk failing_request two_files refl

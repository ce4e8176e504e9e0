-- ===== src/Batch/Access.antt =====
-- core/batch_operations.go: the guard on the paths of a batch.
use mcp_filesystem_go_ultra.Common.{
  ℕ, ◌+◌, ◌≡◌, ◌⊎◌, inl, inr, refl, Bool, true, false, not, ◌&&◌, List, [], ◌∷◌, ◌++◌, map, Bytes,
  is_empty, All, Bool-cases,
}
use mcp_filesystem_go_ultra.Common.{All}
use mcp_filesystem_go_ultra.Batch.{
  OperationType, write, edit, search_and_replace, move, delete, create_dir, copy, extract, other,
  FileOperation, BatchRequest, BatchError, invalid, Issue, access_denied, root_protected, Disk,
}
use mcp_filesystem_go_ultra.Batch.Check.{
  paths_of_type, root_issues, collect_paths, denied_paths, access_issues, type_issues,
  validate_from, validate_operations, issue_if,
}
use mcp_filesystem_go_ultra.Batch.Run.{execute_batch, execute_checked}

append-nil_parts : {A : Type 0} (a b : List A) → a ++ b ≡ [] → (a ≡ []) × (b ≡ [])
append-nil_parts [] b h = (refl, h)
append-nil_parts (x ∷ a) b h = cc h

map-nil : {A B : Type 0} (f : A → B) (a : List A) → map f a ≡ [] → a ≡ []
map-nil f [] h = refl
map-nil f (x ∷ a) h = cc h

issue_if-nil : (b : Bool) (x : Issue) → issue_if b x ≡ [] → b ≡ false
issue_if-nil true x h = cc h
issue_if-nil false x h = refl

allowed : (b : Bool) → not b ≡ false → b ≡ true
allowed true h = refl
allowed false h = cc h

module _ {W : Type 0} (disk : Disk W) where
  -- A path that was not given, or one that is allowed.
  pub IsAllowed : Bytes → Type 0
  IsAllowed p = (is_empty p ≡ true) ⊎ (disk.is_path_allowed p ≡ true)

  denied_paths-nil : (paths : List Bytes) → denied_paths disk paths ≡ [] → All IsAllowed paths
  unfolding denied_paths IsAllowed
  denied_paths-nil [] h = tt
  denied_paths-nil (p ∷ paths) h =
      let (this, rest) = append-nil_parts _ (denied_paths disk paths) h in
      let no_issue =
        issue_if-nil (not (is_empty p) && not (disk.is_path_allowed p)) (access_denied p) this in
      (
        elim (Bool-cases (is_empty p)) [
          | inl e ↦ inl e
          | inr e ↦ inr (allowed (disk.is_path_allowed p) (rw e at no_issue))
        ],
        denied_paths-nil paths rest,
      )

  -- A path that was not given, or one that is no root of the allowed paths.
  pub IsNoRoot : Bytes → Type 0
  IsNoRoot p = (is_empty p ≡ true) ⊎ (disk.is_allowed_path_root p ≡ false)

  -- What an operation may name: both ends of a move, a copy or an extraction are allowed, or the
  -- path of any other, and what is moved away or deleted is no root.
  abbrev pub IsPermitted : OperationType → FileOperation → Type 0
  IsPermitted move op = IsAllowed op.source × IsAllowed op.destination × IsNoRoot op.source
  IsPermitted copy op = IsAllowed op.source × IsAllowed op.destination
  IsPermitted extract op = IsAllowed op.source × IsAllowed op.destination
  IsPermitted delete op = IsAllowed op.path × IsNoRoot op.path
  IsPermitted other_type op = IsAllowed op.path

  root-nil :
      (p : Bytes)
      → issue_if (not (is_empty p) && disk.is_allowed_path_root p) (root_protected p) ≡ []
      → IsNoRoot p
  unfolding IsNoRoot
  root-nil p h =
      let no_issue =
        issue_if-nil (not (is_empty p) && disk.is_allowed_path_root p) (root_protected p) h in
      elim (Bool-cases (is_empty p)) [ inl e ↦ inl e | inr e ↦ inr (rw e at no_issue) ]

  permitted :
      (kind : OperationType) (op : FileOperation)
      → denied_paths disk (paths_of_type kind op) ≡ []
      → root_issues disk kind op ≡ []
      → IsPermitted kind op
  permitted write op h k = (denied_paths-nil _ h).0
  permitted edit op h k = (denied_paths-nil _ h).0
  permitted search_and_replace op h k = (denied_paths-nil _ h).0
  permitted create_dir op h k = (denied_paths-nil _ h).0
  permitted (other name) op h k = (denied_paths-nil _ h).0
  permitted delete op h k = ((denied_paths-nil _ h).0, root-nil op.path k)
  permitted copy op h k =
      let (source, (destination, _)) = denied_paths-nil _ h in (source, destination)
  permitted extract op h k =
      let (source, (destination, _)) = denied_paths-nil _ h in (source, destination)
  permitted move op h k =
      let (source, (destination, _)) = denied_paths-nil _ h in
      (source, destination, root-nil op.source k)

  validate_from-nil :
      (i : ℕ) (ops : List FileOperation) (pending : List Bytes) (w : W)
      → (disk.has_engine && disk.restricted) ≡ true
      → validate_from disk i ops pending w ≡ []
      → All (λ op. IsPermitted op.type op) ops
  unfolding validate_from access_issues collect_paths
  validate_from-nil i [] pending w on h = tt
  validate_from-nil i (op ∷ ops) pending w on h =
      let kind = type_issues disk op.type op pending w in
      let (this, rest) = append-nil_parts _ (validate_from disk (i + 1) ops kind.1 w) h in
      let (access, _) =
        append-nil_parts (access_issues disk op) kind.0 (map-nil (invalid i) _ this) in
      let (paths, roots) =
        append-nil_parts (denied_paths disk (collect_paths op)) (root_issues disk op.type op)
          (rw (on, access_issues) at access) in
      (permitted op.type op paths roots, validate_from-nil (i + 1) ops kind.1 w on rest)

  refused :
      (errors : List BatchError) (request : BatchRequest) (w : W)
      → (errors ≡ [])
        ⊎ (((execute_checked disk errors request w).1 ≡ w)
            × ((execute_checked disk errors request w).0.success ≡ false))
  unfolding execute_checked
  refused [] request w = inl refl
  refused (e ∷ errors) request w = inr (refl, refl)

-- Where paths are restricted, a batch either names allowed paths only, and moves or deletes no
-- root of them, or it fails and changes nothing at all.
pub batch_access :
    {W : Type 0} (disk : Disk W) (request : BatchRequest) (w : W)
    → (disk.has_engine && disk.restricted) ≡ true
    → All (λ op. IsPermitted disk op.type op) request.operations
      ⊎ (((execute_batch disk request w).1 ≡ w)
          × ((execute_batch disk request w).0.success ≡ false))
unfolding execute_batch validate_operations
batch_access disk request w on =
    elim (refused disk (validate_operations disk request.operations w) request w) [
      | inl valid ↦ inl (validate_from-nil disk 0 request.operations [] w on valid)
      | inr failing ↦ inr failing
    ]

-- ===== src/Pipeline.antt =====
-- core/pipeline_types.go: the data of a pipeline, its context, and `getInputFiles`.
-- The maps are association lists; a nil map and an empty one answer alike. The locks of the
-- context guard single reads and writes, which are single steps here.
pub mod Condition
pub mod Decide
pub mod Template
pub mod Resolve
mod Tests
use mcp_filesystem_go_ultra.Common.{
  ℕ, zero, suc, ◌+◌, ◌-◌, ◌*◌, ◌≤◌, ◌<◌, ◌≡◌, ◌≢◌, ◌↔◌, ◌⊎◌, inl, inr, refl, sym, ap, subst, ◌∙◌,
  Bool, true, false, not, ◌&&◌, ◌||◌, List, [], ◌∷◌, ◌++◌, map, Option, none, some, append-nil,
  append_assoc, Bytes, codes, bytes_eq, bytes_eq_refl, eq_of_bytes_eq, bytes_eq_of_eq, is_empty,
  length, get_elem?, length-append, lookup, insert, has_key, lookup-insert, All, ltb, leb, ◌==◌,
  if◌then◌else◌, Bool-cases, Option-cases, arith, Result, ok, err, ◌>>=◌, ◌>>◌, refuse_if,
  >>=-eq-ok,
}
use mcp_filesystem_go_ultra.Common.Int.{ℤ}

-- A value of `interface{}` that JSON or a caller gives: `other` is one that no code here reads.
mutual
  pub data Param : Type 0 where
    text : Bytes → Param
    texts : List Bytes → Param
    items : Items → Param
    object : Fields → Param
    other : ℕ → Param

  pub data Items : Type 0 where
    nil : Items
    cons : Param → Items → Items

  pub data Fields : Type 0 where
    end : Fields
    field : Bytes → Param → Fields → Fields

-- `StepCondition`; its type is a string.
pub record StepCondition : Type 0 where
  pub kind : Bytes
  pub step_ref : Bytes
  pub value : Bytes
  pub path : Bytes

-- `PipelineStep`
pub record PipelineStep : Type 0 where
  pub id : Bytes
  pub action : Bytes
  pub input_from : Bytes
  pub input_from_all : List Bytes
  pub params : List (Bytes × Param)
  pub condition : Option StepCondition

-- `StepResult`, less the duration and what is only printed.
pub record StepResult : Type 0 where
  pub success : Bool
  pub skipped : Bool
  pub files_matched : List Bytes
  pub edits_applied : ℕ
  pub counts : List (Bytes × ℕ)
  pub error : Bytes
  pub risk_level : Bytes

-- `PipelineContext`
pub record PipelineContext : Type 0 where
  pub step_results : List (Bytes × StepResult)
  pub affected_files : List (Bytes × Bool)
  pub backup_id : Bytes

unfoldable pub new_pipeline_context : PipelineContext
new_pipeline_context = record { step_results = []; affected_files = []; backup_id = [] }

-- `GetStepResult`
unfoldable pub get_step_result : Bytes → PipelineContext → Option StepResult
get_step_result step_id pc = lookup step_id pc.step_results

-- `SetStepResult`
unfoldable pub set_step_result : Bytes → StepResult → PipelineContext → PipelineContext
set_step_result step_id result pc = record pc {
  step_results = insert step_id result pc.step_results;
}

-- `AddAffectedFiles`
unfoldable pub add_affected_files : List Bytes → PipelineContext → PipelineContext
add_affected_files [] pc = pc
add_affected_files (f ∷ fs) pc =
    add_affected_files fs (record pc { affected_files = insert f true pc.affected_files })

abbrev pub keys {ℓ} : {V : Type ℓ} → List (Bytes × V) → List Bytes
keys [] = []
keys ((k, v) ∷ m) = k ∷ keys m

-- `GetAffectedFiles`, in the order of the list; Go's order of a map is any order.
unfoldable pub get_affected_files : PipelineContext → List Bytes
get_affected_files pc = keys pc.affected_files

pub data InputError : Type 0 where
  not_executed : Bytes → InputError
  step_failed : Bytes → Bytes → InputError
  no_files_matched : Bytes → InputError
  not_a_string : ℕ → InputError
  invalid_type : InputError
  no_input : InputError

-- The loop over `[]interface{}`, from index `i`.
unfoldable pub item_texts : ℕ → Items → Result InputError (List Bytes)
item_texts i nil = ok []
item_texts i (cons (text t) rest) = do files ← item_texts (i + 1) rest; ok (t ∷ files)
item_texts i (cons _ rest) = err (not_a_string i)

-- The type switch on the parameter.
unfoldable pub files_of : Param → Result InputError (List Bytes)
unfolding item_texts
files_of (texts v) = ok v
files_of (items v) = item_texts 0 v
files_of (text v) = ok (v ∷ [])
files_of _ = err invalid_type

-- `params["files"]`, or else `params["path"]`.
unfoldable pub files_param : List (Bytes × Param) → Option Param
files_param params = elim (lookup (codes "files") params) [
  | some p ↦ some p
  | none ↦ lookup (codes "path") params
]

-- The files of the step that `input_from` names.
unfoldable pub files_from : Bytes → Option StepResult → Result InputError (List Bytes)
files_from ref none = err (not_executed ref)
files_from ref (some r) =
    if not r.success
    then err (step_failed ref r.error)
    else if is_empty r.files_matched
    then err (no_files_matched ref)
    else ok r.files_matched

-- `getInputFiles`
unfoldable pub get_input_files : PipelineStep → PipelineContext → Result InputError (List Bytes)
unfolding files_from files_param files_of
get_input_files step ctx =
    if not (is_empty step.input_from)
    then files_from step.input_from (get_step_result step.input_from ctx)
    else elim (files_param step.params) [ some p ↦ files_of p | none ↦ err no_input ]

-- The loop that adds up `Counts`, or the number of matched files where there are none.
abbrev pub sum_counts : List (Bytes × ℕ) → ℕ
sum_counts [] = 0
sum_counts ((path, n) ∷ m) = n + sum_counts m

unfoldable pub total_count : StepResult → ℕ
total_count r = if is_empty r.counts then length r.files_matched else sum_counts r.counts

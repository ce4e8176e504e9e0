-- ===== src/Validate.antt =====
-- core/pipeline_types.go: `PipelineRequest.Validate`, `PipelineStep.Validate` and
-- `validateActionParams`. `Validate` fills in missing ids in place: here it returns the request.
-- A string is UTF-8; `strings.TrimSpace` leaves nothing of exactly the blank strings.
pub mod References
pub mod Self
mod Tests
use mcp_filesystem_go_ultra.Common.{
  ℕ, zero, suc, ◌+◌, ◌-◌, ◌*◌, ◌≤◌, ◌<◌, ◌≡◌, ◌≢◌, ◌↔◌, ◌⊎◌, inl, inr, refl, sym, ap, subst, ◌∙◌,
  Bool, true, false, not, ◌&&◌, ◌||◌, List, [], ◌∷◌, ◌++◌, map, Option, none, some, append-nil,
  append_assoc, Bytes, codes, bytes_eq, bytes_eq_refl, eq_of_bytes_eq, bytes_eq_of_eq, is_empty,
  length, get_elem?, length-append, lookup, insert, has_key, lookup-insert, All, ltb, leb, ◌==◌,
  if◌then◌else◌, Bool-cases, Option-cases, arith, Result, ok, err, ◌>>=◌, ◌>>◌, refuse_if,
  >>=-eq-ok,
}
use mcp_filesystem_go_ultra.Common.Decimal.{show_nat}
use mcp_filesystem_go_ultra.Pipeline.{Param, StepCondition, PipelineStep}
use mcp_filesystem_go_ultra.Pipeline.Condition.{ConditionError, validate_condition}

-- The white space of `unicode.IsSpace` in one, two and three bytes.
abbrev pub space_1 : ℕ → Bool
space_1 c = (leb 9 c && leb c 13) || c == 32

abbrev pub space_2 : ℕ → ℕ → Bool
space_2 c d = c == 0xc2 && (d == 0x85 || d == 0xa0)

abbrev pub space_3 : ℕ → ℕ → ℕ → Bool
space_3 c d e =
    (c == 0xe1 && (d == 0x9a && e == 0x80))
    || ((c == 0xe2
          && ((d == 0x80 && ((leb 0x80 e && leb e 0x8a) || (e == 0xa8 || (e == 0xa9 || e == 0xaf))))
              || (d == 0x81 && e == 0x9f)))
        || (c == 0xe3 && (d == 0x80 && e == 0x80)))

-- `strings.TrimSpace(s) == ""`
unfoldable pub is_blank : Bytes → Bool
is_blank [] = true
is_blank (c ∷ []) = space_1 c
is_blank (c ∷ d ∷ []) = if space_1 c then space_1 d else space_2 c d
is_blank (c ∷ d ∷ e ∷ s) =
    let after_1 = is_blank (d ∷ e ∷ s) in
    let after_2 = is_blank (e ∷ s) in
    let after_3 = is_blank s in
    if space_1 c
    then after_1
    else if space_2 c d
    then after_2
    else if space_3 c d e
    then after_3
    else false

pub data ValidationError : Type 0 where
  name_required : ValidationError
  steps_required : ValidationError
  too_many_steps : ℕ → ValidationError
  id_required : ValidationError
  invalid_id : Bytes → ValidationError
  unsupported_action : Bytes → ValidationError
  missing_param : Bytes → ValidationError
  in_step : ℕ → Bytes → ValidationError → ValidationError
  duplicate_id : Bytes → ℕ → ℕ → ValidationError
  reference_missing : Bytes → Bytes → ValidationError
  forward_reference : Bytes → Bytes → ValidationError
  bad_condition : ConditionError → ValidationError

-- A byte that an id may hold; a rune above ASCII has only bytes above it.
abbrev pub is_id_byte : ℕ → Bool
is_id_byte r =
    (leb b'a' r && leb r b'z')
    || ((leb b'A' r && leb r b'Z') || ((leb b'0' r && leb r b'9') || (r == b'-' || r == b'_')))

unfoldable pub all_id_bytes : Bytes → Bool
all_id_bytes [] = true
all_id_bytes (r ∷ s) = is_id_byte r && all_id_bytes s

-- `isValidStepID`
unfoldable pub is_valid_step_id : Bytes → Bool
unfolding all_id_bytes
is_valid_step_id id = if is_empty id then false else all_id_bytes id

pub data Action : Type 0 where
  search read_ranges edit multi_edit count_occurrences regex_transform : Action
  copy rename delete aggregate diff merge : Action

-- `supportedActions`, and the cases of the `switch`.
unfoldable pub action_of : Bytes → Option Action
action_of s =
    if bytes_eq s (codes "search")
    then some search
    else if bytes_eq s (codes "read_ranges")
    then some read_ranges
    else if bytes_eq s (codes "edit")
    then some edit
    else if bytes_eq s (codes "multi_edit")
    then some multi_edit
    else if bytes_eq s (codes "count_occurrences")
    then some count_occurrences
    else if bytes_eq s (codes "regex_transform")
    then some regex_transform
    else if bytes_eq s (codes "copy")
    then some copy
    else if bytes_eq s (codes "rename")
    then some rename
    else if bytes_eq s (codes "delete")
    then some delete
    else if bytes_eq s (codes "aggregate")
    then some aggregate
    else if bytes_eq s (codes "diff")
    then some diff
    else if bytes_eq s (codes "merge")
    then some merge
    else none

-- `hasInputFiles`
unfoldable pub has_input_files : PipelineStep → Bool
has_input_files ps =
    not (is_empty ps.input_from)
    || (has_key (codes "files") ps.params || has_key (codes "path") ps.params)

-- `if _, ok := ps.Params[name]; !ok { return … }`
unfoldable pub require : PipelineStep → Bytes → Result ValidationError (Unit {0})
require ps name = refuse_if (not (has_key name ps.params)) (missing_param name)

unfoldable pub require_files : PipelineStep → Result ValidationError (Unit {0})
unfolding has_input_files
require_files ps = refuse_if (not (has_input_files ps)) (missing_param (codes "files"))

unfoldable pub require_inputs : PipelineStep → Result ValidationError (Unit {0})
require_inputs ps =
    refuse_if (is_empty ps.input_from_all && is_empty ps.input_from)
      (missing_param (codes "input_from_all"))

-- The `switch` of `validateActionParams`.
unfoldable pub params_of_action : PipelineStep → Action → Result ValidationError (Unit {0})
unfolding require require_files require_inputs
params_of_action ps search = require ps (codes "pattern")
params_of_action ps read_ranges = require_files ps
params_of_action ps edit = do
  require ps (codes "old_text")
  require ps (codes "new_text")
  require_files ps
params_of_action ps multi_edit = do require ps (codes "edits"); require_files ps
params_of_action ps count_occurrences = do require ps (codes "pattern"); require_files ps
params_of_action ps regex_transform = do require ps (codes "patterns"); require_files ps
params_of_action ps copy = do require ps (codes "destination"); require_files ps
params_of_action ps rename = do require ps (codes "destination"); require_files ps
params_of_action ps delete = require_files ps
params_of_action ps aggregate = require_inputs ps
params_of_action ps diff =
    if is_empty ps.input_from
    then (do require ps (codes "file_a"); require ps (codes "file_b"))
    else ok tt
params_of_action ps merge = require_inputs ps

-- An action that is not supported is refused before its parameters are read.
unfoldable pub validate_action : PipelineStep → Option Action → Result ValidationError (Unit {0})
unfolding params_of_action
validate_action ps none = err (unsupported_action ps.action)
validate_action ps (some a) = params_of_action ps a

-- `(*PipelineStep).Validate`
unfoldable pub validate_step : PipelineStep → Result ValidationError (Unit {0})
unfolding validate_action
validate_step ps = do
  refuse_if (is_blank ps.id) id_required
  refuse_if (not (is_valid_step_id ps.id)) (invalid_id ps.id)
  validate_action ps (action_of ps.action)

-- `fmt.Errorf("step %d (%s): %w", …)` around an error.
unfoldable pub wrap_step :
    ℕ → Bytes → Result ValidationError (Unit {0}) → Result ValidationError (Unit {0})
wrap_step i id (ok u) = ok u
wrap_step i id (err e) = err (in_step i id e)

-- One reference of step `i`: it must name a step that stands before it.
unfoldable pub check_reference :
    ℕ → Bytes → Bytes → List (Bytes × ℕ) → Result ValidationError (Unit {0})
check_reference i id ref step_ids = elim (lookup ref step_ids) [
  | none ↦ err (reference_missing id ref)
  | some j ↦ refuse_if (leb i j) (forward_reference id ref)
]

unfoldable pub check_references :
    ℕ → Bytes → List Bytes → List (Bytes × ℕ) → Result ValidationError (Unit {0})
unfolding check_reference
check_references i id [] step_ids = ok tt
check_references i id (ref ∷ refs) step_ids = do
  check_reference i id ref step_ids
  check_references i id refs step_ids

unfoldable pub check_input_from :
    ℕ → PipelineStep → List (Bytes × ℕ) → Result ValidationError (Unit {0})
unfolding check_reference
check_input_from i step step_ids =
    if is_empty step.input_from then ok tt else check_reference i step.id step.input_from step_ids

unfoldable pub check_condition :
    Option StepCondition → List (Bytes × ℕ) → Result ValidationError (Unit {0})
check_condition none step_ids = ok tt
check_condition (some cond) step_ids = elim (validate_condition cond step_ids) [
  | ok u ↦ ok u
  | err e ↦ err (bad_condition e)
]

unfoldable pub check_duplicate : ℕ → Bytes → List (Bytes × ℕ) → Result ValidationError (Unit {0})
check_duplicate i id step_ids = elim (lookup id step_ids) [
  | none ↦ ok tt
  | some prev ↦ err (duplicate_id id prev i)
]

-- The checks of step `i` once its id is entered, so that `step_ids` holds the step itself.
unfoldable pub check_entered :
    ℕ → PipelineStep → List (Bytes × ℕ) → Result ValidationError (Unit {0})
unfolding check_input_from check_references check_condition
check_entered i step step_ids = do
  check_input_from i step step_ids
  check_references i step.id step.input_from_all step_ids
  check_condition step.condition step_ids

-- The loop over the steps, from step `i` on.
unfoldable pub validate_steps :
    ℕ → List PipelineStep → List (Bytes × ℕ) → Result ValidationError (Unit {0})
unfolding check_duplicate check_entered wrap_step
validate_steps i [] step_ids = ok tt
validate_steps i (step ∷ steps) step_ids = do
  wrap_step i step.id (validate_step step)
  check_duplicate i step.id step_ids
  check_entered i step (insert step.id i step_ids)
  validate_steps (i + 1) steps (insert step.id i step_ids)

-- `PipelineRequest`, less what only the execution reads.
pub record PipelineRequest : Type 0 where
  pub name : Bytes
  pub steps : List PipelineStep
  pub validated : Bool

-- The loop that names the steps without an id, from step `i` on.
unfoldable pub fill_ids : ℕ → List PipelineStep → List PipelineStep
fill_ids i [] = []
fill_ids i (step ∷ steps) =
    (if is_blank step.id then record step { id = codes "step-" ++ show_nat i } else step)
    ∷ fill_ids (i + 1) steps

abbrev pub max_pipeline_steps : ℕ
max_pipeline_steps = 20

-- `(*PipelineRequest).Validate`. On an error the source leaves the ids that it filled in; the
-- model gives the error alone.
unfoldable pub validate : PipelineRequest → Result ValidationError PipelineRequest
validate pr = if pr.validated then ok pr else do
  refuse_if (is_blank pr.name) name_required
  let steps = fill_ids 0 pr.steps
  refuse_if (is_empty steps) steps_required
  refuse_if (ltb max_pipeline_steps (length steps)) (too_many_steps (length steps))
  validate_steps 0 steps []
  ok (record pr { steps = steps; validated = true })

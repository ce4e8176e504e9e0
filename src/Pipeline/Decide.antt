-- ===== src/Pipeline/Decide.antt =====
-- core/pipeline_conditions.go: what conditions are accepted, and how they decide.
use mcp_filesystem_go_ultra.Common.{
  ℕ, ◌≡◌, ◌↔◌, ◌⊎◌, inl, inr, refl, sym, subst, ◌∙◌, Bool-cases, eq_of_bytes_eq, Bool, true, false,
  not, ◌&&◌, ◌||◌, List, [], ◌∷◌, some, Bytes, codes, bytes_eq, is_empty, has_key, arith, ok, ◌>>◌,
  refuse_if,
}
use mcp_filesystem_go_ultra.Common.Decimal.{atoi}
use mcp_filesystem_go_ultra.Pipeline.{StepCondition, StepResult, PipelineContext, get_step_result}
use mcp_filesystem_go_ultra.Pipeline.Condition.{
  ConditionError, unsupported_type, requires_step_ref, step_ref_not_found, requires_value,
  value_not_an_integer, requires_path, ConditionType, has_matches, no_matches, count_gt, count_lt,
  count_eq, step_succeeded, step_failed, condition_type, needs_path, is_known, needs_step_ref,
  needs_value, validate_condition, Files, no_reason, evaluate_as, evaluate_condition,
}

run_iff-by_type :
    (t : ConditionType) (cond : StepCondition) (ctx : PipelineContext) (files : Files)
    → ((evaluate_as t cond ctx files).0 ≡ true) ↔ ((evaluate_as t cond ctx files).1 ≡ no_reason)
unfolding evaluate_as
run_iff-by_type has_matches cond ctx files = ground arith
run_iff-by_type _ cond ctx files = ground arith

-- A condition lets its step run exactly when it gives no reason to skip it.
pub run_iff_no_reason :
    (cond : StepCondition) (ctx : PipelineContext) (files : Files)
    → ((evaluate_condition cond ctx files).0 ≡ true)
      ↔ ((evaluate_condition cond ctx files).1 ≡ no_reason)
unfolding evaluate_condition
run_iff_no_reason cond ctx files = run_iff-by_type (condition_type cond.kind) cond ctx files

-- Whether the step runs, with the type of the condition given anew.
abbrev pub runs_as : Bytes → StepCondition → PipelineContext → Files → Bool
runs_as kind cond ctx files = (evaluate_condition (record cond { kind = kind }) ctx files).0

types_opposite :
    (cond : StepCondition) (ctx : PipelineContext) (files : Files) (r : StepResult)
    → get_step_result cond.step_ref ctx ≡ some r
    → let run = λ (t : ConditionType). (evaluate_as t cond ctx files).0 in
      (run has_matches ≡ not (run no_matches))
      × (run step_succeeded ≡ not (run step_failed))
      × (run count_eq ≡ not (run count_lt || run count_gt))
      × ((run count_lt && run count_gt) ≡ false)
unfolding evaluate_as
types_opposite cond ctx files r e = ground arith

-- Where the step that a condition refers to has a result, the condition types are opposites:
-- exactly one of `has_matches` and `no_matches` lets the step run, exactly one of
-- `step_succeeded` and `step_failed`, and exactly one of `count_lt`, `count_eq` and `count_gt`.
pub conditions_opposite :
    (cond : StepCondition) (ctx : PipelineContext) (files : Files) (r : StepResult)
    → get_step_result cond.step_ref ctx ≡ some r
    → let run = λ (kind : Bytes). runs_as kind cond ctx files in
      (run (codes "has_matches") ≡ not (run (codes "no_matches")))
      × (run (codes "step_succeeded") ≡ not (run (codes "step_failed")))
      × (run (codes "count_eq") ≡ not (run (codes "count_lt") || run (codes "count_gt")))
      × ((run (codes "count_lt") && run (codes "count_gt")) ≡ false)
unfolding evaluate_condition condition_type
conditions_opposite cond ctx files r e = types_opposite cond ctx files r e

-- The name is in the list.
abbrev pub one_of : List Bytes → Bytes → Bool
one_of [] kind = false
one_of (name ∷ names) kind = bytes_eq kind name || one_of names kind

-- The types that look at a number, those that look at a file, and those that look at the result of
-- a step.
abbrev pub count_kinds : List Bytes
count_kinds = codes "count_gt" ∷ codes "count_lt" ∷ codes "count_eq" ∷ []

abbrev pub file_kinds : List Bytes
file_kinds = codes "file_exists" ∷ codes "file_not_exists" ∷ []

abbrev pub step_kinds : List Bytes
step_kinds =
    codes "has_matches"
    ∷ codes "no_matches"
    ∷ codes "step_succeeded"
    ∷ codes "step_failed"
    ∷ count_kinds

-- What a condition must have to be accepted, by the name of its type.
pub record IsAccepted (cond : StepCondition) (step_ids : List (Bytes × ℕ)) : Type 0 where
  pub known : (one_of step_kinds cond.kind || one_of file_kinds cond.kind) ≡ true
  pub ref_there :
      one_of step_kinds cond.kind ≡ true
      → (is_empty cond.step_ref ≡ false) × (has_key cond.step_ref step_ids ≡ true)
  pub value_there :
      one_of count_kinds cond.kind ≡ true
      → (is_empty cond.value ≡ false) × ((atoi cond.value).1 ≡ true)
  pub path_there : one_of file_kinds cond.kind ≡ true → is_empty cond.path ≡ false

-- The switches of the code ask for the names of the lists.
KindFacts : Bytes → Type 0
KindFacts kind =
    (is_known (condition_type kind) ≡ (one_of step_kinds kind || one_of file_kinds kind))
    × (needs_step_ref (condition_type kind) ≡ one_of step_kinds kind)
    × (needs_value (condition_type kind) ≡ one_of count_kinds kind)
    × (needs_path (condition_type kind) ≡ one_of file_kinds kind)

unless_named :
    (kind name : Bytes)
    → KindFacts name
    → (bytes_eq kind name ≡ false → KindFacts kind)
    → KindFacts kind
unless_named kind name here there = elim (Bool-cases (bytes_eq kind name)) [
  | inl e ↦ subst KindFacts (sym (eq_of_bytes_eq kind name e)) here
  | inr e ↦ there e
]

kind_facts : (kind : Bytes) → KindFacts kind
unfolding KindFacts condition_type
kind_facts kind =
    unless_named kind (codes "has_matches") (refl, refl, refl, refl)
      λ e₁.
        unless_named kind (codes "no_matches") (refl, refl, refl, refl)
          λ e₂.
            unless_named kind (codes "count_gt") (refl, refl, refl, refl)
              λ e₃.
                unless_named kind (codes "count_lt") (refl, refl, refl, refl)
                  λ e₄.
                    unless_named kind (codes "count_eq") (refl, refl, refl, refl)
                      λ e₅.
                        unless_named kind (codes "file_exists") (refl, refl, refl, refl)
                          λ e₆.
                            unless_named kind (codes "file_not_exists") (refl, refl, refl, refl)
                              λ e₇.
                                unless_named kind (codes "step_succeeded") (refl, refl, refl, refl)
                                  λ e₈.
                                    unless_named kind (codes "step_failed") (refl, refl, refl, refl)
                                      λ e₉.
                                        rw (e₁, e₂, e₃, e₄, e₅, e₆, e₇, e₈, e₉)
                                          (refl, refl, refl, refl)

accepted_by_parts :
    (known ref value path e₁ e₂ e₃ i e₄ : Bool) (a b c d e f : ConditionError)
    → ((do
      refuse_if (not known) a
      refuse_if (ref && e₁) b
      refuse_if (ref && not e₂) c
      refuse_if (value && e₃) d
      refuse_if (value && not i) e
      refuse_if (path && e₄) f)
        ≡ ok tt)
      ↔ ((known ≡ true)
          × (ref ≡ true → (e₁ ≡ false) × (e₂ ≡ true))
          × (value ≡ true → (e₃ ≡ false) × (i ≡ true))
          × (path ≡ true → e₄ ≡ false))
accepted_by_parts known ref value path e₁ e₂ e₃ i e₄ a b c d e f = ground arith

-- `ValidateCondition` accepts exactly the conditions whose type is one of the nine names, and that
-- have what the name asks for: for the four types on matches and success and the three on counts a
-- reference that is among the ids, for the three on counts a value that is an integer, and for the
-- two on files a path.
pub validate_condition_iff :
    (cond : StepCondition) (step_ids : List (Bytes × ℕ))
    → (validate_condition cond step_ids ≡ ok tt) ↔ IsAccepted cond step_ids
unfolding validate_condition KindFacts
validate_condition_iff cond step_ids =
    let t = condition_type cond.kind in
    let (fk, fr, fv, fp) = kind_facts cond.kind in
    let parts =
      accepted_by_parts (is_known t) (needs_step_ref t) (needs_value t) (needs_path t)
        (is_empty cond.step_ref) (has_key cond.step_ref step_ids) (is_empty cond.value)
        (atoi cond.value).1 (is_empty cond.path) (unsupported_type cond.kind)
        (requires_step_ref cond.kind) (step_ref_not_found cond.step_ref) (requires_value cond.kind)
        (value_not_an_integer cond.value) (requires_path cond.kind) in
    (
      (λ h.
          let (k, r, v, p) = parts.0 h in
          record {
            known = sym fk ∙ k;
            ref_there = λ e. r (fr ∙ e);
            value_there = λ e. v (fv ∙ e);
            path_there = λ e. p (fp ∙ e);
          }),
      (λ a. parts.1 (
        fk ∙ a.known,
        (λ e. a.ref_there (sym fr ∙ e)),
        (λ e. a.value_there (sym fv ∙ e)),
        (λ e. a.path_there (sym fp ∙ e)),
      )),
    )

-- A condition on the success or failure of a step that is among the ids.
pub step_condition-accepted :
    (cond : StepCondition) (step_ids : List (Bytes × ℕ))
    → is_empty cond.step_ref ≡ false
    → has_key cond.step_ref step_ids ≡ true
    → (cond.kind ≡ codes "step_succeeded") ⊎ (cond.kind ≡ codes "step_failed")
    → validate_condition cond step_ids ≡ ok tt
step_condition-accepted cond step_ids named there kind =
    (validate_condition_iff cond step_ids).1 (elim kind [
      | inl e ↦ record {
        known = subst (λ k. (one_of step_kinds k || one_of file_kinds k) ≡ true) (sym e) refl;
        ref_there = λ _. (named, there);
        value_there = λ h. absurd (cc (subst (λ k. one_of count_kinds k ≡ true) e h));
        path_there = λ h. absurd (cc (subst (λ k. one_of file_kinds k ≡ true) e h));
      }
      | inr e ↦ record {
        known = subst (λ k. (one_of step_kinds k || one_of file_kinds k) ≡ true) (sym e) refl;
        ref_there = λ _. (named, there);
        value_there = λ h. absurd (cc (subst (λ k. one_of count_kinds k ≡ true) e h));
        path_there = λ h. absurd (cc (subst (λ k. one_of file_kinds k ≡ true) e h));
      }
    ])

-- ===== src/Validate/References.antt =====
-- core/pipeline_types.go: what `Validate` promises of the references between steps.
use mcp_filesystem_go_ultra.Common.{
  ℕ, zero, suc, ◌+◌, ◌≤◌, ◌<◌, ◌≡◌, ◌≢◌, inl, inr, refl, sym, ap, subst, ◌∙◌, true, false, List, [],
  ◌∷◌, none, some, Bytes, bytes_eq, eq_of_bytes_eq, bytes_eq_of_eq, is_empty, length, get_elem?,
  lookup, insert, lookup-insert, All, ltb, leb, if◌then◌else◌, Bool-cases, Option-cases, arith,
  Result, ok, err, refuse_if, >>=-eq-ok,
}
use native.Mathlib.Nat.{zero-add}
use native.Mathlib.Numerals.{add-one}
use mcp_filesystem_go_ultra.Common.{dec_lt}
use mcp_filesystem_go_ultra.Pipeline.{PipelineStep}
use mcp_filesystem_go_ultra.Validate.{
  ValidationError, is_blank, validate_step, wrap_step, check_reference, check_references,
  check_input_from, check_condition, check_duplicate, check_entered, validate_steps,
  PipelineRequest, fill_ids, max_pipeline_steps, validate,
}

-- Step `j` has this id, and stands before step `i`.
abbrev pub StandsBefore : List PipelineStep → ℕ → Bytes → Type 0
StandsBefore steps i ref =
    (j : ℕ) × (s : PipelineStep) × (j < i) × (get_elem? steps j ≡ some s) × (s.id ≡ ref)

-- What the validation leaves of a step at index `i`.
pub record BackwardRefs (steps : List PipelineStep) (i : ℕ) (step : PipelineStep) : Type 0 where
  pub input_from_before : step.input_from ≢ [] → StandsBefore steps i step.input_from
  pub inputs_before : All (StandsBefore steps i) step.input_from_all
  pub id_is_new : (j : ℕ) (s : PipelineStep) → j < i → get_elem? steps j ≡ some s → s.id ≢ step.id

-- The map of ids holds exactly the steps before `i`.
record MapsIds (steps : List PipelineStep) (i : ℕ) (m : List (Bytes × ℕ)) : Type 0 where
  sound :
      (ref : Bytes) (j : ℕ)
      → lookup ref m ≡ some j
      → (s : PipelineStep) × (j < i) × (get_elem? steps j ≡ some s) × (s.id ≡ ref)
  complete : (j : ℕ) (s : PipelineStep) → j < i → get_elem? steps j ≡ some s → lookup s.id m ≢ none

-- A reference that passes stands before the step, also where the map holds the step itself.
check_reference-before :
    (steps : List PipelineStep) (i : ℕ) (id ref : Bytes) (m : List (Bytes × ℕ))
    → MapsIds steps (suc i) m
    → check_reference i id ref m ≡ ok tt
    → StandsBefore steps i ref
unfolding check_reference
check_reference-before steps i id ref m maps h = elim (Option-cases (lookup ref m)) [
  | inl n ↦ cc (rw (n, check_reference) at h)
  | inr (j, e) ↦
      let (s, lt, at_j, same) = maps.sound ref j e in
      (j, s, in_order j (rw (e, check_reference) at h), at_j, same)
]
  where
    in_order :
        (j : ℕ)
        → refuse_if {E = ValidationError} (leb i j) (ValidationError.forward_reference id ref)
          ≡ ok tt
        → j < i
    in_order j h = ground arith

check_references-before :
    (steps : List PipelineStep) (i : ℕ) (id : Bytes) (refs : List Bytes) (m : List (Bytes × ℕ))
    → MapsIds steps (suc i) m
    → check_references i id refs m ≡ ok tt
    → All (StandsBefore steps i) refs
unfolding check_references
check_references-before steps i id [] m maps h = tt
check_references-before steps i id (ref ∷ refs) m maps h =
    let (u, first, later) =
      >>=-eq-ok (check_reference i id ref m) (λ _. check_references i id refs m) h in
    (
      check_reference-before steps i id ref m maps first,
      check_references-before steps i id refs m maps later,
    )

check_input_from-before :
    (steps : List PipelineStep) (i : ℕ) (step : PipelineStep) (m : List (Bytes × ℕ))
    → MapsIds steps (suc i) m
    → check_input_from i step m ≡ ok tt
    → step.input_from ≢ []
    → StandsBefore steps i step.input_from
unfolding check_input_from
check_input_from-before steps i step m maps h n =
    check_reference-before steps i step.id step.input_from m maps (named step.input_from n h)
  where
    named :
        (ref : Bytes)
        → ref ≢ []
        → (if is_empty ref then ok tt else check_reference i step.id ref m) ≡ ok tt
        → check_reference i step.id ref m ≡ ok tt
    named [] n h = absurd (n refl)
    named (c ∷ ref) n h = h

MapsIds-insert :
    (steps : List PipelineStep) (i : ℕ) (step : PipelineStep) (m : List (Bytes × ℕ))
    → MapsIds steps i m
    → get_elem? steps i ≡ some step
    → MapsIds steps (suc i) (insert step.id i m)
MapsIds-insert steps i step m maps here = record { sound = sound; complete = complete }
  where
    sound :
        (ref : Bytes) (j : ℕ)
        → lookup ref (insert step.id i m) ≡ some j
        → (s : PipelineStep) × (j < suc i) × (get_elem? steps j ≡ some s) × (s.id ≡ ref)
    sound ref j h = elim (Bool-cases (bytes_eq step.id ref)) [
      | inl e ↦
          let same : some i ≡ some j = rw (lookup-insert step.id ref i m, e) at h in
          let at_i : i ≡ j = cc same in
          (
            step,
            omega arith,
            subst (λ k. get_elem? steps k ≡ some step) at_i here,
            eq_of_bytes_eq step.id ref e,
          )
      | inr e ↦
          let (s, lt, at_j, same) = maps.sound ref j (rw (lookup-insert step.id ref i m, e) at h) in
          (s, omega arith, at_j, same)
    ]

    complete :
        (j : ℕ) (s : PipelineStep)
        → j < suc i
        → get_elem? steps j ≡ some s
        → lookup s.id (insert step.id i m) ≢ none
    complete j s lt at_j = elim (Bool-cases (bytes_eq step.id s.id)) [
      | inl e ↦ λ h. cc (rw (lookup-insert step.id s.id i m, e) at h)
      | inr e ↦ λ h.
          let older : lookup s.id m ≡ none = rw (lookup-insert step.id s.id i m, e) at h in
          elim (dec_lt j i) [
            | yes before ↦ maps.complete j s before at_j older
            | no not_before ↦
                let at_i : j ≡ i = omega arith in
                let same : some s ≡ some step = sym at_j ∙ ap (get_elem? steps) at_i ∙ here in
                let same_step : s ≡ step = cc same in
                let same_id : step.id ≡ s.id = sym (ap (λ (t : PipelineStep). t.id) same_step) in
                cc (bytes_eq_of_eq step.id s.id same_id, e)
          ]
    ]

check_duplicate-new :
    (i : ℕ) (id : Bytes) (m : List (Bytes × ℕ))
    → check_duplicate i id m ≡ ok tt
    → lookup id m ≡ none
unfolding check_duplicate
check_duplicate-new i id m h = elim (Option-cases (lookup id m)) [
  | inl n ↦ n
  | inr (j, e) ↦ cc (rw (e, check_duplicate) at h)
]

-- One step of the loop, taken apart.
step_parts :
    (i : ℕ) (step : PipelineStep) (rest : List PipelineStep) (m : List (Bytes × ℕ))
    → validate_steps i (step ∷ rest) m ≡ ok tt
    → (validate_step step ≡ ok tt)
      × (check_duplicate i step.id m ≡ ok tt)
      × (check_input_from i step (insert step.id i m) ≡ ok tt)
      × (check_references i step.id step.input_from_all (insert step.id i m) ≡ ok tt)
      × (check_condition step.condition (insert step.id i m) ≡ ok tt)
      × (validate_steps (i + 1) rest (insert step.id i m) ≡ ok tt)
unfolding validate_steps check_entered wrap_step
step_parts i step rest m h =
    let m' = insert step.id i m in
    let (_, a, h₁) = >>=-eq-ok (wrap_step i step.id (validate_step step)) _ h in
    let (_, b, h₂) = >>=-eq-ok (check_duplicate i step.id m) _ h₁ in
    let (_, c, d) = >>=-eq-ok (check_entered i step m') (λ _. validate_steps (i + 1) rest m') h₂ in
    let (_, e, h₃) = >>=-eq-ok (check_input_from i step m') _ c in
    let (_, f, g) =
      >>=-eq-ok (check_references i step.id step.input_from_all m')
        (λ _. check_condition step.condition m') h₃ in
    (unwrap (validate_step step) a, b, e, f, g, d)
  where
    unwrap : (r : Result ValidationError (Unit {0})) → wrap_step i step.id r ≡ ok tt → r ≡ ok tt
    unwrap (ok u) h = refl
    unwrap (err e) h = cc h

-- The loop establishes it for every step from `i` on.
loop-BackwardRefs :
    (steps : List PipelineStep) (i : ℕ) (rest : List PipelineStep) (m : List (Bytes × ℕ))
    → MapsIds steps i m
    → ((k : ℕ) → get_elem? steps (i + k) ≡ get_elem? rest k)
    → validate_steps i rest m ≡ ok tt
    → (k : ℕ) (s : PipelineStep) → get_elem? rest k ≡ some s
    → BackwardRefs steps (i + k) s
loop-BackwardRefs steps i [] m maps tail h k s at_k = cc at_k
loop-BackwardRefs steps i (step ∷ rest) m maps tail h zero s at_k =
    let (valid, fresh, from, all, cond, later) = step_parts i step rest m h in
    let i_eq : i + 0 ≡ i = omega arith in
    let here : get_elem? steps i ≡ some step = rw i_eq at (tail 0) in
    let maps' = MapsIds-insert steps i step m maps here in
    let same_step : step ≡ s = cc at_k in
    rw i_eq (
      subst (BackwardRefs steps i) same_step (record {
        input_from_before = check_input_from-before steps i step (insert step.id i m) maps' from;
        inputs_before =
            check_references-before steps i step.id step.input_from_all (insert step.id i m) maps'
              all;
        id_is_new = λ j t lt at_j same_id.
            maps.complete j t lt at_j (rw same_id (check_duplicate-new i step.id m fresh));
      }))
loop-BackwardRefs steps i (step ∷ rest) m maps tail h (suc k) s at_k =
    let (valid, fresh, from, all, cond, later) = step_parts i step rest m h in
    let i_eq : i + 0 ≡ i = omega arith in
    let here : get_elem? steps i ≡ some step = rw i_eq at (tail 0) in
    let moved : (k : ℕ) → i + 1 + k ≡ i + suc k = λ k. omega arith in
    subst (λ n. BackwardRefs steps n s) (moved k)
      (loop-BackwardRefs steps (i + 1) rest (insert step.id i m)
        (subst (λ n. MapsIds steps n (insert step.id i m)) (sym (add-one i))
          (MapsIds-insert steps i step m maps here))
        (λ n. ap (get_elem? steps) (moved n) ∙ tail (suc n)) later k s at_k)

MapsIds-nil : (steps : List PipelineStep) → MapsIds steps 0 []
MapsIds-nil steps = record {
  sound = λ ref j h. cc h;
  complete = λ j s lt at_j. absurd (omega arith);
}

-- A validation that succeeds on a request that was not validated before.
validate-eq-ok :
    (pr pr' : PipelineRequest)
    → pr.validated ≡ false
    → validate pr ≡ ok pr'
    → (validate_steps 0 pr'.steps [] ≡ ok tt)
      × (pr'.steps ≡ fill_ids 0 pr.steps)
      × (0 < length pr'.steps)
      × (length pr'.steps ≤ max_pipeline_steps)
      × (pr'.validated ≡ true)
unfolding validate
validate-eq-ok pr pr' fresh h =
    let (_, a, h₁) =
      >>=-eq-ok (refuse_if (is_blank pr.name) ValidationError.name_required) _
        (rw (fresh, validate) at h) in
    let (_, b, h₂) =
      >>=-eq-ok (refuse_if (is_empty (fill_ids 0 pr.steps)) ValidationError.steps_required) _ h₁ in
    let (_, c, h₃) =
      >>=-eq-ok
        (refuse_if (ltb max_pipeline_steps (length (fill_ids 0 pr.steps)))
          (ValidationError.too_many_steps (length (fill_ids 0 pr.steps))))
        _ h₂ in
    let (_, d, e) = >>=-eq-ok (validate_steps 0 (fill_ids 0 pr.steps) []) _ h₃ in
    let same : pr' ≡ record pr { steps = fill_ids 0 pr.steps; validated = true } = cc e in
    let same_steps : pr'.steps ≡ fill_ids 0 pr.steps = ap (λ (q : PipelineRequest). q.steps) same in
    (
      rw same_steps d,
      same_steps,
      rw same_steps (not_empty (fill_ids 0 pr.steps) b),
      rw same_steps (in_bounds (length (fill_ids 0 pr.steps)) c),
      ap (λ (q : PipelineRequest). q.validated) same,
    )
  where
    not_empty :
        (l : List PipelineStep)
        → refuse_if (is_empty l) ValidationError.steps_required ≡ ok tt
        → 0 < length l
    not_empty [] h = cc h
    not_empty (x ∷ l) h = omega arith

    in_bounds :
        (n : ℕ)
        → refuse_if (ltb max_pipeline_steps n) (ValidationError.too_many_steps n) ≡ ok tt
        → n ≤ max_pipeline_steps
    in_bounds n h = ground arith

-- A request that passes the validation has from one to twenty steps, no two with one id, and each
-- `input_from` and each entry of `input_from_all` names a step that stands before its own.
pub validate_backward :
    (pr pr' : PipelineRequest)
    → pr.validated ≡ false
    → validate pr ≡ ok pr'
    → (0 < length pr'.steps)
      × (length pr'.steps ≤ 20)
      × ((i : ℕ) (step : PipelineStep)
          → get_elem? pr'.steps i ≡ some step
          → BackwardRefs pr'.steps i step)
validate_backward pr pr' fresh h =
    let (looped, _, least, most, _) = validate-eq-ok pr pr' fresh h in
    (
      least,
      most,
      λ i step at_i.
          subst (λ n. BackwardRefs pr'.steps n step) (zero-add i)
            (loop-BackwardRefs pr'.steps 0 pr'.steps [] (MapsIds-nil pr'.steps)
              (λ k. ap (get_elem? pr'.steps) (zero-add k)) looped i step at_i),
    )

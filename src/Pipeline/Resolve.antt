-- ===== src/Pipeline/Resolve.antt =====
-- core/pipeline_templates.go: what resolving the references leaves as it is.
use mcp_filesystem_go_ultra.Common.{
  ℕ, zero, suc, ◌+◌, ◌≡◌, inl, inr, refl, ap, subst, ◌∙◌, List, [], ◌∷◌, ◌++◌, none, some, Bytes,
  bytes_eq, lookup, Bool-cases, Option-cases, arith,
}
use mcp_filesystem_go_ultra.Common.{take, drop, take-append-drop}
use mcp_filesystem_go_ultra.Pipeline.{
  Param, Items, Fields, text, texts, items, object, other, nil, cons, end, field, PipelineContext,
  get_step_result,
}
use mcp_filesystem_go_ultra.Pipeline.Template.{
  Reference, match_reference, match_rest, replace_match, replace_all, has_braces, resolve_string,
  resolve_value, resolve_items, resolve_fields, resolve_templates,
}

-- No step has a result.
abbrev pub IsUnstarted : PipelineContext → Type 0
IsUnstarted ctx = (id : Bytes) → get_step_result id ctx ≡ none

module _ (ctx : PipelineContext) (fresh : IsUnstarted ctx) where
  replace_match-none : (ref : Reference) (match : Bytes) → replace_match ctx ref match ≡ match
  unfolding replace_match
  replace_match-none ref match = rw (fresh ref.step_id, replace_match) refl

  replace_all-drop : (skip : ℕ) (s : Bytes) → replace_all ctx skip s ≡ drop skip s
  unfolding replace_all
  replace_all-drop zero [] = refl
  replace_all-drop (suc skip) [] = refl
  replace_all-drop (suc skip) (c ∷ s) = replace_all-drop skip s
  replace_all-drop zero (c ∷ s) = elim (Option-cases (match_reference (c ∷ s))) [
    | inl e ↦ rw (e, replace_all) (ap (λ t. c ∷ t) (replace_all-drop 0 s))
    | inr (ref, e) ↦
        let next : suc (match_rest ref) ≡ match_rest ref + 1 = omega arith in
        let whole : take (match_rest ref + 1) (c ∷ s) ++ drop (match_rest ref) s ≡ c ∷ s =
          subst (λ k. take k (c ∷ s) ++ drop (match_rest ref) s ≡ c ∷ s) next
            (take-append-drop (suc (match_rest ref)) (c ∷ s)) in
        rw (e, replace_all)
          (ap (λ t. t ++ replace_all ctx (match_rest ref) s) (replace_match-none ref _)
            ∙ ap (λ t. take (match_rest ref + 1) (c ∷ s) ++ t) (replace_all-drop (match_rest ref) s)
            ∙ whole)
  ]

  resolve_string_same : (s : Bytes) → resolve_string s ctx ≡ s
  unfolding resolve_string
  resolve_string_same s = elim (Bool-cases (has_braces s)) [
    | inl e ↦ rw e (replace_all-drop 0 s)
    | inr e ↦ rw e refl
  ]

  mutual
    unfolding resolve_value

    value_same : (v : Param) → resolve_value v ctx ≡ v
    value_same (text s) = ap text (resolve_string_same s)
    value_same (items v) = ap items (items_same v)
    value_same (object v) = ap object (fields_same v)
    value_same (texts v) = refl
    value_same (other n) = refl

    items_same : (v : Items) → resolve_items v ctx ≡ v
    items_same nil = refl
    items_same (cons v rest) =
        ap (λ w. cons w (resolve_items rest ctx)) (value_same v) ∙ ap (cons v) (items_same rest)

    fields_same : (v : Fields) → resolve_fields v ctx ≡ v
    fields_same end = refl
    fields_same (field k v rest) =
        ap (λ w. field k w (resolve_fields rest ctx)) (value_same v)
        ∙ ap (field k v) (fields_same rest)

  -- Where no step has a result, every reference stays as it is written, and so do the parameters,
  -- however deep they are nested.
  pub resolve_templates_same :
      (params : List (Bytes × Param)) → resolve_templates params ctx ≡ params
  unfolding resolve_templates
  resolve_templates_same [] = refl
  resolve_templates_same ((k, v) ∷ params) =
      ap (λ w. (k, w) ∷ resolve_templates params ctx) (value_same v)
      ∙ ap (λ rest. (k, v) ∷ rest) (resolve_templates_same params)

-- Resolving the references keeps the keys: a parameter is there afterwards exactly when it was
-- there before, and its value is the resolved one.
pub lookup-resolve_templates :
    (key : Bytes) (params : List (Bytes × Param)) (ctx : PipelineContext)
    → (lookup key params ≡ none → lookup key (resolve_templates params ctx) ≡ none)
      × ((v : Param)
          → lookup key params ≡ some v
          → lookup key (resolve_templates params ctx) ≡ some (resolve_value v ctx))
unfolding resolve_templates
lookup-resolve_templates key [] ctx = ((λ h. refl), λ v h. absurd (cc h))
lookup-resolve_templates key ((k, w) ∷ params) ctx =
    let (gone, there) = lookup-resolve_templates key params ctx in
    elim (Bool-cases (bytes_eq k key)) [
      | inl e ↦ rw e ((λ h. absurd (cc h)), λ v h. cc h)
      | inr e ↦ rw e (gone, there)
    ]

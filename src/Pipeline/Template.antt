-- ===== src/Pipeline/Template.antt =====
-- core/pipeline_templates.go: references to the results of steps, `{{step_id.field}}`, replaced in
-- the parameters of a step. The matches of `templatePattern` are found from each byte on: an id
-- and a field have no byte in common with what stands behind them, so the longest ones are taken.
use mcp_filesystem_go_ultra.Common.{
  ℕ, zero, suc, ◌+◌, Bool, true, false, not, ◌&&◌, ◌||◌, List, [], ◌∷◌, ◌++◌, Option, none, some,
  Bytes, codes, bytes_eq, is_empty, length, leb, ◌==◌, if◌then◌else◌,
}
use mcp_filesystem_go_ultra.Common.{take, drop}
use mcp_filesystem_go_ultra.Common.Decimal.{show_nat}
use mcp_filesystem_go_ultra.Pipeline.{
  Param, Items, Fields, text, texts, items, object, other, nil, cons, end, field, StepResult,
  PipelineContext, get_step_result, total_count,
}

-- `strings.Join(files, ",")`
unfoldable pub join_comma : List Bytes → Bytes
join_comma [] = []
join_comma (t ∷ []) = t
join_comma (t ∷ u ∷ ts) = t ++ (b',' ∷ join_comma (u ∷ ts))

-- `resolveField`
unfoldable pub resolve_field : StepResult → Bytes → Bytes → Bytes
resolve_field r name fallback =
    if bytes_eq name (codes "count")
    then show_nat (total_count r)
    else if bytes_eq name (codes "files_count")
    then show_nat (length r.files_matched)
    else if bytes_eq name (codes "files")
    then join_comma r.files_matched
    else if bytes_eq name (codes "risk")
    then (if is_empty r.risk_level then codes "LOW" else r.risk_level)
    else if bytes_eq name (codes "edits")
    then show_nat r.edits_applied
    else fallback

abbrev pub is_letter : ℕ → Bool
is_letter c = (leb b'a' c && leb c b'z') || (leb b'A' c && leb c b'Z')

-- `[a-zA-Z0-9_-]`
abbrev pub is_reference_byte : ℕ → Bool
is_reference_byte c = is_letter c || ((leb b'0' c && leb c b'9') || (c == b'_' || c == b'-'))

-- `[a-zA-Z_]`
abbrev pub is_field_byte : ℕ → Bool
is_field_byte c = is_letter c || c == b'_'

-- The longest beginning whose bytes pass the test.
unfoldable pub leading : (ℕ → Bool) → Bytes → Bytes
leading test [] = []
leading test (c ∷ s) = let rest = leading test s in if test c then c ∷ rest else []

abbrev pub starts_with : Bytes → Bytes → Bool
starts_with [] s = true
starts_with (c ∷ p) [] = false
starts_with (c ∷ p) (d ∷ s) = c == d && starts_with p s

-- The two groups of a match of `templatePattern`.
pub record Reference : Type 0 where
  pub step_id : Bytes
  pub name : Bytes

-- The match that begins the text.
unfoldable pub match_reference : Bytes → Option Reference
unfolding leading
match_reference s =
    let id = leading is_reference_byte (drop 2 s) in
    let name = leading is_field_byte (drop (length id + 3) s) in
    if starts_with (codes "{{") s
      && (not (is_empty id)
          && (starts_with (codes ".") (drop (length id + 2) s)
              && (not (is_empty name)
                  && starts_with (codes "}}") (drop (length id + 3 + length name) s))))
    then some (record { step_id = id; name = name })
    else none

-- The number of bytes of a match, less one.
abbrev pub match_rest : Reference → ℕ
match_rest ref = length ref.step_id + length ref.name + 4

-- The function that `ReplaceAllStringFunc` calls on a match.
unfoldable pub replace_match : PipelineContext → Reference → Bytes → Bytes
replace_match ctx ref match = elim (get_step_result ref.step_id ctx) [
  | none ↦ match
  | some r ↦ resolve_field r ref.name match
]

-- `ReplaceAllStringFunc`, where the first `skip` bytes belong to a match that is replaced.
unfoldable pub replace_all : PipelineContext → ℕ → Bytes → Bytes
replace_all ctx skip [] = []
replace_all ctx (suc skip) (c ∷ s) = replace_all ctx skip s
replace_all ctx zero (c ∷ s) = elim (match_reference (c ∷ s)) [
  | none ↦ c ∷ replace_all ctx 0 s
  | some ref ↦
      replace_match ctx ref (take (match_rest ref + 1) (c ∷ s))
      ++ replace_all ctx (match_rest ref) s
]

-- `strings.Contains(s, "{{")`
unfoldable pub has_braces : Bytes → Bool
has_braces [] = false
has_braces (c ∷ s) = starts_with (codes "{{") (c ∷ s) || has_braces s

-- `resolveString`
unfoldable pub resolve_string : Bytes → PipelineContext → Bytes
resolve_string s ctx = if not (has_braces s) then s else replace_all ctx 0 s

-- `resolveValue`; a list of strings that is no list of values is left alone.
unfoldable mutual
  pub resolve_value : Param → PipelineContext → Param
  resolve_value (text s) ctx = text (resolve_string s ctx)
  resolve_value (items v) ctx = items (resolve_items v ctx)
  resolve_value (object v) ctx = object (resolve_fields v ctx)
  resolve_value (texts v) ctx = texts v
  resolve_value (other n) ctx = other n

  pub resolve_items : Items → PipelineContext → Items
  resolve_items nil ctx = nil
  resolve_items (cons v rest) ctx = cons (resolve_value v ctx) (resolve_items rest ctx)

  pub resolve_fields : Fields → PipelineContext → Fields
  resolve_fields end ctx = end
  resolve_fields (field k v rest) ctx = field k (resolve_value v ctx) (resolve_fields rest ctx)

-- `ResolveTemplates`
unfoldable pub resolve_templates : List (Bytes × Param) → PipelineContext → List (Bytes × Param)
unfolding resolve_value
resolve_templates [] ctx = []
resolve_templates ((k, v) ∷ params) ctx = (k, resolve_value v ctx) ∷ resolve_templates params ctx

-- ===== src/Whitespace.antt =====
-- core/whitespace_matcher.go: matching under tolerant white space. `normalize_from` walks the
-- bytes that are left with the index of the first of them; the search loop runs on fuel, with a
-- round for each byte of the normalized content and one more.
pub mod Normal
mod Tests
use mcp_filesystem_go_ultra.Common.{
  ℕ, zero, suc, ◌+◌, ◌-◌, ◌*◌, ◌≤◌, ◌<◌, ◌≡◌, ◌≢◌, ◌↔◌, ◌⊎◌, inl, inr, refl, sym, ap, subst, ◌∙◌,
  Bool, true, false, not, ◌&&◌, ◌||◌, List, [], ◌∷◌, ◌++◌, map, Option, none, some, append-nil,
  append_assoc, Bytes, codes, bytes_eq, bytes_eq_refl, eq_of_bytes_eq, bytes_eq_of_eq, is_empty,
  length, get_elem?, get_or, set, length-append, lookup, insert, has_key, lookup-insert, All, ltb,
  leb, ◌==◌, if◌then◌else◌, Bool-cases, Option-cases, arith, Result, ok, err, ◌>>=◌, ◌>>◌,
  refuse_if, >>=-eq-ok,
}
use mcp_filesystem_go_ultra.Common.{take, drop, newline}
use mcp_filesystem_go_ultra.Common.Int.{ℤ, pos, pos_part, ltb_ℤ}

pub record WhitespaceMatch : Type 0 where
  pub start_orig : ℕ
  pub end_orig : ℕ

abbrev pub default_indent_size : ℕ
default_indent_size = 4

-- The normalized bytes, and for each the byte of the original that it comes from.
pub record Normalized : Type 0 where
  pub content : Bytes
  pub byte_map : List ℕ

abbrev pub carriage_return : ℕ
carriage_return = 13

abbrev pub tab : ℕ
tab = 9

abbrev pub emit : ℕ → ℕ → Normalized → Normalized
emit c i r = record { content = c ∷ r.content; byte_map = i ∷ r.byte_map }

-- `for j := 0; j < indentSize; j++`
unfoldable pub emit_spaces : ℕ → ℕ → Normalized → Normalized
emit_spaces zero i r = r
emit_spaces (suc n) i r = emit b' ' i (emit_spaces n i r)

-- A byte that is no carriage return.
unfoldable pub emit_byte : ℕ → ℕ → ℕ → Normalized → Normalized
unfolding emit_spaces
emit_byte indent c i r = if c == tab then emit_spaces indent i r else emit c i r

-- The loop of `normalizeForTolerantMatch`, from index `i`.
unfoldable pub normalize_from : ℕ → ℕ → Bytes → Normalized
unfolding emit_byte
normalize_from indent i [] = record { content = []; byte_map = [] }
normalize_from indent i (c ∷ []) =
    let rest : Normalized = record { content = []; byte_map = [] } in
    if c == carriage_return then emit newline i rest else emit_byte indent c i rest
normalize_from indent i (c ∷ d ∷ s) =
    let after_two = normalize_from indent (i + 2) s in
    let after_one = normalize_from indent (i + 1) (d ∷ s) in
    if c == carriage_return
    then if d == newline then emit newline (i + 1) after_two else emit newline i after_one
    else emit_byte indent c i after_one

-- `normalizeForTolerantMatch`; an indent that is not positive is the default.
unfoldable pub normalize_for_tolerant_match : Bytes → ℤ → Normalized
unfolding normalize_from
normalize_for_tolerant_match s indent_size =
    normalize_from (if ltb_ℤ (pos 0) indent_size then pos_part indent_size else default_indent_size)
      0 s

abbrev pub is_prefix : Bytes → Bytes → Bool
is_prefix [] s = true
is_prefix (c ∷ p) [] = false
is_prefix (c ∷ p) (d ∷ s) = c == d && is_prefix p s

-- `strings.Index`, with `none` for -1.
unfoldable pub index_of : Bytes → Bytes → Option ℕ
index_of [] p = if is_empty p then some 0 else none
index_of (c ∷ s) p =
    let later = index_of s p in
    if is_prefix p (c ∷ s) then some 0 else elim later [ none ↦ none | some i ↦ some (i + 1) ]

-- The loop of `findAllTolerantMatches`.
unfoldable pub find_loop : ℕ → Normalized → Bytes → ℕ → List WhitespaceMatch
unfolding index_of
find_loop zero norm old search_from = []
find_loop (suc fuel) norm old search_from = elim (index_of (drop search_from norm.content) old) [
  | none ↦ []
  | some at ↦
      let idx = at + search_from in
      let end_norm = idx + length old - 1 in
      let found : WhitespaceMatch = record {
        start_orig = get_or norm.byte_map idx 0;
        end_orig = get_or norm.byte_map end_norm 0 + 1;
      } in
      let rest = find_loop fuel norm old (idx + length old) in
      if leb (length norm.byte_map) idx
      then []
      else if leb (length norm.byte_map) end_norm
      then []
      else if ltb (length norm.content) (idx + length old)
      then found ∷ []
      else found ∷ rest
]

-- `findAllTolerantMatches`
unfoldable pub find_all_tolerant_matches : Bytes → Bytes → List WhitespaceMatch
unfolding find_loop normalize_for_tolerant_match
find_all_tolerant_matches content old_text =
    let norm = normalize_for_tolerant_match content (pos default_indent_size) in
    let old = (normalize_for_tolerant_match old_text (pos default_indent_size)).content in
    if is_empty old_text
    then []
    else if is_empty old
    then []
    else find_loop (length norm.content + 1) norm old 0

-- One round of the insertion sort: the match moves left past every later start.
unfoldable pub insert_match : WhitespaceMatch → List WhitespaceMatch → List WhitespaceMatch
insert_match m [] = m ∷ []
insert_match m (x ∷ xs) =
    let rest = insert_match m xs in if ltb m.start_orig x.start_orig then m ∷ x ∷ xs else x ∷ rest

-- The sorted prefix takes one match after another.
unfoldable pub sort_matches : List WhitespaceMatch → List WhitespaceMatch → List WhitespaceMatch
unfolding insert_match
sort_matches sorted [] = sorted
sort_matches sorted (m ∷ ms) = sort_matches (insert_match m sorted) ms

-- The loop that writes, from `cursor` on: the text, and the number of replacements.
unfoldable pub write_matches : Bytes → Bytes → ℕ → List WhitespaceMatch → Bytes × ℕ
write_matches content new_text cursor [] = (drop cursor content, 0)
write_matches content new_text cursor (m ∷ ms) = elim (ltb m.start_orig cursor) [
  | true ↦ write_matches content new_text cursor ms
  | false ↦
      let (rest, applied) = write_matches content new_text m.end_orig ms in
      (take (m.start_orig - cursor) (drop cursor content) ++ (new_text ++ rest), applied + 1)
]

-- `applyTolerantMatches`
unfoldable pub apply_tolerant_matches : Bytes → List WhitespaceMatch → Bytes → Bytes × ℕ
unfolding sort_matches write_matches
apply_tolerant_matches content matches new_text =
    if is_empty matches
    then (content, 0)
    else write_matches content new_text 0 (sort_matches [] matches)

-- ===== src/Edit/Cascade.antt =====
-- core/edit_operations.go: `performIntelligentEdit`. Each strategy is a definition; the lines of the
-- scanner are those of the content, which has no carriage return once its endings are normalized.
use mcp_filesystem_go_ultra.Common.{
  ℕ, ◌+◌, ◌-◌, Bool, false, not, ◌&&◌, ◌||◌, List, [], ◌∷◌, ◌++◌, Option, none, some, Bytes, codes,
  bytes_eq, is_empty, length, ltb, leb, if◌then◌else◌, Result, err,
}
use mcp_filesystem_go_ultra.Common.{newline, count_byte, drop, take, slice}
use mcp_filesystem_go_ultra.Common.Search.{index_of, contains, count_text, replace_all}
use mcp_filesystem_go_ultra.Whitespace.{
  WhitespaceMatch, find_all_tolerant_matches, apply_tolerant_matches, tab,
}
use mcp_filesystem_go_ultra.Render.{split_lines}
use mcp_filesystem_go_ultra.Edit.{
  EditResult, Confidence, high, medium, low, EditError, old_text_empty, scanner_error, out_of_fuel,
  Attempt, done, pass, fail, or_else, conclude, Regexp, Library,
}
use mcp_filesystem_go_ultra.Edit.Eol.{lf, normalize_line_endings, normalize_literal_escapes}
use mcp_filesystem_go_ultra.Edit.Lines.{
  trim_space, join_lines, is_indent, get_indentation, quote_meta, make_flexible_pattern,
  count_affected_lines, calculate_lines_with_text,
}
use mcp_filesystem_go_ultra.Edit.Indent.{
  normalize_indentation, convert_leading_spaces_to_tabs, convert_leading_tabs_to_spaces,
  map_normalized_index,
}
use mcp_filesystem_go_ultra.Edit.Walk.{Walk, begin_walk, walk, walked_text}

-- A result without the lines of the first and the last edit.
abbrev pub result_of : Bytes → ℕ → Confidence → ℕ → EditResult
result_of text count confidence lines = record {
  modified_content = text;
  replacement_count = count;
  match_confidence = confidence;
  lines_affected = lines;
  start_line = 0;
  end_line = 0;
}

-- The absolute difference of two counts.
abbrev pub distance : ℕ → ℕ → ℕ
distance a b = (a - b) + (b - a)

abbrev pub last_end : WhitespaceMatch → List WhitespaceMatch → ℕ
last_end m [] = m.end_orig
last_end m (n ∷ matches) = last_end n matches

-- The tolerant strategy, for the matches found.
unfoldable pub tolerant_result : Bytes → Bytes → List WhitespaceMatch → Attempt
unfolding contains apply_tolerant_matches
tolerant_result content new_text [] = pass
tolerant_result content new_text (m ∷ matches) =
    let (text, applied) = apply_tolerant_matches content (m ∷ matches) new_text in
    let start = m.start_orig in
    let stop = last_end m matches in
    let one_line = not (contains new_text lf) && not (contains (slice start stop content) lf) in
    if ltb 0 applied
    then done (record {
      modified_content = text;
      replacement_count = applied;
      match_confidence = high;
      lines_affected =
          if one_line then 1 else distance (count_byte newline text) (count_byte newline content);
      start_line = count_byte newline (take start content) + 1;
      end_line = count_byte newline (take stop content) + 1;
    })
    else pass

unfoldable pub tolerant_edit : Bool → Bytes → Bytes → Bytes → Attempt
unfolding find_all_tolerant_matches tolerant_result
tolerant_edit tolerant content old_text new_text =
    if tolerant
    then tolerant_result content new_text (find_all_tolerant_matches content old_text)
    else pass

-- The end of the first strategy, whose first match is at `first_idx`.
abbrev pub exact_record : Bytes → Bytes → ℕ → Walk → EditResult
exact_record content old_text first_idx w = record {
  modified_content = walked_text content w;
  replacement_count = count_text content old_text;
  match_confidence = high;
  lines_affected = w.lines_affected;
  start_line = count_byte newline (take first_idx content) + 1;
  end_line = count_byte newline (take w.end_offset content) + 1;
}

unfoldable pub exact_result : Bytes → Bytes → ℕ → Option Walk → Attempt
exact_result content old_text first_idx none = fail out_of_fuel
exact_result content old_text first_idx (some w) = done (exact_record content old_text first_idx w)

unfoldable pub exact_edit : ℕ → Bytes → Bytes → Bytes → Attempt
unfolding index_of walk exact_result
exact_edit fuel content old_text new_text = elim (index_of content old_text) [
  | none ↦ pass
  | some idx ↦ exact_result content old_text idx (walk fuel content old_text new_text begin_walk)
]

-- The end of the third strategy.
unfoldable pub trimmed_result : Bytes → Bytes → Option Walk → Attempt
unfolding calculate_lines_with_text
trimmed_result content normalized_old none = fail out_of_fuel
trimmed_result content normalized_old (some w) = done (
    result_of (walked_text content w) (count_text content normalized_old) high
      (calculate_lines_with_text content normalized_old))

unfoldable pub trimmed_edit : ℕ → Bytes → Bytes → Bytes → Attempt
unfolding trim_space contains walk trimmed_result
trimmed_edit fuel content old_text new_text =
    let normalized_old = trim_space old_text in
    if not (bytes_eq normalized_old old_text) && contains content normalized_old
    then trimmed_result content normalized_old
        (walk fuel content normalized_old new_text begin_walk)
    else pass

-- The fourth strategy: one line, with the number of replacements, if any branch applies.
unfoldable pub edit_line : Bytes → Bytes → Bytes → Option (Bytes × ℕ)
unfolding trim_space contains
edit_line old_text new_text original_line =
    let normalized_old = trim_space old_text in
    if contains original_line old_text
    then some (replace_all original_line old_text new_text, count_text original_line old_text)
    else if bytes_eq (trim_space original_line) normalized_old
    then some (get_indentation original_line ++ trim_space new_text, 1)
    else if contains original_line normalized_old
    then some
        (replace_all original_line normalized_old new_text, count_text original_line normalized_old)
    else none

-- The loop over the lines: the lines written, the replacements and the affected lines.
pub record LineEdit : Type 0 where
  pub lines : List Bytes
  pub replacements : ℕ
  pub affected_lines : ℕ

abbrev pub add_line : Bytes → Option (Bytes × ℕ) → LineEdit → LineEdit
add_line original_line none e = record {
  lines = original_line ∷ e.lines;
  replacements = e.replacements;
  affected_lines = e.affected_lines;
}
add_line original_line (some (line, count)) e = record {
  lines = line ∷ e.lines;
  replacements = count + e.replacements;
  affected_lines = 1 + e.affected_lines;
}

unfoldable pub edit_lines : Bytes → Bytes → List Bytes → LineEdit
unfolding edit_line
edit_lines old_text new_text [] = record { lines = []; replacements = 0; affected_lines = 0 }
edit_lines old_text new_text (l ∷ ls) =
    add_line l (edit_line old_text new_text l) (edit_lines old_text new_text ls)

-- `bufio.MaxScanTokenSize`: a line of so many bytes ends the scanner with an error.
abbrev pub max_scan_token_size : ℕ
max_scan_token_size = 65536

abbrev pub has_long_line : List Bytes → Bool
has_long_line [] = false
has_long_line (l ∷ ls) = leb max_scan_token_size (length l) || has_long_line ls

unfoldable pub line_edit : Bytes → Bytes → Bytes → Attempt
unfolding split_lines edit_lines
line_edit content old_text new_text =
    let lines = split_lines content in
    let e = edit_lines old_text new_text lines in
    if has_long_line lines
    then fail scanner_error
    else if ltb 0 e.affected_lines
    then done (result_of (join_lines e.lines) e.replacements medium e.affected_lines)
    else pass

-- The fifth strategy.
unfoldable pub multiline_edit : Bytes → Bytes → Bytes → Attempt
unfolding contains
multiline_edit content old_text new_text =
    if contains content old_text
    then done (
        result_of (replace_all content old_text new_text) 1 medium
          (count_byte newline old_text + 1))
    else pass

-- The sixth strategy.
unfoldable pub escape_edit : Bytes → Bytes → Bytes → Attempt
unfolding normalize_literal_escapes contains
escape_edit content old_text new_text =
    let converted_old = normalize_literal_escapes old_text in
    let converted_new = normalize_literal_escapes new_text in
    if not (bytes_eq converted_old old_text) && contains content converted_old
    then done (
        result_of (replace_all content converted_old converted_new)
          (count_text content converted_old) high (count_byte newline converted_old + 1))
    else pass

-- `strings.ContainsAny(s, "\t ")`
abbrev pub has_blanks : Bytes → Bool
has_blanks [] = false
has_blanks (c ∷ s) = is_indent c || has_blanks s

-- The seventh strategy, where the match of the content is known.
unfoldable pub replace_range : Bytes → Bytes → ℕ → ℕ → Attempt
unfolding convert_leading_spaces_to_tabs convert_leading_tabs_to_spaces
replace_range content new_text start stop =
    let original_match = slice start stop content in
    let uses_tabs =
      ltb (count_text original_match (codes "    ")) (count_byte tab original_match) in
    let adjusted =
      if uses_tabs
      then convert_leading_spaces_to_tabs new_text
      else convert_leading_tabs_to_spaces new_text in
    if ltb start stop && leb stop (length content)
    then done (
        result_of (take start content ++ (adjusted ++ drop stop content)) 1 medium
          (count_byte newline original_match + 1))
    else pass

unfoldable pub indent_edit : Library → Bytes → Bytes → Bytes → Attempt
unfolding normalize_indentation map_normalized_index index_of replace_range
indent_edit library content old_text new_text =
    let normalized = normalize_indentation content in
    let normalized_old = normalize_indentation old_text in
    let back = map_normalized_index library.proportion content normalized in
    if has_blanks old_text
    then elim (index_of normalized normalized_old) [
      | none ↦ pass
      | some idx ↦ replace_range content new_text (back idx) (back (idx + length normalized_old))
    ]
    else pass

-- The eighth strategy, for contents of less than 100 KB.
unfoldable pub flexible_result : Bytes → Bytes → Option Regexp → Attempt
unfolding count_affected_lines
flexible_result content new_text none = pass
flexible_result content new_text (some re) =
    let matches = re.find_all_string content in
    if is_empty matches
    then pass
    else done (
        result_of (re.replace_all_string content new_text) (length matches) low
          (count_affected_lines content matches))

unfoldable pub flexible_edit : Library → Bytes → Bytes → Bytes → Attempt
unfolding make_flexible_pattern flexible_result
flexible_edit library content old_text new_text =
    if ltb (length content) 102400
    then flexible_result content new_text
        (library.compile (make_flexible_pattern (quote_meta old_text)))
    else pass

-- The strategies behind the third one, in order.
unfoldable pub late_edit : Library → Bytes → Bytes → Bytes → Attempt
unfolding line_edit multiline_edit escape_edit indent_edit flexible_edit
late_edit library content old_text new_text = or_else (line_edit content old_text new_text) (
    or_else (multiline_edit content old_text new_text) (
      or_else (escape_edit content old_text new_text) (
        or_else (indent_edit library content old_text new_text)
          (flexible_edit library content old_text new_text))))

-- All of them, on texts with line feeds only.
unfoldable pub cascade : Library → ℕ → Bool → Bytes → Bytes → Bytes → Attempt
unfolding tolerant_edit exact_edit trimmed_edit late_edit
cascade library fuel tolerant content old_text new_text =
    or_else (tolerant_edit tolerant content old_text new_text) (
      or_else (exact_edit fuel content old_text new_text) (
        or_else (trimmed_edit fuel content old_text new_text)
          (late_edit library content old_text new_text)))

-- `performIntelligentEdit`
unfoldable pub perform_intelligent_edit :
    Library → ℕ → Bytes → Bytes → Bytes → Bool → Result EditError EditResult
unfolding cascade normalize_line_endings
perform_intelligent_edit library fuel content old_text new_text tolerant =
    if is_empty old_text
    then err old_text_empty
    else conclude (
        cascade library fuel tolerant (normalize_line_endings content)
          (normalize_line_endings old_text) (normalize_line_endings new_text))

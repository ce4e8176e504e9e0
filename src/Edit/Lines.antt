-- ===== src/Edit/Lines.antt =====
-- core/edit_operations.go: the helpers on lines, the pattern of the last strategy, and the counts.
use mcp_filesystem_go_ultra.Common.{
  ℕ, zero, suc, ◌+◌, Bool, false, not, ◌&&◌, ◌||◌, List, [], ◌∷◌, ◌++◌, map, none, some, Bytes,
  codes, is_empty, length, ltb, ◌==◌, if◌then◌else◌,
}
use mcp_filesystem_go_ultra.Common.{newline, count_byte, take}
use mcp_filesystem_go_ultra.Common.Search.{count_text, replace_all, contains, index_of}
use mcp_filesystem_go_ultra.Whitespace.{tab}
use mcp_filesystem_go_ultra.Validate.{space_1, space_2, space_3}
use mcp_filesystem_go_ultra.Render.{split_newline}
use mcp_filesystem_go_ultra.Edit.Eol.{normalize_line_endings, literal_newline}

-- The number of bytes of the white space that the text begins with, 0 when there is none.
unfoldable pub space_width : Bytes → ℕ
space_width [] = 0
space_width (c ∷ []) = if space_1 c then 1 else 0
space_width (c ∷ d ∷ []) = if space_1 c then 1 else if space_2 c d then 2 else 0
space_width (c ∷ d ∷ e ∷ s) =
    if space_1 c then 1 else if space_2 c d then 2 else if space_3 c d e then 3 else 0

-- The text without the white space that it begins with; `skip` bytes of it are still to drop.
unfoldable pub skip_space : ℕ → Bytes → Bytes
unfolding space_width
skip_space skip [] = []
skip_space (suc skip) (c ∷ s) = skip_space skip s
skip_space zero (c ∷ s) = elim (space_width (c ∷ s)) [
  | zero ↦ c ∷ s
  | suc width ↦ skip_space width s
]

-- The text without the white space that it ends with.
unfoldable pub trim_right_space : Bytes → Bytes
unfolding skip_space
trim_right_space [] = []
trim_right_space (c ∷ s) =
    let rest = trim_right_space s in if is_empty (skip_space 0 (c ∷ s)) then [] else c ∷ rest

-- `strings.TrimSpace`
unfoldable pub trim_space : Bytes → Bytes
unfolding skip_space trim_right_space
trim_space s = trim_right_space (skip_space 0 s)

-- `strings.Join(lines, "\n")`
abbrev pub join_lines : List Bytes → Bytes
join_lines [] = []
join_lines (l ∷ []) = l
join_lines (l ∷ m ∷ ls) = l ++ newline ∷ join_lines (m ∷ ls)

-- `strings.TrimRight(line, " \t")`, and each line of a text so trimmed.
abbrev pub is_indent : ℕ → Bool
is_indent c = c == b' ' || c == tab

abbrev pub trim_right_blanks : Bytes → Bytes
trim_right_blanks [] = []
trim_right_blanks (c ∷ s) =
    let rest = trim_right_blanks s in if is_empty rest && is_indent c then [] else c ∷ rest

unfoldable pub trim_trailing_spaces_per_line : Bytes → Bytes
unfolding split_newline
trim_trailing_spaces_per_line s = join_lines (map trim_right_blanks (split_newline s))

-- `getIndentation`, and what is left of the line behind it.
abbrev pub get_indentation : Bytes → Bytes
get_indentation [] = []
get_indentation (c ∷ s) = let rest = get_indentation s in if is_indent c then c ∷ rest else []

abbrev pub behind_indentation : Bytes → Bytes
behind_indentation [] = []
behind_indentation (c ∷ s) = let rest = behind_indentation s in if is_indent c then rest else c ∷ s

-- `regexp.QuoteMeta`: a backslash before each of \.+*?()|[]{}^$
abbrev pub is_meta : ℕ → Bool
is_meta c =
    (c == 92 || c == b'.' || c == b'+' || c == b'*' || c == b'?' || c == b'(' || c == b')')
    || (c == b'|' || c == b'[' || c == b']' || c == b'{' || c == b'}' || c == b'^' || c == b'$')

abbrev pub quote_meta : Bytes → Bytes
quote_meta [] = []
quote_meta (c ∷ s) = if is_meta c then 92 ∷ c ∷ quote_meta s else c ∷ quote_meta s

-- The pieces of `makeFlexiblePattern`: a backslash and a space, and the two replacements.
abbrev pub escaped_space : Bytes
escaped_space = 92 ∷ b' ' ∷ []

abbrev pub any_spaces : Bytes
any_spaces = 92 ∷ codes "s+"

abbrev pub spaced_newline : Bytes
spaced_newline = 92 ∷ codes "s*" ++ (92 ∷ codes "n" ++ (92 ∷ codes "s*"))

unfoldable pub make_flexible_pattern : Bytes → Bytes
make_flexible_pattern escaped =
    replace_all (replace_all escaped escaped_space any_spaces) literal_newline spaced_newline

-- The keys of the map of `countAffectedLines`: `k` lines from `n` on are added.
abbrev pub has_line : ℕ → List ℕ → Bool
has_line n [] = false
has_line n (m ∷ ls) = (m == n) || has_line n ls

abbrev pub add_lines : ℕ → ℕ → ℕ → List ℕ → List ℕ
add_lines total zero n affected = affected
add_lines total (suc k) n affected =
    if not (ltb n total)
    then affected
    else if has_line n affected
    then add_lines total k (n + 1) affected
    else add_lines total k (n + 1) (n ∷ affected)

unfoldable pub affected_by : Bytes → List Bytes → List ℕ → List ℕ
unfolding index_of
affected_by content [] affected = affected
affected_by content (m ∷ matches) affected = elim (index_of content m) [
  | none ↦ affected_by content matches affected
  | some idx ↦ affected_by content matches (
      add_lines (count_byte newline content + 1) (count_byte newline m + 1)
        (count_byte newline (take idx content)) affected)
]

-- `countAffectedLines`
unfoldable pub count_affected_lines : Bytes → List Bytes → ℕ
unfolding affected_by
count_affected_lines content matches = length (affected_by content matches [])

-- `calculateLinesWithText`
abbrev pub count_lines_with : Bytes → List Bytes → ℕ
count_lines_with text [] = 0
count_lines_with text (l ∷ ls) = (if contains l text then 1 else 0) + count_lines_with text ls

unfoldable pub calculate_lines_with_text : Bytes → Bytes → ℕ
unfolding split_newline
calculate_lines_with_text content text = count_lines_with text (split_newline content)

-- `strings.ReplaceAll(s, "\t", "    ")`
abbrev pub expand_tabs : Bytes → Bytes
expand_tabs s = replace_all s (tab ∷ []) (codes "    ")

-- `countOccurrencesTolerant`
unfoldable pub count_occurrences_tolerant : Bytes → Bytes → Bool → ℕ
unfolding normalize_line_endings
count_occurrences_tolerant haystack needle tolerant_whitespace =
    if is_empty needle
    then 0
    else if not tolerant_whitespace
    then count_text haystack needle
    else count_text (normalize_line_endings (expand_tabs haystack))
        (normalize_line_endings (expand_tabs needle))

-- ===== src/Edit/Indent.antt =====
-- core/edit_operations.go: the helpers on tabs and spaces: `normalizeIndentation`, the way back from
-- its indices (`mapNormalizedIndex`), `convertLeadingSpacesToTabs` and `convertLeadingTabsToSpaces`.
use mcp_filesystem_go_ultra.Common.{
  ℕ, zero, suc, ◌+◌, ◌-◌, not, ◌&&◌, ◌++◌, map, Bytes, length, get_or, ltb, leb, ◌==◌,
  if◌then◌else◌,
}
use mcp_filesystem_go_ultra.Common.{newline, drop, replicate}
use mcp_filesystem_go_ultra.Whitespace.{tab}
use mcp_filesystem_go_ultra.Render.{split_newline}
use mcp_filesystem_go_ultra.Edit.Lines.{
  join_lines, is_indent, get_indentation, behind_indentation, expand_tabs,
}

-- One line of `normalizeIndentation` and of `convertLeadingTabsToSpaces`.
abbrev pub spaces_line : Bytes → Bytes
spaces_line line = expand_tabs (get_indentation line) ++ behind_indentation line

unfoldable pub normalize_indentation : Bytes → Bytes
unfolding split_newline
normalize_indentation s = join_lines (map spaces_line (split_newline s))

-- Four at a time: the quotient and the remainder.
abbrev pub quarters : ℕ → ℕ × ℕ
quarters (suc (suc (suc (suc n)))) = let (q, r) = quarters n in (q + 1, r)
quarters n = (0, n)

-- One line of `convertLeadingSpacesToTabs`.
abbrev pub tabs_line : Bytes → Bytes
tabs_line line =
    let (tabs, remainder) = quarters (length (expand_tabs (get_indentation line))) in
    replicate tabs tab ++ (replicate remainder b' ' ++ behind_indentation line)

unfoldable pub convert_leading_spaces_to_tabs : Bytes → Bytes
unfolding split_newline
convert_leading_spaces_to_tabs s = join_lines (map tabs_line (split_newline s))

unfoldable pub convert_leading_tabs_to_spaces : Bytes → Bytes
unfolding split_newline
convert_leading_tabs_to_spaces s = join_lines (map spaces_line (split_newline s))

-- The loop of `mapNormalizedIndex`: the index moves on in each round, so that fuel for the index
-- looked for is enough.
unfoldable pub map_index_loop : (ℕ → ℕ → ℕ → ℕ) → Bytes → Bytes → ℕ → ℕ → ℕ → ℕ → ℕ
map_index_loop proportion original normalized norm_idx zero oi ni = oi
map_index_loop proportion original normalized norm_idx (suc fuel) oi ni =
    let o = get_or original oi 0 in
    let n = get_or normalized ni 0 in
    let norm_ws = length (get_indentation (drop ni normalized)) in
    let orig_ws = length (get_indentation (drop oi original)) in
    let one_on = map_index_loop proportion original normalized norm_idx fuel (oi + 1) (ni + 1) in
    let run_on =
      map_index_loop proportion original normalized norm_idx fuel (oi + orig_ws) (ni + norm_ws) in
    if not (ltb ni norm_idx && ltb oi (length original))
    then oi
    else if o == newline && n == newline
    then one_on
    else if is_indent n && is_indent o
    then (if leb norm_idx (ni + norm_ws)
        then oi + proportion (norm_idx - ni) norm_ws orig_ws
        else run_on)
    else one_on

-- `mapNormalizedIndex`
unfoldable pub map_normalized_index : (ℕ → ℕ → ℕ → ℕ) → Bytes → Bytes → ℕ → ℕ
unfolding map_index_loop
map_normalized_index proportion original normalized norm_idx =
    if norm_idx == 0
    then 0
    else if leb (length normalized) norm_idx
    then length original
    else map_index_loop proportion original normalized norm_idx norm_idx 0 0

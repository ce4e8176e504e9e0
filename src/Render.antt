-- ===== src/Render.antt =====
-- core/diff.go: `splitLines`, the printers `formatHunksFull` and `formatHunksSummary`, and their
-- callers `UnifiedDiffContext`, `DiffStats` and `RenderDiff`.
pub mod Empty
mod Tests
use mcp_filesystem_go_ultra.Common.{
  ℕ, zero, suc, ◌+◌, ◌-◌, ◌*◌, Bool, true, false, not, ◌&&◌, List, [], ◌∷◌, ◌++◌, Option, none,
  some, Bytes, codes, bytes_eq, is_empty, newline, ends_with, count_byte, concat, map, length, take,
  drop, ltb, leb, ◌==◌, if◌then◌else◌,
}
use mcp_filesystem_go_ultra.Common.Decimal.{show_int}
use mcp_filesystem_go_ultra.Common.Int.{ℤ, pos}
use mcp_filesystem_go_ultra.Diff.{Edit, diff, count_changes}
use mcp_filesystem_go_ultra.Hunk.{Hunk, plus, minus, compute_hunks}
use mcp_filesystem_go_ultra.Hunk.Counts.{marked, count_lines}

-- `splitLines`: the parts between newlines, without the empty part behind the last one.
abbrev pub add_to_first : ℕ → List Bytes → List Bytes
add_to_first c [] = (c ∷ []) ∷ []
add_to_first c (l ∷ ls) = (c ∷ l) ∷ ls

-- `strings.Split(s, "\n")`
unfoldable pub split_newline : Bytes → List Bytes
split_newline [] = [] ∷ []
split_newline (c ∷ s) =
    let rest = split_newline s in if c == newline then [] ∷ rest else add_to_first c rest

unfoldable pub drop_phantom : List Bytes → List Bytes
drop_phantom [] = []
drop_phantom (l ∷ []) = if is_empty l then [] else l ∷ []
drop_phantom (l ∷ m ∷ ls) = l ∷ drop_phantom (m ∷ ls)

unfoldable pub split_lines : Bytes → List Bytes
split_lines s = if is_empty s then [] else drop_phantom (split_newline s)

-- `writeDiffLine`
unfoldable pub write_diff_line : Bytes → Bytes
write_diff_line line = if ends_with newline line then line else line ++ newline ∷ []

-- `diffAutoSummaryThreshold`
abbrev pub diff_auto_summary_threshold : ℕ
diff_auto_summary_threshold = 200

-- `diffSummaryAnchorLines`
abbrev pub diff_summary_anchor_lines : ℕ
diff_summary_anchor_lines = 3

-- "…" in UTF-8
abbrev pub ellipsis : Bytes
ellipsis = 0xe2 ∷ 0x80 ∷ 0xa6 ∷ []

-- "—" in UTF-8
abbrev pub em_dash : Bytes
em_dash = 0xe2 ∷ 0x80 ∷ 0x94 ∷ []

-- `strings.TrimSuffix(s, "\n")`
unfoldable pub trim_newline : Bytes → Bytes
trim_newline [] = []
trim_newline (c ∷ []) = if c == newline then [] else c ∷ []
trim_newline (c ∷ d ∷ s) = c ∷ trim_newline (d ∷ s)

-- `(*hunk).header`
unfoldable pub header : Hunk → Bytes
header h = concat (
    codes "@@ -"
    ∷ show_int h.old_start
    ∷ codes ","
    ∷ show_int (pos h.old_count)
    ∷ codes " +"
    ∷ show_int h.new_start
    ∷ codes ","
    ∷ show_int (pos h.new_count)
    ∷ codes " @@"
    ∷ (newline ∷ [])
    ∷ [])

-- The two lines that name the file.
unfoldable pub file_lines : Bytes → Bytes
file_lines file_path =
    concat (
      codes "--- a/"
      ∷ file_path
      ∷ (newline ∷ [])
      ∷ codes "+++ b/"
      ∷ file_path
      ∷ (newline ∷ [])
      ∷ [])

unfoldable pub format_hunks_full : List Hunk → Bytes → Bytes
format_hunks_full hunks file_path =
    file_lines file_path
    ++ concat (map (λ h. header h ++ concat (map write_diff_line h.lines)) hunks)

-- One hunk of the summary.
unfoldable pub summarize : ℕ → Hunk → Bytes
summarize anchor h =
    let added = count_lines (marked plus) h.lines in
    let deleted = count_lines (marked minus) h.lines in
    let size = length h.lines in
    let title = concat (
      trim_newline (header h)
      ∷ codes " (+"
      ∷ show_int (pos added)
      ∷ codes " -"
      ∷ show_int (pos deleted)
      ∷ codes ")"
      ∷ (newline ∷ [])
      ∷ []) in
    let elided = concat (
      codes "    "
      ∷ ellipsis
      ∷ codes " "
      ∷ show_int (pos (size - 2 * anchor))
      ∷ codes " more line(s) "
      ∷ ellipsis
      ∷ (newline ∷ [])
      ∷ []) in
    title
    ++ (if leb size (2 * anchor)
        then concat (map write_diff_line h.lines)
        else concat (map write_diff_line (take anchor h.lines))
          ++ (elided ++ concat (map write_diff_line (drop (size - anchor) h.lines))))

unfoldable pub format_hunks_summary : List Hunk → Bytes → ℕ → Bytes
format_hunks_summary hunks file_path anchor =
    file_lines file_path ++ concat (map (summarize anchor) hunks)

-- `UnifiedDiffContext`
unfoldable pub unified_diff_context : Bytes → Bytes → Bytes → ℕ → Bytes
unified_diff_context old_content new_content file_path context_lines =
    let hunks = compute_hunks (split_lines old_content) (split_lines new_content) context_lines in
    if is_empty hunks then [] else format_hunks_full hunks file_path

-- `DiffStats`
unfoldable pub diff_stats : Bytes → Bytes → Bytes
diff_stats old_content new_content =
    let (added, removed) = count_changes (split_lines old_content) (split_lines new_content) in
    concat (codes "+" ∷ show_int (pos added) ∷ codes " -" ∷ show_int (pos removed) ∷ [])

-- The `default` branch of `RenderDiff`: the full diff, or the summary and a hint.
unfoldable pub render_auto : List Hunk → Bytes → Bytes
render_auto hunks file_path =
    let full = format_hunks_full hunks file_path in
    let size = count_byte newline full in
    if ltb diff_auto_summary_threshold size
    then concat (
        format_hunks_summary hunks file_path diff_summary_anchor_lines
        ∷ codes "(summary: "
        ∷ show_int (pos size)
        ∷ codes " diff lines elided "
        ∷ em_dash
        ∷ codes " pass diff_format:\"full\" to see the complete diff)"
        ∷ (newline ∷ [])
        ∷ [])
    else full

-- `RenderDiff`
unfoldable pub render_diff : Bytes → Bytes → Bytes → Bytes → Bytes
unfolding render_auto
render_diff old_content new_content file_path format =
    let hunks = compute_hunks (split_lines old_content) (split_lines new_content) 3 in
    if bytes_eq format (codes "none")
    then []
    else if bytes_eq format (codes "stat")
    then diff_stats old_content new_content
    else if is_empty hunks
    then []
    else if bytes_eq format (codes "summary")
    then format_hunks_summary hunks file_path diff_summary_anchor_lines
    else if bytes_eq format (codes "full")
    then format_hunks_full hunks file_path
    else render_auto hunks file_path

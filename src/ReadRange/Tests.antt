-- ===== src/ReadRange/Tests.antt =====
-- core/read_dedup.go: some ranges read, and the theorem at one.
use mcp_filesystem_go_ultra.Common.{◌-◌, ◌≡◌, refl, [], ◌∷◌, ◌++◌, Bytes, codes, length, arith, ok}
use mcp_filesystem_go_ultra.Common.{slice}
use mcp_filesystem_go_ultra.Common.Int.{pos}
use mcp_filesystem_go_ultra.Edit.Lines.{join_lines}
use mcp_filesystem_go_ultra.Render.{drop_phantom, split_newline}
use mcp_filesystem_go_ultra.ReadRange.{extract_line_range, scan_lines, range_footer, range_loop}
use mcp_filesystem_go_ultra.ReadRange.Lines.{drop_empty, extract_line_range-lines}

-- An empty line, "a", CRLF, and "b".
abbrev three_lines : Bytes
three_lines = 10 ∷ codes "a" ++ (13 ∷ 10 ∷ codes "b")

lines_scanned : scan_lines three_lines ≡ [] ∷ codes "a" ∷ codes "b" ∷ []
unfolding scan_lines drop_phantom split_newline
lines_scanned = refl

-- The empty line is lost.
empty_line_lost : range_loop 1 2 0 (scan_lines three_lines) [] ≡ codes "a"
unfolding scan_lines drop_phantom split_newline range_loop
empty_line_lost = refl

extract_line_range-lines_example :
    extract_line_range three_lines (codes "f") (pos 1) (pos 2)
    ≡ ok (
        join_lines (drop_empty (slice (1 - 1) 2 (scan_lines three_lines)))
        ++ range_footer 1 2 (length (scan_lines three_lines)) (codes "f"))
extract_line_range-lines_example =
    extract_line_range-lines three_lines (codes "f") 1 2 (omega arith) (omega arith)

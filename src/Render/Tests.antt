-- ===== src/Render/Tests.antt =====
-- core/diff.go: the diff of two texts as it is printed, and the theorem at texts that differ in
-- the final newline only.
use mcp_filesystem_go_ultra.Common.{◌≡◌, ◌↔◌, refl, [], ◌∷◌, codes}
use mcp_filesystem_go_ultra.Diff.{diff, backtrack, rest_edits, count_changes, count_kind}
use mcp_filesystem_go_ultra.Common.Decimal.{show_int}
use mcp_filesystem_go_ultra.Render.{
  split_lines, split_newline, drop_phantom, unified_diff_context, diff_stats,
}
use mcp_filesystem_go_ultra.Render.Empty.{unified_diff_empty_iff}

stats_of_texts : diff_stats (b'a' ∷ 10 ∷ b'b' ∷ []) (b'a' ∷ 10 ∷ []) ≡ codes "+0 -1"
unfolding diff_stats show_int count_changes diff backtrack rest_edits count_kind split_lines
    split_newline drop_phantom
stats_of_texts = refl

unified_diff_empty_iff_example :
    (unified_diff_context (b'a' ∷ 10 ∷ []) (b'a' ∷ []) (codes "f") 3 ≡ [])
    ↔ (split_lines (b'a' ∷ 10 ∷ []) ≡ split_lines (b'a' ∷ []))
unified_diff_empty_iff_example = unified_diff_empty_iff (b'a' ∷ 10 ∷ []) (b'a' ∷ []) (codes "f") 3

-- The final newline is not seen.
final_newline_unseen : unified_diff_context (b'a' ∷ 10 ∷ []) (b'a' ∷ []) (codes "f") 3 ≡ []
unfolding split_lines split_newline drop_phantom
final_newline_unseen = unified_diff_empty_iff_example.1 refl

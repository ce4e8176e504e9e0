-- ===== src/Hunk/Tests.antt =====
-- core/diff.go: the hunks of two texts, and the theorems at them.
use mcp_filesystem_go_ultra.Common.{◌≡◌, refl, List, [], ◌∷◌, Bytes, codes, All}
use mcp_filesystem_go_ultra.Common.Int.{pos, ◌-ℤ◌}
use mcp_filesystem_go_ultra.Diff.{fill_row, fill_table, rest_edits, backtrack, diff}
use mcp_filesystem_go_ultra.Hunk.{
  Hunk, has_change_ahead, trailing_context, hunk_loop, compute_hunks,
}
use mcp_filesystem_go_ultra.Hunk.Counts.{CountsAgree, hunk_counts}
use mcp_filesystem_go_ultra.Hunk.Changes.{change_lines, hunk_changes, hunk_changes-compute_hunks}

abbrev old_text : List Bytes
old_text = codes "a" ∷ codes "b" ∷ codes "c" ∷ []

abbrev new_text : List Bytes
new_text = codes "a" ∷ codes "d" ∷ codes "c" ∷ []

abbrev one_hunk : Hunk
one_hunk = record {
  old_start = pos 1;
  old_count = 3;
  new_start = pos 1;
  new_count = 3;
  lines = codes " a" ∷ codes "-b" ∷ codes "+d" ∷ codes " c" ∷ [];
}

hunks_of_texts : compute_hunks old_text new_text 3 ≡ one_hunk ∷ []
unfolding compute_hunks diff backtrack fill_table fill_row rest_edits ◌-ℤ◌ hunk_loop
    has_change_ahead trailing_context
hunks_of_texts = refl

hunk_counts_example : All CountsAgree (compute_hunks old_text new_text 3)
hunk_counts_example = hunk_counts old_text new_text 3

hunk_changes-compute_hunks_example :
    hunk_changes (compute_hunks old_text new_text 3) ≡ change_lines (diff old_text new_text)
hunk_changes-compute_hunks_example = hunk_changes-compute_hunks old_text new_text 3

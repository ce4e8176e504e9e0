-- ===== src/Diff/Tests.antt =====
-- core/diff.go: edit scripts of some texts, and the theorems at them.
use mcp_filesystem_go_ultra.Common.{◌+◌, ◌≤◌, ◌≡◌, refl, List, [], ◌∷◌, Bytes, codes, arith}
use mcp_filesystem_go_ultra.Diff.{
  EditKind, equal, insert, delete, Edit, cell, fill_row, fill_table, rest_edits, backtrack, diff,
  is_equal, is_insert, is_delete, count_kind, count_changes,
}
use mcp_filesystem_go_ultra.Diff.Script.{texts_of, is_old, is_new, texts_of-diff, length-diff}
use mcp_filesystem_go_ultra.Diff.Optimal.{HasCommon, Subseq, cell_longest, diff_minimal}
use mcp_filesystem_go_ultra.Common.{drop, length}

abbrev edit : EditKind → Bytes → Edit
edit kind text = record { kind = kind; text = text }

abbrev old_text : List Bytes
old_text = codes "a" ∷ codes "b" ∷ codes "c" ∷ []

abbrev new_text : List Bytes
new_text = codes "b" ∷ codes "d" ∷ codes "c" ∷ []

diff_of_texts :
    diff old_text new_text
    ≡ edit delete (codes "a")
      ∷ edit equal (codes "b")
      ∷ edit insert (codes "d")
      ∷ edit equal (codes "c")
      ∷ []
unfolding diff backtrack fill_table fill_row rest_edits
diff_of_texts = refl

-- Another script, which deletes and inserts every line.
abbrev long_script : List Edit
long_script =
    edit insert (codes "b")
    ∷ edit delete (codes "a")
    ∷ edit delete (codes "b")
    ∷ edit insert (codes "d")
    ∷ edit delete (codes "c")
    ∷ edit insert (codes "c")
    ∷ []

diff_minimal_example :
    ((count_changes old_text new_text).0 ≤ count_kind is_insert long_script)
    × ((count_changes old_text new_text).1 ≤ count_kind is_delete long_script)
unfolding texts_of
diff_minimal_example = diff_minimal old_text new_text long_script refl refl

texts_of-diff_example :
    (texts_of is_old (diff old_text new_text) ≡ old_text)
    × (texts_of is_new (diff old_text new_text) ≡ new_text)
texts_of-diff_example = texts_of-diff old_text new_text

cell_longest_example :
    HasCommon (drop 1 old_text) (drop 0 new_text) (cell (fill_table old_text new_text) 1 0)
    × ((zs : List Bytes)
        → Subseq zs (drop 1 old_text)
        → Subseq zs (drop 0 new_text)
        → length zs ≤ cell (fill_table old_text new_text) 1 0)
cell_longest_example = cell_longest old_text new_text 1 0 (omega arith) (omega arith)

length-diff_example :
    (3
      ≡ count_kind is_equal (diff old_text new_text)
        + count_kind is_delete (diff old_text new_text))
    × (3
        ≡ count_kind is_equal (diff old_text new_text)
          + count_kind is_insert (diff old_text new_text))
length-diff_example = length-diff old_text new_text

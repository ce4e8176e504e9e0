-- ===== src/LineRange/Tests.antt =====
-- core/line_range.go: ranges of a text of three lines, and the theorems at them.
use mcp_filesystem_go_ultra.Common.{
  ◌+◌, ◌-◌, ◌≡◌, ◌↔◌, ◌⊎◌, refl, [], ◌∷◌, ◌++◌, Bytes, length, ok, err,
}
use mcp_filesystem_go_ultra.Common.{newline, min, take, drop, slice}
use mcp_filesystem_go_ultra.Common.Int.{pos, ◌≤ℤ◌}
use mcp_filesystem_go_ultra.LineRange.{
  split_after, drop_last_empty, check_range, replacement_block, lines_of, start_beyond_end,
  compute_line_range_deletion, compute_line_range_replacement,
}
use mcp_filesystem_go_ultra.LineRange.Delete.{deletion_succeeds_iff, deletion_partition}
use mcp_filesystem_go_ultra.LineRange.Replace.{replacement_lines, replacement-removed}

-- The lines "a", "b" and "c", the last without a newline.
abbrev three_lines : Bytes
three_lines = b'a' ∷ 10 ∷ b'b' ∷ 10 ∷ b'c' ∷ []

abbrev line_b : Bytes
line_b = b'b' ∷ 10 ∷ []

abbrev lines_ac : Bytes
lines_ac = b'a' ∷ 10 ∷ b'c' ∷ []

abbrev lines_adc : Bytes
lines_adc = b'a' ∷ 10 ∷ b'd' ∷ 10 ∷ b'c' ∷ []

line_b_deleted : compute_line_range_deletion three_lines (pos 2) (pos 2) ≡ ok (line_b, lines_ac)
unfolding compute_line_range_deletion lines_of split_after drop_last_empty check_range
line_b_deleted = refl

start_refused :
    compute_line_range_deletion three_lines (pos 4) (pos 9) ≡ err (start_beyond_end (pos 4) 3)
unfolding compute_line_range_deletion lines_of split_after drop_last_empty check_range
start_refused = refl

line_b_replaced :
    compute_line_range_replacement three_lines (pos 2) (pos 2) (b'd' ∷ []) ≡ ok (line_b, lines_adc)
unfolding compute_line_range_replacement lines_of split_after drop_last_empty check_range
    replacement_block
line_b_replaced = refl

deletion_partition_example :
    (before after : Bytes) × (three_lines ≡ before ++ (line_b ++ after))
    × (lines_ac ≡ before ++ after)
    × (length (lines_of before) + 1 ≡ 2)
    × (lines_of line_b
        ≡ slice (2 - 1) (min 2 (length (lines_of three_lines))) (lines_of three_lines))
    × (lines_of lines_ac
        ≡ take (2 - 1) (lines_of three_lines)
          ++ drop (min 2 (length (lines_of three_lines))) (lines_of three_lines))
deletion_partition_example =
    deletion_partition three_lines (pos 2) (pos 2) line_b lines_ac line_b_deleted

replacement_lines_example :
    (block : Bytes) × ((block ≡ b'd' ∷ []) ⊎ (block ≡ (b'd' ∷ []) ++ newline ∷ []))
    × (lines_of lines_adc
        ≡ take (2 - 1) (lines_of three_lines)
          ++ (lines_of block
              ++ drop (min 2 (length (lines_of three_lines))) (lines_of three_lines)))
    × (length (lines_of block) ≡ length (lines_of (b'd' ∷ [])))
    × (lines_of line_b
        ≡ slice (2 - 1) (min 2 (length (lines_of three_lines))) (lines_of three_lines))
replacement_lines_example =
    replacement_lines three_lines (pos 2) (pos 2) (b'd' ∷ []) line_b lines_adc line_b_replaced

replacement-removed_example :
    compute_line_range_replacement three_lines (pos 2) (pos 2) line_b ≡ ok (line_b, three_lines)
replacement-removed_example =
    replacement-removed three_lines (pos 2) (pos 2) line_b lines_ac line_b_deleted

deletion_succeeds_iff_example :
    ((p : Bytes × Bytes) × (compute_line_range_deletion three_lines (pos 2) (pos 9) ≡ ok p))
    ↔ ((pos 1 ≤ℤ pos 2) × (pos 2 ≤ℤ pos 9) × (pos 2 ≤ℤ pos (length (lines_of three_lines))))
deletion_succeeds_iff_example = deletion_succeeds_iff three_lines (pos 2) (pos 9)

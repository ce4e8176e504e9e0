-- ===== src/LineRange/Delete.antt =====
-- core/line_range.go: what `ComputeLineRangeDeletion` returns, and when it fails.
use mcp_filesystem_go_ultra.Common.{
  ℕ, ◌+◌, ◌-◌, ◌≤◌, ◌<◌, ◌≡◌, ◌↔◌, sym, ap, ◌∙◌, ◌++◌, Bytes, min, length-take, length, take, drop,
  slice, concat, concat-append, three_parts, All, arith, ok, >>=-eq-ok,
}
use mcp_filesystem_go_ultra.Common.Int.{ℤ, pos, negsuc, pos_part, ◌≤ℤ◌}
use mcp_filesystem_go_ultra.LineRange.{lines_of, Range, check_range, compute_line_range_deletion}
use mcp_filesystem_go_ultra.LineRange.Partition.{
  IsFull, AreLines-drop, AreLines-take, IsFull-take, concat-lines_of, lines_of-AreLines,
  lines_of-concat-append, lines_of-concat,
}

-- What the guards leave when they pass.
pub check_range-eq-ok :
    (total : ℕ) (s e : ℤ) (r : Range)
    → check_range total s e ≡ ok r
    → (pos 1 ≤ℤ s)
      × (s ≤ℤ e)
      × (s ≤ℤ pos total)
      × (r.before + 1 ≡ pos_part s)
      × (r.last ≡ min (pos_part e) total)
      × (r.before < r.last)
      × (r.last ≤ total)
unfolding check_range
check_range-eq-ok total (pos s) (pos e) r h = ground arith
check_range-eq-ok total (pos s) (negsuc e) r h = ground arith
check_range-eq-ok total (negsuc s) e r h = ground arith

-- The guards pass on a range that begins in the file.
pub check_range_passes :
    (total : ℕ) (s e : ℤ)
    → pos 1 ≤ℤ s
    → s ≤ℤ e
    → s ≤ℤ pos total
    → (r : Range) × (check_range total s e ≡ ok r)
unfolding check_range
check_range_passes total (pos s) (pos e) a b c =
    (record { before = s - 1; last = min e total }, ground arith)
check_range_passes total (pos s) (negsuc e) a b c = absurd (omega arith)
check_range_passes total (negsuc s) e a b c = absurd (omega arith)

-- A deletion that succeeds went through the guards, and returns the parts of the lines.
pub deletion-eq-ok :
    (content : Bytes) (s e : ℤ) (removed remaining : Bytes)
    → compute_line_range_deletion content s e ≡ ok (removed, remaining)
    → (r : Range) × (check_range (length (lines_of content)) s e ≡ ok r)
      × (removed ≡ concat (slice r.before r.last (lines_of content)))
      × (remaining
          ≡ concat (take r.before (lines_of content)) ++ concat (drop r.last (lines_of content)))
unfolding compute_line_range_deletion
deletion-eq-ok content s e removed remaining h =
    let (r, passed, same) = >>=-eq-ok (check_range (length (lines_of content)) s e) _ h in
    (r, passed, cc same, cc same)

-- The deletion succeeds exactly when the range is in order and begins within the file: an end
-- beyond the file is allowed, and an empty file has no such range.
pub deletion_succeeds_iff :
    (content : Bytes) (s e : ℤ)
    → ((p : Bytes × Bytes) × (compute_line_range_deletion content s e ≡ ok p))
      ↔ ((pos 1 ≤ℤ s) × (s ≤ℤ e) × (s ≤ℤ pos (length (lines_of content))))
deletion_succeeds_iff content s e = (
  (λ h.
      let (r, passed, _, _) = deletion-eq-ok content s e h.0.0 h.0.1 h.1 in
      let (a, b, c, _, _, _, _) = check_range-eq-ok _ s e r passed in (a, b, c)),
  (λ h.
      let (r, passed) = check_range_passes (length (lines_of content)) s e h.0 h.1 h.2 in
      let lines = lines_of content in
      (
        (
          concat (slice r.before r.last lines),
          concat (take r.before lines) ++ concat (drop r.last lines),
        ),
        unfold compute_line_range_deletion in rw passed,
      )),
)

-- The parts of the lines at a range that passed the guards.
module _ (content : Bytes) (s e : ℤ) (r : Range)
    (passed : check_range (length (lines_of content)) s e ≡ ok r) where
  range_facts :
      (r.before < r.last)
      × (r.last ≤ length (lines_of content))
      × (r.before + 1 ≡ pos_part s)
      × (r.last ≡ min (pos_part e) (length (lines_of content)))
  range_facts = let (_, _, _, a, b, c, d) = check_range-eq-ok _ s e r passed in (c, d, a, b)

  pub IsFull-before : All IsFull (take r.before (lines_of content))
  IsFull-before =
      IsFull-take r.before (lines_of content) (omega (arith, range_facts))
        (lines_of-AreLines content)

  pub content_parts :
      content
      ≡ concat (take r.before (lines_of content))
        ++ (concat (slice r.before r.last (lines_of content))
            ++ concat (drop r.last (lines_of content)))
  content_parts =
      let lines = lines_of content in
      sym (concat-lines_of content)
      ∙ ap concat (sym (three_parts r.before r.last lines (omega (arith, range_facts))))
      ∙ concat-append (take r.before lines) (slice r.before r.last lines ++ drop r.last lines)
      ∙ ap (λ t. concat (take r.before lines) ++ t)
          (concat-append (slice r.before r.last lines) (drop r.last lines))

  pub lines_of-before :
      lines_of (concat (take r.before (lines_of content))) ≡ take r.before (lines_of content)
  lines_of-before = lines_of-concat _ (AreLines-take r.before _ (lines_of-AreLines content))

  pub lines_of-slice :
      lines_of (concat (slice r.before r.last (lines_of content)))
      ≡ slice r.before r.last (lines_of content)
  lines_of-slice =
      lines_of-concat _
        (AreLines-take (r.last - r.before) _ (AreLines-drop r.before _ (lines_of-AreLines content)))

  pub lines_of-after :
      lines_of (concat (drop r.last (lines_of content))) ≡ drop r.last (lines_of content)
  lines_of-after = lines_of-concat _ (AreLines-drop r.last _ (lines_of-AreLines content))

-- The deletion is exact to the byte: the removed text stands in the content between the lines
-- before the range and the lines behind it, and the remaining text is these two, joined. The
-- removed text is the lines from `start_line` to `end_line` (or the last line), and the lines
-- of the remaining text are all the others.
pub deletion_partition :
    (content : Bytes) (s e : ℤ) (removed remaining : Bytes)
    → compute_line_range_deletion content s e ≡ ok (removed, remaining)
    → let lines = lines_of content in
      let last = min (pos_part e) (length lines) in
      (before after : Bytes) × (content ≡ before ++ (removed ++ after))
      × (remaining ≡ before ++ after)
      × (length (lines_of before) + 1 ≡ pos_part s)
      × (lines_of removed ≡ slice (pos_part s - 1) last lines)
      × (lines_of remaining ≡ take (pos_part s - 1) lines ++ drop last lines)
deletion_partition content s e removed remaining h =
    let (r, passed, same, rest) = deletion-eq-ok content s e removed remaining h in
    let (lt, le, first, end) = range_facts content s e r passed in
    let lines = lines_of content in
    let before_eq : r.before ≡ pos_part s - 1 = omega arith in
    (
      concat (take r.before lines),
      concat (drop r.last lines),
      rw same (content_parts content s e r passed),
      rest,
      rw (lines_of-before content s e r passed, length-take) (omega arith),
      rw (same, lines_of-slice content s e r passed) (rw (before_eq, end)),
      rw
          (
            rest,
            lines_of-concat-append _ _ (IsFull-before content s e r passed),
            lines_of-after content s e r passed,
          )
          (rw (before_eq, end)),
    )

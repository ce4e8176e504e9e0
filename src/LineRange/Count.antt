-- ===== src/LineRange/Count.antt =====
-- core/line_range.go: `countRemovedLines` and the lines of a text.
use mcp_filesystem_go_ultra.Common.{
  ℕ, ◌+◌, ◌≡◌, ◌≢◌, refl, sym, ap, ◌∙◌, List, [], ◌∷◌, ◌++◌, append-nil, Bytes, newline, ends_with,
  count_byte, count_byte-append, length, concat, arith, if◌then◌else◌,
}
use mcp_filesystem_go_ultra.LineRange.{lines_of, count_removed_lines}
use mcp_filesystem_go_ultra.LineRange.Partition.{
  IsFull, IsLine, AreLines, concat-lines_of, lines_of-AreLines,
}

-- The newlines of a line, and one more if it has none at its end.
line_counted :
    (l : Bytes) → IsLine l → count_byte newline l + (if ends_with newline l then 0 else 1) ≡ 1
line_counted [] h = absurd h
line_counted (c ∷ []) h = ground arith
line_counted (c ∷ d ∷ l) h = ground (arith, line_counted (d ∷ l) h.1)

full_counted : (l : Bytes) → IsFull l → count_byte newline l ≡ 1
full_counted [] h = absurd h
full_counted (c ∷ []) h = ground arith
full_counted (c ∷ d ∷ l) h = ground (arith, full_counted (d ∷ l) h.1)

ends_with-append : (b d : ℕ) (s t : Bytes) → ends_with b (s ++ d ∷ t) ≡ ends_with b (d ∷ t)
ends_with-append b d [] t = refl
ends_with-append b d (c ∷ []) t = refl
ends_with-append b d (c ∷ c' ∷ s) t = ends_with-append b d (c' ∷ s) t

pub ends_with-append_ne : (b : ℕ) (s t : Bytes) → t ≢ [] → ends_with b (s ++ t) ≡ ends_with b t
ends_with-append_ne b s [] h = absurd (h refl)
ends_with-append_ne b s (d ∷ t) h = ends_with-append b d s t

concat-ne : (l : Bytes) (ls : List Bytes) → AreLines (l ∷ ls) → concat (l ∷ ls) ≢ []
concat-ne [] [] h = absurd h
concat-ne [] (m ∷ ls) h = absurd h.0
concat-ne (c ∷ l) ls h = λ e. cc e

lines_counted :
    (l : Bytes) (ls : List Bytes)
    → AreLines (l ∷ ls)
    → count_byte newline (concat (l ∷ ls)) + (if ends_with newline (concat (l ∷ ls)) then 0 else 1)
      ≡ length (l ∷ ls)
lines_counted l [] h = rw append-nil (line_counted l h)
lines_counted l (m ∷ ls) h =
    rw
      (
        count_byte-append newline l (concat (m ∷ ls)),
        ends_with-append_ne newline l (concat (m ∷ ls)) (concat-ne m ls h.1),
      )
      (omega (arith, full_counted l h.0, lines_counted m ls h.1))

count-concat : (ls : List Bytes) → AreLines ls → count_removed_lines (concat ls) ≡ length ls
unfolding count_removed_lines
count-concat [] h = refl
count-concat ([] ∷ []) h = absurd h
count-concat ([] ∷ m ∷ ls) h = absurd h.0
count-concat ((c ∷ l) ∷ ls) h = lines_counted (c ∷ l) ls h

-- `countRemovedLines` of any text is the number of lines that the range functions see in it.
pub count_removed_lines-length : (s : Bytes) → count_removed_lines s ≡ length (lines_of s)
count_removed_lines-length s =
    ap count_removed_lines (sym (concat-lines_of s))
    ∙ count-concat (lines_of s) (lines_of-AreLines s)

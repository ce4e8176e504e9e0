-- ===== src/LineRange.antt =====
-- core/line_range.go, the text part: `ComputeLineRangeDeletion`, `ComputeLineRangeReplacement`
-- and `countRemovedLines`. A line keeps its terminator, as `strings.SplitAfter` leaves it.
-- The two functions begin with the same guards, which are `check_range` here.
pub mod Partition
pub mod Delete
pub mod Replace
pub mod Count
mod Tests
use mcp_filesystem_go_ultra.Common.{
  ℕ, suc, ◌+◌, ◌-◌, min, Bool, true, false, not, ◌&&◌, ◌||◌, List, [], ◌∷◌, ◌++◌, Bytes, newline,
  is_empty, ends_with, count_byte, length, take, drop, slice, concat, ltb, ◌==◌, if◌then◌else◌,
  Result, ok, err, ◌>>=◌, ◌>>◌, refuse_if,
}
use mcp_filesystem_go_ultra.Common.Int.{ℤ, pos, pos_part, ltb_ℤ}

-- The byte `c` in front of the first part.
abbrev pub push_byte : ℕ → List Bytes → List Bytes
push_byte c [] = (c ∷ []) ∷ []
push_byte c (l ∷ ls) = (c ∷ l) ∷ ls

-- `strings.SplitAfter(content, "\n")`
unfoldable pub split_after : Bytes → List Bytes
split_after [] = [] ∷ []
split_after (c ∷ s) =
    let rest = split_after s in if c == newline then (c ∷ []) ∷ rest else push_byte c rest

-- A one-element rest is dropped if it is empty.
abbrev pub keep_line : Bytes → List Bytes
keep_line [] = []
keep_line (c ∷ l) = (c ∷ l) ∷ []

-- `if lines[n-1] == "" { lines = lines[:n-1] }`
unfoldable pub drop_last_empty : List Bytes → List Bytes
drop_last_empty [] = []
drop_last_empty (l ∷ []) = keep_line l
drop_last_empty (l ∷ m ∷ ls) = l ∷ drop_last_empty (m ∷ ls)

unfoldable pub lines_of : Bytes → List Bytes
lines_of content = drop_last_empty (split_after content)

pub data RangeError : Type 0 where
  file_is_empty : RangeError
  start_below_one : ℤ → RangeError
  end_before_start : ℤ → ℤ → RangeError
  start_beyond_end : ℤ → ℕ → RangeError

-- The first line as an offset from 0, and the number of the last line, within `total`.
pub record Range : Type 0 where
  pub before : ℕ
  pub last : ℕ

-- The guards, and `if endLine > total { endLine = total }`.
unfoldable pub check_range : ℕ → ℤ → ℤ → Result RangeError Range
check_range total start_line end_line = do
  refuse_if (total == 0) file_is_empty
  refuse_if (ltb_ℤ start_line (pos 1)) (start_below_one start_line)
  refuse_if (ltb_ℤ end_line start_line) (end_before_start end_line start_line)
  refuse_if (ltb_ℤ (pos total) start_line) (start_beyond_end start_line total)
  ok (record { before = pos_part start_line - 1; last = min (pos_part end_line) total })

unfoldable pub compute_line_range_deletion : Bytes → ℤ → ℤ → Result RangeError (Bytes × Bytes)
compute_line_range_deletion content start_line end_line = do
  let lines = lines_of content
  r ← check_range (length lines) start_line end_line
  let removed = concat (slice r.before r.last lines)
  let remaining = concat (take r.before lines) ++ concat (drop r.last lines)
  ok (removed, remaining)

-- `newText`, with the newline that the rules of the replacement add.
unfoldable pub replacement_block : Bytes → Bytes → Bytes → Bytes
replacement_block content suffix new_text =
    let need_newline = not (is_empty suffix) || ends_with newline content in
    if not (is_empty new_text) && (need_newline && not (ends_with newline new_text))
    then new_text ++ newline ∷ []
    else new_text

unfoldable pub compute_line_range_replacement :
    Bytes → ℤ → ℤ → Bytes → Result RangeError (Bytes × Bytes)
compute_line_range_replacement content start_line end_line new_text = do
  let lines = lines_of content
  r ← check_range (length lines) start_line end_line
  let prefix = concat (take r.before lines)
  let removed = concat (slice r.before r.last lines)
  let suffix = concat (drop r.last lines)
  ok (removed, prefix ++ (replacement_block content suffix new_text ++ suffix))

unfoldable pub count_removed_lines : Bytes → ℕ
count_removed_lines removed =
    if is_empty removed
    then 0
    else count_byte newline removed + (if ends_with newline removed then 0 else 1)

-- ===== src/Hunk.antt =====
-- core/diff.go: `computeHunks` groups the edits of `diff` into hunks. The loop carries the edits
-- seen and the edits to come in place of the index; `current` is `none` where the source's is nil.
-- A number of context lines is not negative here; every caller in the program passes 3.
pub mod Counts
pub mod Changes
mod Tests
use mcp_filesystem_go_ultra.Common.{
  ℕ, zero, suc, ◌+◌, ◌-◌, ◌*◌, Bool, true, false, not, ◌&&◌, List, [], ◌∷◌, ◌++◌, Option, none,
  some, Bytes, codes, bytes_eq, is_empty, newline, length, take, drop, get_or, replicate, ltb, leb,
  ◌==◌, if◌then◌else◌,
}
use mcp_filesystem_go_ultra.Common.Int.{ℤ, pos, ◌-ℤ◌}
use mcp_filesystem_go_ultra.Diff.{EditKind, equal, insert, delete, Edit, is_equal, diff}

pub record Hunk : Type 0 where
  pub old_start : ℤ
  pub old_count : ℕ
  pub new_start : ℤ
  pub new_count : ℕ
  pub lines : List Bytes

abbrev pub space : ℕ
space = b' '

abbrev pub plus : ℕ
plus = b'+'

abbrev pub minus : ℕ
minus = b'-'

-- `hasChangeAhead(edits, within)`
unfoldable pub has_change_ahead : List Edit → ℕ → Bool
has_change_ahead es zero = false
has_change_ahead [] (suc within) = false
has_change_ahead (e ∷ es) (suc within) =
    let rest = has_change_ahead es within in if is_equal e.kind then rest else true

-- `trailingContext(edits)`
unfoldable pub trailing_context : List Edit → ℕ
trailing_context [] = 0
trailing_context (e ∷ es) =
    let rest = trailing_context es in if is_equal e.kind then suc rest else 0

-- `current.lines = append(current.lines, " "+text)` with both counts.
unfoldable pub add_context : Hunk → Bytes → Hunk
add_context h text = record h {
  old_count = h.old_count + 1;
  new_count = h.new_count + 1;
  lines = h.lines ++ (space ∷ text) ∷ [];
}

-- The loop over the leading edits.
unfoldable pub add_leading : Hunk → List Edit → Hunk
unfolding add_context
add_leading h [] = h
add_leading h (e ∷ es) = add_leading (if is_equal e.kind then add_context h e.text else h) es

-- `&hunk{oldStart: oldLine - (idx - start), newStart: newLine - (idx - start)}`
abbrev pub empty_hunk : ℕ → ℕ → ℕ → Hunk
empty_hunk back old_line new_line = record {
  old_start = pos old_line -ℤ pos back;
  old_count = 0;
  new_start = pos new_line -ℤ pos back;
  new_count = 0;
  lines = [];
}

-- A new `current` with its leading context; `seen` is `edits[:idx]`, and `length seen - ctx` is
-- `start`, which the source sets to 0 where it would be negative.
unfoldable pub open_hunk : ℕ → List Edit → ℕ → ℕ → Hunk
unfolding add_leading
open_hunk ctx seen old_line new_line =
    let start = length seen - ctx in
    add_leading (empty_hunk (length seen - start) old_line new_line) (drop start seen)

pub record HunkState : Type 0 where
  pub hunks : List Hunk
  pub current : Option Hunk
  pub old_line : ℕ
  pub new_line : ℕ

-- The hunk that a change goes to.
unfoldable pub current_or_open : ℕ → List Edit → HunkState → Hunk
unfolding open_hunk
current_or_open ctx seen st = elim st.current [
  | none ↦ open_hunk ctx seen st.old_line st.new_line
  | some h ↦ h
]

-- A kept line; `rest` is `edits[idx:]`, from this line on, and the last argument is `current`.
unfoldable pub equal_in : ℕ → List Edit → Bytes → HunkState → Option Hunk → HunkState
unfolding add_context
equal_in ctx rest text st none = record st {
  old_line = st.old_line + 1;
  new_line = st.new_line + 1;
}
equal_in ctx rest text st (some h) =
    let h' = add_context h text in
    let next = record st {
      current = some h';
      old_line = st.old_line + 1;
      new_line = st.new_line + 1;
    } in
    if has_change_ahead rest ctx
    then next
    else if leb ctx (trailing_context rest)
    then record next { hunks = st.hunks ++ h' ∷ []; current = none }
    else next

unfoldable pub equal_step : ℕ → List Edit → Bytes → HunkState → HunkState
unfolding equal_in
equal_step ctx rest text st = equal_in ctx rest text st st.current

-- The body of the loop of `computeHunks`.
unfoldable pub hunk_step : ℕ → List Edit → List Edit → EditKind → Bytes → HunkState → HunkState
unfolding equal_step current_or_open
hunk_step ctx seen rest equal text st = equal_step ctx rest text st
hunk_step ctx seen rest delete text st =
    let h = current_or_open ctx seen st in
    let h' = record h { old_count = h.old_count + 1; lines = h.lines ++ (minus ∷ text) ∷ [] } in
    record st { current = some h'; old_line = st.old_line + 1 }
hunk_step ctx seen rest insert text st =
    let h = current_or_open ctx seen st in
    let h' = record h { new_count = h.new_count + 1; lines = h.lines ++ (plus ∷ text) ∷ [] } in
    record st { current = some h'; new_line = st.new_line + 1 }

unfoldable pub hunk_loop : ℕ → List Edit → List Edit → HunkState → HunkState
unfolding hunk_step
hunk_loop ctx seen [] st = st
hunk_loop ctx seen (e ∷ es) st =
    hunk_loop ctx (seen ++ e ∷ []) es (hunk_step ctx seen (e ∷ es) e.kind e.text st)

-- `if current != nil { hunks = append(hunks, *current) }`
abbrev pub close_hunk : HunkState → List Hunk
close_hunk st = elim st.current [ none ↦ st.hunks | some h ↦ st.hunks ++ h ∷ [] ]

abbrev pub start_state : HunkState
start_state = record { hunks = []; current = none; old_line = 1; new_line = 1 }

unfoldable pub compute_hunks : List Bytes → List Bytes → ℕ → List Hunk
compute_hunks old_lines new_lines ctx =
    close_hunk (hunk_loop ctx [] (diff old_lines new_lines) start_state)

-- ===== src/Diff.antt =====
-- core/diff.go: the line diff. `diff` fills the table of common subsequences from the last row
-- up and walks through it. The table is a list of rows, each a list of cells, filled in the
-- source's order; `backtrack` carries the indices and what is left of the two lists.
pub mod Script
pub mod Optimal
mod Tests
use mcp_filesystem_go_ultra.Common.{
  ℕ, zero, suc, ◌+◌, ◌-◌, ◌*◌, Bool, true, false, not, ◌&&◌, List, [], ◌∷◌, ◌++◌, Option, none,
  some, Bytes, codes, bytes_eq, is_empty, newline, length, take, drop, get_or, replicate, ltb, leb,
  ◌==◌, if◌then◌else◌,
}

pub data EditKind : Type 0 where
  equal insert delete : EditKind

pub record Edit : Type 0 where
  pub kind : EditKind
  pub text : Bytes

-- `dp[i][j]`, with 0 outside the table.
abbrev pub cell : List (List ℕ) → ℕ → ℕ → ℕ
cell dp i j = get_or (get_or dp i []) j 0

-- One cell from the line's text, the row below and the cells to its right.
abbrev pub cell_value : Bool → ℕ → ℕ → ℕ → ℕ
cell_value same diagonal down right =
    if same then diagonal + 1 else if ltb right down then down else right

-- `for j := n - 1; j >= 0; j--` over the row `next` below; the last cell stays 0.
unfoldable pub fill_row : Bytes → List Bytes → List ℕ → List ℕ
fill_row x [] next = 0 ∷ []
fill_row x (y ∷ ys) next =
    let rest = fill_row x ys (drop 1 next) in
    cell_value (bytes_eq x y) (get_or next 1 0) (get_or next 0 0) (get_or rest 0 0) ∷ rest

-- `for i := m - 1; i >= 0; i--`; the row below the last line is all 0.
unfoldable pub fill_table : List Bytes → List Bytes → List (List ℕ)
fill_table [] new_lines = replicate (length new_lines + 1) 0 ∷ []
fill_table (x ∷ old_lines) new_lines =
    let rest = fill_table old_lines new_lines in fill_row x new_lines (get_or rest 0 []) ∷ rest

-- The loops behind the walk: what is left of one list.
unfoldable pub rest_edits : EditKind → List Bytes → List Edit
rest_edits kind [] = []
rest_edits kind (l ∷ ls) = record { kind = kind; text = l } ∷ rest_edits kind ls

-- The walk from `(i, j)`, where `xs` and `ys` are the lines from there on.
unfoldable pub backtrack : List (List ℕ) → ℕ → ℕ → List Bytes → List Bytes → List Edit
backtrack dp i j [] ys = rest_edits insert ys
backtrack dp i j (x ∷ xs) [] = rest_edits delete (x ∷ xs)
backtrack dp i j (x ∷ xs) (y ∷ ys) = elim (bytes_eq x y) [
  | true ↦ record { kind = equal; text = x } ∷ backtrack dp (i + 1) (j + 1) xs ys
  | false ↦ elim (leb (cell dp i (j + 1)) (cell dp (i + 1) j)) [
    | true ↦ record { kind = delete; text = x } ∷ backtrack dp (i + 1) j xs (y ∷ ys)
    | false ↦ record { kind = insert; text = y } ∷ backtrack dp i (j + 1) (x ∷ xs) ys
  ]
]

unfoldable pub diff : List Bytes → List Bytes → List Edit
diff old_lines new_lines = backtrack (fill_table old_lines new_lines) 0 0 old_lines new_lines

abbrev pub is_equal : EditKind → Bool
is_equal equal = true
is_equal _ = false

abbrev pub is_insert : EditKind → Bool
is_insert insert = true
is_insert _ = false

abbrev pub is_delete : EditKind → Bool
is_delete delete = true
is_delete _ = false

-- The number of edits of a kind, as the loops of `countChanges` count.
unfoldable pub count_kind : (EditKind → Bool) → List Edit → ℕ
count_kind test [] = 0
count_kind test (e ∷ es) = (if test e.kind then 1 else 0) + count_kind test es

-- `countChanges`: the numbers of added and of removed lines.
unfoldable pub count_changes : List Bytes → List Bytes → ℕ × ℕ
count_changes old_lines new_lines =
    let edits = diff old_lines new_lines in (count_kind is_insert edits, count_kind is_delete edits)

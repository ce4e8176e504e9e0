-- ===== src/Diff/Script.antt =====
-- core/diff.go: the lines that an edit script of `diff` spells.
use mcp_filesystem_go_ultra.Common.{
  ℕ, ◌+◌, ◌≡◌, ap, Bool, true, false, List, [], ◌∷◌, Bytes, eq_of_bytes_eq, length, if◌then◌else◌,
  arith,
}
use mcp_filesystem_go_ultra.Diff.{
  EditKind, insert, delete, Edit, rest_edits, backtrack, diff, is_equal, is_insert, is_delete,
  count_kind,
}

-- The texts of the edits of some kinds, in order.
unfoldable pub texts_of : (EditKind → Bool) → List Edit → List Bytes
texts_of test [] = []
texts_of test (e ∷ es) = if test e.kind then e.text ∷ texts_of test es else texts_of test es

abbrev pub is_old : EditKind → Bool
is_old insert = false
is_old _ = true

abbrev pub is_new : EditKind → Bool
is_new delete = false
is_new _ = true

texts_of-rest_edits :
    (test : EditKind → Bool) (kind : EditKind) (ls : List Bytes)
    → texts_of test (rest_edits kind ls) ≡ (if test kind then ls else [])
unfolding texts_of rest_edits
texts_of-rest_edits test kind [] = ground arith
texts_of-rest_edits test kind (l ∷ ls) = ground (arith, texts_of-rest_edits test kind ls)

texts_old :
    (dp : List (List ℕ)) (i j : ℕ) (xs ys : List Bytes)
    → texts_of is_old (backtrack dp i j xs ys) ≡ xs
unfolding texts_of backtrack
texts_old dp i j [] ys = texts_of-rest_edits is_old insert ys
texts_old dp i j (x ∷ xs) [] = texts_of-rest_edits is_old delete (x ∷ xs)
texts_old dp i j (x ∷ xs) (y ∷ ys) = ground (
  arith,
  texts_old dp (i + 1) (j + 1) xs ys,
  texts_old dp (i + 1) j xs (y ∷ ys),
  texts_old dp i (j + 1) (x ∷ xs) ys,
)

texts_new :
    (dp : List (List ℕ)) (i j : ℕ) (xs ys : List Bytes)
    → texts_of is_new (backtrack dp i j xs ys) ≡ ys
unfolding texts_of backtrack
texts_new dp i j [] ys = texts_of-rest_edits is_new insert ys
texts_new dp i j (x ∷ xs) [] = texts_of-rest_edits is_new delete (x ∷ xs)
texts_new dp i j (x ∷ xs) (y ∷ ys) = ground (
  arith,
  eq_of_bytes_eq x y,
  texts_new dp (i + 1) (j + 1) xs ys,
  texts_new dp (i + 1) j xs (y ∷ ys),
  texts_new dp i (j + 1) (x ∷ xs) ys,
)

-- The edit script is right: its kept and deleted lines are the old lines in order, and its kept
-- and inserted lines are the new lines in order.
pub texts_of-diff :
    (old_lines new_lines : List Bytes)
    → (texts_of is_old (diff old_lines new_lines) ≡ old_lines)
      × (texts_of is_new (diff old_lines new_lines) ≡ new_lines)
unfolding diff
texts_of-diff old_lines new_lines =
    (texts_old _ 0 0 old_lines new_lines, texts_new _ 0 0 old_lines new_lines)

pub length-texts_of :
    (es : List Edit)
    → (length (texts_of is_old es) ≡ count_kind is_equal es + count_kind is_delete es)
      × (length (texts_of is_new es) ≡ count_kind is_equal es + count_kind is_insert es)
unfolding texts_of count_kind
length-texts_of [] = omega arith
length-texts_of (e ∷ es) = ground (arith, length-texts_of es)

-- Kept lines plus removed lines are the old lines; kept lines plus added lines the new ones.
pub length-diff :
    (old_lines new_lines : List Bytes)
    → let es = diff old_lines new_lines in
      (length old_lines ≡ count_kind is_equal es + count_kind is_delete es)
      × (length new_lines ≡ count_kind is_equal es + count_kind is_insert es)
length-diff old_lines new_lines =
    let (o, n) = texts_of-diff old_lines new_lines in
    let (a, b) = length-texts_of (diff old_lines new_lines) in
    omega (arith, ap length o, ap length n)

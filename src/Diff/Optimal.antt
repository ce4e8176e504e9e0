-- ===== src/Diff/Optimal.antt =====
-- core/diff.go: the table of `diff`, longest common subsequences, and the length of the script.
use mcp_filesystem_go_ultra.Common.{
  ℕ, zero, suc, ◌+◌, ◌≤◌, ◌<◌, ◌≡◌, ◌⊎◌, refl, ap, subst, ◌∙◌, inl, inr, true, false, List, [], ◌∷◌,
  Bytes, bytes_eq, bytes_eq_refl, eq_of_bytes_eq, ltb, length, drop, get_or, replicate, leb,
  if◌then◌else◌, Bool-cases, arith,
}
use mcp_filesystem_go_ultra.Diff.{
  EditKind, equal, insert, delete, Edit, cell, cell_value, fill_row, fill_table, rest_edits,
  backtrack, diff, is_equal, is_insert, is_delete, count_kind, count_changes,
}
use mcp_filesystem_go_ultra.Diff.Script.{texts_of, is_old, is_new, length-texts_of, length-diff}
use native.Mathlib.Nat.{suc-add}

-- What the loops put into the cell of two suffixes, by recursion on both.
unfoldable pub suffix_cell : List Bytes → List Bytes → ℕ
suffix_cell [] ys = 0
suffix_cell (x ∷ xs) [] = 0
suffix_cell (x ∷ xs) (y ∷ ys) =
    let both = suffix_cell xs ys in
    let down = suffix_cell xs (y ∷ ys) in
    let right = suffix_cell (x ∷ xs) ys in cell_value (bytes_eq x y) both down right

-- The lines `zs` stand in `xs` in this order.
pub data Subseq : List Bytes → List Bytes → Type 0 where
  done : Subseq [] []
  keep : (z : Bytes) {zs xs : List Bytes} → Subseq zs xs → Subseq (z ∷ zs) (z ∷ xs)
  skip : (x : Bytes) {zs xs : List Bytes} → Subseq zs xs → Subseq zs (x ∷ xs)

Subseq-tail : {z : Bytes} {zs xs : List Bytes} → Subseq (z ∷ zs) xs → Subseq zs xs
Subseq-tail (keep z s) = skip z s
Subseq-tail (skip x s) = skip x (Subseq-tail s)

Subseq-rest : {z x : Bytes} {zs xs : List Bytes} → Subseq (z ∷ zs) (x ∷ xs) → Subseq zs xs
Subseq-rest (keep z s) = s
Subseq-rest (skip x s) = Subseq-tail s

-- What a subsequence of a list with a first line looks like.
Subseq-cons :
    {zs xs : List Bytes} (x : Bytes)
    → Subseq zs (x ∷ xs)
    → Subseq zs xs ⊎ ((ws : List Bytes) × (zs ≡ x ∷ ws) × Subseq ws xs)
Subseq-cons x (keep z {zs = ws} s) = inr (ws, refl, s)
Subseq-cons x (skip y s) = inl s

suffix_cell-nil_right : (xs : List Bytes) → suffix_cell xs [] ≡ 0
unfolding suffix_cell
suffix_cell-nil_right [] = refl
suffix_cell-nil_right (x ∷ xs) = refl

Subseq-nil : {zs : List Bytes} → Subseq zs [] → zs ≡ []
Subseq-nil done = refl

-- A row of the table, and the table: `row xs ys` lists `suffix_cell xs` of every tail of `ys`.
row : List Bytes → List Bytes → List ℕ
row xs [] = suffix_cell xs [] ∷ []
row xs (y ∷ ys) = suffix_cell xs (y ∷ ys) ∷ row xs ys

row-head : (xs ys : List Bytes) → get_or (row xs ys) 0 0 ≡ suffix_cell xs ys
unfolding row
row-head xs [] = refl
row-head xs (y ∷ ys) = refl

row-nil : (ys : List Bytes) → replicate (length ys + 1) 0 ≡ row [] ys
unfolding row suffix_cell
row-nil [] = refl
row-nil (y ∷ ys) = rw suc-add (ap (λ t. 0 ∷ t) (row-nil ys))

fill_row-row : (x : Bytes) (xs ys : List Bytes) → fill_row x ys (row xs ys) ≡ row (x ∷ xs) ys
unfolding fill_row row suffix_cell
fill_row-row x xs [] = refl
fill_row-row x xs (y ∷ ys) = rw (fill_row-row x xs ys, row-head (x ∷ xs) ys, row-head xs ys) refl

drop-row : (xs ys : List Bytes) (y : Bytes) → drop 1 (row xs (y ∷ ys)) ≡ row xs ys
unfolding row
drop-row xs ys y = refl

table_first : (xs ys : List Bytes) → get_or (fill_table xs ys) 0 [] ≡ row xs ys
unfolding fill_table
table_first [] ys = row-nil ys
table_first (x ∷ xs) ys = rw (table_first xs ys) (fill_row-row x xs ys)

table_row :
    (i : ℕ) (xs ys : List Bytes)
    → i ≤ length xs
    → get_or (fill_table xs ys) i [] ≡ row (drop i xs) ys
unfolding fill_table
table_row zero xs ys h = table_first xs ys
table_row (suc i) [] ys h = absurd (omega arith)
table_row (suc i) (x ∷ xs) ys h = table_row i xs ys (omega arith)

row_cell :
    (j : ℕ) (xs ys : List Bytes)
    → j ≤ length ys
    → get_or (row xs ys) j 0 ≡ suffix_cell xs (drop j ys)
unfolding row
row_cell zero xs ys h = row-head xs ys
row_cell (suc j) xs [] h = absurd (omega arith)
row_cell (suc j) xs (y ∷ ys) h = row_cell j xs ys (omega arith)

-- The table holds those values.
cell-suffix_cell :
    (xs ys : List Bytes) (i j : ℕ)
    → i ≤ length xs
    → j ≤ length ys
    → cell (fill_table xs ys) i j ≡ suffix_cell (drop i xs) (drop j ys)
cell-suffix_cell xs ys i j hi hj = rw (table_row i xs ys hi) (row_cell j (drop i xs) ys hj)

drop-next :
    (i : ℕ) (l : List Bytes) (x : Bytes) (xs : List Bytes)
    → drop i l ≡ x ∷ xs
    → (drop (i + 1) l ≡ xs) × (i < length l)
drop-next zero [] x xs h = cc h
drop-next zero (y ∷ l) x xs h = (cc h, omega arith)
drop-next (suc i) [] x xs h = cc h
drop-next (suc i) (y ∷ l) x xs h = let (a, b) = drop-next i l x xs h in (rw suc-add a, omega arith)

count_equal-rest :
    (kind : EditKind) (ls : List Bytes)
    → is_equal kind ≡ false
    → count_kind is_equal (rest_edits kind ls) ≡ 0
unfolding count_kind rest_edits
count_equal-rest kind [] h = refl
count_equal-rest kind (l ∷ ls) h = ground (arith, count_equal-rest kind ls h)

-- One step of the walk, with what the later steps keep.
walk_step :
    (x y : Bytes) (xs ys : List Bytes) (right down : ℕ) (both dels inss : List Edit)
    → right ≡ suffix_cell (x ∷ xs) ys
    → down ≡ suffix_cell xs (y ∷ ys)
    → count_kind is_equal both ≡ suffix_cell xs ys
    → count_kind is_equal dels ≡ suffix_cell xs (y ∷ ys)
    → count_kind is_equal inss ≡ suffix_cell (x ∷ xs) ys
    → count_kind is_equal (elim (bytes_eq x y) [
      | true ↦ record { kind = equal; text = x } ∷ both
      | false ↦ elim (leb right down) [
        | true ↦ record { kind = delete; text = x } ∷ dels
        | false ↦ record { kind = insert; text = y } ∷ inss
      ]
    ])
      ≡ cell_value
          (bytes_eq x y)
          (suffix_cell xs ys)
          (suffix_cell xs (y ∷ ys))
          (suffix_cell (x ∷ xs) ys)
unfolding count_kind
walk_step x y xs ys right down both dels inss hr hd hb hl hi = ground arith

-- The walk keeps as many lines as its first cell says.
module _ (old_lines new_lines : List Bytes) where
  count_equal-backtrack :
      (i j : ℕ) (xs ys : List Bytes)
      → drop i old_lines ≡ xs
      → drop j new_lines ≡ ys
      → count_kind is_equal (backtrack (fill_table old_lines new_lines) i j xs ys)
        ≡ suffix_cell xs ys
  unfolding backtrack suffix_cell
  count_equal-backtrack i j [] ys hx hy = count_equal-rest insert ys refl
  count_equal-backtrack i j (x ∷ xs) [] hx hy = count_equal-rest delete (x ∷ xs) refl
  count_equal-backtrack i j (x ∷ xs) (y ∷ ys) hx hy =
      let (nx, lx) = drop-next i old_lines x xs hx in
      let (ny, ly) = drop-next j new_lines y ys hy in
      let right : cell (fill_table old_lines new_lines) i (j + 1) ≡ suffix_cell (x ∷ xs) ys =
        cell-suffix_cell old_lines new_lines i (j + 1) (omega arith) (omega arith)
        ∙ rw (hx, ny) refl in
      let down : cell (fill_table old_lines new_lines) (i + 1) j ≡ suffix_cell xs (y ∷ ys) =
        cell-suffix_cell old_lines new_lines (i + 1) j (omega arith) (omega arith)
        ∙ rw (hy, nx) refl in
      walk_step x y xs ys _ _ _ _ _ right down (count_equal-backtrack (i + 1) (j + 1) xs ys nx ny)
        (count_equal-backtrack (i + 1) j xs (y ∷ ys) nx hy)
        (count_equal-backtrack i (j + 1) (x ∷ xs) ys hx ny)

heads_step :
    (x y : Bytes) (xs ys : List Bytes) {zs : List Bytes}
    → Subseq zs (x ∷ xs)
    → Subseq zs (y ∷ ys)
    → ((ws : List Bytes) → Subseq ws xs → Subseq ws ys → length ws ≤ suffix_cell xs ys)
    → ((ws : List Bytes) → Subseq ws xs → Subseq ws (y ∷ ys) → length ws ≤ suffix_cell xs (y ∷ ys))
    → ((ws : List Bytes) → Subseq ws (x ∷ xs) → Subseq ws ys → length ws ≤ suffix_cell (x ∷ xs) ys)
    → length zs
      ≤ cell_value
          (bytes_eq x y)
          (suffix_cell xs ys)
          (suffix_cell xs (y ∷ ys))
          (suffix_cell (x ∷ xs) ys)
heads_step x y xs ys {zs} p q both down right = elim (Bool-cases (bytes_eq x y)) [
  | inl e ↦ rw e (same_head zs p q)
  | inr e ↦ rw e (elim (Subseq-cons x p) [
    | inl sp ↦ ground (arith, down zs sp q)
    | inr (ws, ez, sp) ↦ elim (Subseq-cons y q) [
      | inl sq ↦ ground (arith, right zs p sq)
      | inr (vs, ew, sq) ↦
          let same : x ≡ y = cc (ez, ew) in cc (bytes_eq_refl x, ap (bytes_eq x) same)
    ]
  ])
]
  where
    tails_le :
        (z : Bytes) (ws : List Bytes)
        → Subseq (z ∷ ws) (x ∷ xs)
        → Subseq (z ∷ ws) (y ∷ ys)
        → length ws ≤ suffix_cell xs ys
    tails_le z ws a b = both ws (Subseq-rest a) (Subseq-rest b)

    same_head :
        (ws : List Bytes)
        → Subseq ws (x ∷ xs)
        → Subseq ws (y ∷ ys)
        → length ws ≤ suffix_cell xs ys + 1
    same_head [] a b = omega arith
    same_head (z ∷ ws) a b = omega (arith, tails_le z ws a b)

-- No common subsequence is longer.
Subseq-le-suffix_cell :
    (xs ys : List Bytes) {zs : List Bytes}
    → Subseq zs xs
    → Subseq zs ys
    → length zs ≤ suffix_cell xs ys
unfolding suffix_cell
Subseq-le-suffix_cell [] ys p q = rw (Subseq-nil p) (omega arith)
Subseq-le-suffix_cell (x ∷ xs) [] p q = rw (Subseq-nil q) (omega arith)
Subseq-le-suffix_cell (x ∷ xs) (y ∷ ys) {zs} p q =
    heads_step x y xs ys p q (λ ws a b. Subseq-le-suffix_cell xs ys {zs = ws} a b)
      (λ ws a b. Subseq-le-suffix_cell xs (y ∷ ys) {zs = ws} a b)
      (λ ws a b. Subseq-le-suffix_cell (x ∷ xs) ys {zs = ws} a b)

Subseq-none : (xs : List Bytes) → Subseq [] xs
Subseq-none [] = done
Subseq-none (x ∷ xs) = skip x (Subseq-none xs)

-- A common subsequence of a given length.
abbrev pub HasCommon : List Bytes → List Bytes → ℕ → Type 0
HasCommon xs ys n = (zs : List Bytes) × (Subseq zs xs × Subseq zs ys × (length zs ≡ n))

keep_both :
    (x y : Bytes) (xs ys : List Bytes) (n : ℕ)
    → bytes_eq x y ≡ true
    → HasCommon xs ys n
    → HasCommon (x ∷ xs) (y ∷ ys) (n + 1)
keep_both x y xs ys n e (zs, (p, q, l)) = (
  x ∷ zs,
  (
    keep x p,
    subst (λ z. Subseq (x ∷ zs) (z ∷ ys)) (eq_of_bytes_eq x y e) (keep x q),
    omega (arith, l),
  ),
)

longer_of :
    (x y : Bytes) (xs ys : List Bytes) (d r : ℕ)
    → HasCommon xs (y ∷ ys) d
    → HasCommon (x ∷ xs) ys r
    → HasCommon (x ∷ xs) (y ∷ ys) (if ltb r d then d else r)
longer_of x y xs ys d r (zs, (p, q, l)) (ws, (s, t, k)) = elim (Bool-cases (ltb r d)) [
  | inl e ↦ rw e (zs, (skip x p, q, l))
  | inr e ↦ rw e (ws, (s, skip y t, k))
]

-- Some common subsequence is as long.
suffix_cell-HasCommon : (xs ys : List Bytes) → HasCommon xs ys (suffix_cell xs ys)
unfolding suffix_cell
suffix_cell-HasCommon [] ys = ([], (done, Subseq-none ys, refl))
suffix_cell-HasCommon (x ∷ xs) [] = ([], (Subseq-none (x ∷ xs), done, refl))
suffix_cell-HasCommon (x ∷ xs) (y ∷ ys) =
    let both = suffix_cell-HasCommon xs ys in
    let down = suffix_cell-HasCommon xs (y ∷ ys) in
    let right = suffix_cell-HasCommon (x ∷ xs) ys in
    elim (Bool-cases (bytes_eq x y)) [
      | inl e ↦ rw (e, suffix_cell) (keep_both x y xs ys (suffix_cell xs ys) e both)
      | inr e ↦
          rw (e, suffix_cell)
            (longer_of x y xs ys (suffix_cell xs (y ∷ ys)) (suffix_cell (x ∷ xs) ys) down right)
    ]

-- Each cell of the table is the length of some common subsequence of the old lines from its row on
-- and the new lines from its column on, and no common subsequence of them is longer.
pub cell_longest :
    (xs ys : List Bytes) (i j : ℕ)
    → i ≤ length xs
    → j ≤ length ys
    → HasCommon (drop i xs) (drop j ys) (cell (fill_table xs ys) i j)
      × ((zs : List Bytes)
          → Subseq zs (drop i xs)
          → Subseq zs (drop j ys)
          → length zs ≤ cell (fill_table xs ys) i j)
cell_longest xs ys i j hi hj =
    let e = cell-suffix_cell xs ys i j hi hj in
    (
      rw e (suffix_cell-HasCommon (drop i xs) (drop j ys)),
      λ zs p q. rw e (Subseq-le-suffix_cell (drop i xs) (drop j ys) p q),
    )

old_step :
    (kind : EditKind) (text : Bytes) {zs os : List Bytes}
    → Subseq zs os
    → Subseq (if is_equal kind then text ∷ zs else zs) (if is_old kind then text ∷ os else os)
old_step equal text s = keep text s
old_step insert text s = s
old_step delete text s = skip text s

new_step :
    (kind : EditKind) (text : Bytes) {zs ns : List Bytes}
    → Subseq zs ns
    → Subseq (if is_equal kind then text ∷ zs else zs) (if is_new kind then text ∷ ns else ns)
new_step equal text s = keep text s
new_step insert text s = skip text s
new_step delete text s = s

kept_is_old : (es : List Edit) → Subseq (texts_of is_equal es) (texts_of is_old es)
unfolding texts_of
kept_is_old [] = done
kept_is_old (e ∷ es) = old_step e.kind e.text (kept_is_old es)

kept_is_new : (es : List Edit) → Subseq (texts_of is_equal es) (texts_of is_new es)
unfolding texts_of
kept_is_new [] = done
kept_is_new (e ∷ es) = new_step e.kind e.text (kept_is_new es)

length-kept : (es : List Edit) → length (texts_of is_equal es) ≡ count_kind is_equal es
unfolding texts_of count_kind
length-kept [] = refl
length-kept (e ∷ es) = ground (arith, length-kept es)

-- `diff` is minimal: any edit script from the old lines to the new lines inserts at least as
-- many lines, and deletes at least as many, as `count_changes` reports for the script of `diff`.
pub diff_minimal :
    (old_lines new_lines : List Bytes) (es : List Edit)
    → texts_of is_old es ≡ old_lines
    → texts_of is_new es ≡ new_lines
    → ((count_changes old_lines new_lines).0 ≤ count_kind is_insert es)
      × ((count_changes old_lines new_lines).1 ≤ count_kind is_delete es)
unfolding count_changes diff
diff_minimal old_lines new_lines es ho hn =
    let kept : length (texts_of is_equal es) ≤ suffix_cell old_lines new_lines =
      Subseq-le-suffix_cell old_lines new_lines (rw ho at (kept_is_old es))
        (rw hn at (kept_is_new es)) in
    let found = count_equal-backtrack old_lines new_lines 0 0 old_lines new_lines refl refl in
    omega (
      arith,
      kept,
      found,
      length-kept es,
      length-texts_of es,
      ap length ho,
      ap length hn,
      length-diff old_lines new_lines,
    )

-- ===== src/LineRange/Replace.antt =====
-- core/line_range.go: what `ComputeLineRangeReplacement` returns.
use mcp_filesystem_go_ultra.Common.{
  ℕ, zero, suc, ◌-◌, ◌≤◌, ◌<◌, ◌≡◌, ◌≢◌, ◌⊎◌, inl, inr, refl, sym, ap, ◌∙◌, true, false, not, ◌||◌,
  List, [], ◌∷◌, ◌++◌, append-nil, Bytes, newline, is_empty, ends_with, count_byte-append, min,
  length-take, length-drop, length, take, drop, slice, concat, All, arith, ok, >>=-eq-ok,
  Bool-cases, dec_lt,
}
use mcp_filesystem_go_ultra.Common.Int.{ℤ, pos_part}
use mcp_filesystem_go_ultra.LineRange.{
  split_after, drop_last_empty, lines_of, Range, check_range, compute_line_range_deletion,
  compute_line_range_replacement, replacement_block, count_removed_lines,
}
use mcp_filesystem_go_ultra.LineRange.Partition.{
  IsFull, IsLine, AreLines, AreLines-drop, AreLines-take, IsFull-take, concat-lines_of,
  lines_of-AreLines, lines_of-concat-append,
}
use mcp_filesystem_go_ultra.LineRange.Delete.{
  check_range-eq-ok, content_parts, IsFull-before, lines_of-slice, lines_of-after, deletion-eq-ok,
}
use mcp_filesystem_go_ultra.LineRange.Count.{ends_with-append_ne, count_removed_lines-length}

-- An empty new text makes the replacement a deletion, with the same result on every input,
-- errors included.
pub replacement-nil :
    (content : Bytes) (s e : ℤ)
    → compute_line_range_replacement content s e [] ≡ compute_line_range_deletion content s e
unfolding compute_line_range_replacement compute_line_range_deletion replacement_block
replacement-nil content s e = refl

-- A replacement that succeeds went through the guards, and returns the parts of the lines.
replacement-eq-ok :
    (content : Bytes) (s e : ℤ) (new_text removed result : Bytes)
    → compute_line_range_replacement content s e new_text ≡ ok (removed, result)
    → (r : Range) × (check_range (length (lines_of content)) s e ≡ ok r)
      × (removed ≡ concat (slice r.before r.last (lines_of content)))
      × (result
          ≡ concat (take r.before (lines_of content))
            ++ (replacement_block content (concat (drop r.last (lines_of content))) new_text
                ++ concat (drop r.last (lines_of content))))
unfolding compute_line_range_replacement
replacement-eq-ok content s e new_text removed result h =
    let (r, passed, same) = >>=-eq-ok (check_range (length (lines_of content)) s e) _ h in
    (r, passed, cc same, cc same)

-- A text that ends with a newline has full lines only.
ends-IsFull :
    (c : ℕ) (l : Bytes) → IsLine (c ∷ l) → ends_with newline (c ∷ l) ≡ true → IsFull (c ∷ l)
ends-IsFull c [] h e = ground arith
ends-IsFull c (d ∷ l) h e = (h.0, ends-IsFull d l h.1 e)

concat-cons-ne : (m : Bytes) (ls : List Bytes) → AreLines (m ∷ ls) → concat (m ∷ ls) ≢ []
concat-cons-ne [] [] h = absurd h
concat-cons-ne [] (m ∷ ls) h = absurd h.0
concat-cons-ne (c ∷ l) ls h = λ e. cc e

AreLines-All-IsFull :
    (ls : List Bytes)
    → AreLines ls
    → (concat ls ≡ []) ⊎ (ends_with newline (concat ls) ≡ true)
    → All IsFull ls
AreLines-All-IsFull [] h e = tt
AreLines-All-IsFull ([] ∷ []) h e = absurd h
AreLines-All-IsFull ((c ∷ l) ∷ []) h (inl e) = cc e
AreLines-All-IsFull ((c ∷ l) ∷ []) h (inr e) = (ends-IsFull c l h (rw append-nil at e), tt)
AreLines-All-IsFull (l ∷ m ∷ ls) h (inl e) = absurd (concat-cons-ne l (m ∷ ls) h e)
AreLines-All-IsFull (l ∷ m ∷ ls) h (inr e) = (
  h.0,
  AreLines-All-IsFull (m ∷ ls) h.1
      (inr (sym (ends_with-append_ne newline l (concat (m ∷ ls)) (concat-cons-ne m ls h.1)) ∙ e)),
)

lines_of-append :
    (t u : Bytes)
    → (t ≡ []) ⊎ (ends_with newline t ≡ true)
    → lines_of (t ++ u) ≡ lines_of t ++ lines_of u
lines_of-append t u e =
    ap (λ x. lines_of (x ++ u)) (sym (concat-lines_of t))
    ∙ lines_of-concat-append (lines_of t) u
        (AreLines-All-IsFull (lines_of t) (lines_of-AreLines t) (rw concat-lines_of e))

lines_of-nil : lines_of [] ≡ []
unfolding lines_of drop_last_empty split_after
lines_of-nil = refl

-- The block is empty, or ends with a newline, or nothing stands behind it.
block_ends :
    (content suffix new_text : Bytes)
    → let block = replacement_block content suffix new_text in
      (suffix ≡ []) ⊎ ((block ≡ []) ⊎ (ends_with newline block ≡ true))
unfolding replacement_block
block_ends content [] new_text = inl refl
block_ends content (c ∷ suffix) [] = inr (inl refl)
block_ends content (c ∷ suffix) (d ∷ t) = elim (Bool-cases (ends_with newline (d ∷ t))) [
  | inl e ↦ rw e (inr (inr e))
  | inr e ↦ rw e (inr (inr (ends_with-append_ne newline (d ∷ t) (newline ∷ []) (λ p. cc p))))
]

-- The newline that is added ends the last line, and begins no other.
block_length :
    (content suffix new_text : Bytes)
    → length (lines_of (replacement_block content suffix new_text)) ≡ length (lines_of new_text)
unfolding replacement_block
block_length content suffix [] = refl
block_length content suffix (d ∷ t) = elim (Bool-cases (ends_with newline (d ∷ t))) [
  | inl e ↦ rw e (elim (Bool-cases (not (is_empty suffix) || ends_with newline content)) [
    | inl n ↦ rw n
    | inr n ↦ rw n
  ])
  | inr e ↦ elim (Bool-cases (not (is_empty suffix) || ends_with newline content)) [
    | inl n ↦ rw (e, n) (newline_counts (d ∷ t) e (λ p. cc p))
    | inr n ↦ rw (e, n)
  ]
]
  where
    newline_counts :
        (t : Bytes)
        → ends_with newline t ≡ false
        → t ≢ []
        → length (lines_of (t ++ newline ∷ [])) ≡ length (lines_of t)
    newline_counts [] e n = absurd (n refl)
    newline_counts (d ∷ t) e n =
        sym (count_removed_lines-length ((d ∷ t) ++ newline ∷ []))
        ∙ unfold count_removed_lines in
          rw
            (
              count_byte-append newline (d ∷ t) (newline ∷ []),
              ends_with-append_ne newline (d ∷ t) (newline ∷ []) (λ p. cc p),
              e,
            )
            (omega arith)
          ∙ count_removed_lines-length (d ∷ t)

-- The lines of the result are the lines before the range, the lines of the new text and the
-- lines behind the range: no line is glued to another. What is inserted is the new text, or the
-- new text and a newline, and has as many lines as the new text. The removed text is the range.
pub replacement_lines :
    (content : Bytes) (s e : ℤ) (new_text removed result : Bytes)
    → compute_line_range_replacement content s e new_text ≡ ok (removed, result)
    → let lines = lines_of content in
      let last = min (pos_part e) (length lines) in
      (block : Bytes) × ((block ≡ new_text) ⊎ (block ≡ new_text ++ newline ∷ []))
      × (lines_of result ≡ take (pos_part s - 1) lines ++ (lines_of block ++ drop last lines))
      × (length (lines_of block) ≡ length (lines_of new_text))
      × (lines_of removed ≡ slice (pos_part s - 1) last lines)
replacement_lines content s e new_text removed result h =
    let (r, passed, same, rest) = replacement-eq-ok content s e new_text removed result h in
    let (_, _, _, first, end, lt, le) = check_range-eq-ok _ s e r passed in
    let lines = lines_of content in
    let before_eq : r.before ≡ pos_part s - 1 = omega arith in
    let suffix = concat (drop r.last lines) in
    let block = replacement_block content suffix new_text in
    (
      block,
      block_choice content suffix new_text,
      rw
          (
            rest,
            lines_of-concat-append (take r.before lines) (block ++ suffix)
                (IsFull-before content s e r passed),
            block_then content suffix new_text,
            lines_of-after content s e r passed,
          )
          (rw (before_eq, end)),
      block_length content suffix new_text,
      rw (same, lines_of-slice content s e r passed) (rw (before_eq, end)),
    )
  where
    block_choice :
        (content suffix new_text : Bytes)
        → (replacement_block content suffix new_text ≡ new_text)
          ⊎ (replacement_block content suffix new_text ≡ new_text ++ newline ∷ [])
    block_choice content suffix new_text = unfold replacement_block in ground arith

    block_then :
        (content suffix new_text : Bytes)
        → lines_of (replacement_block content suffix new_text ++ suffix)
          ≡ lines_of (replacement_block content suffix new_text) ++ lines_of suffix
    block_then content suffix new_text = elim (block_ends content suffix new_text) [
      | inl e ↦ rw e (
          rw (append-nil (replacement_block content [] new_text), lines_of-nil)
            (sym (append-nil (lines_of (replacement_block content [] new_text)))))
      | inr e ↦ lines_of-append (replacement_block content suffix new_text) suffix e
    ]

full_ends : (l : Bytes) → IsFull l → ends_with newline l ≡ true
full_ends [] h = absurd h
full_ends (c ∷ []) h = ground arith
full_ends (c ∷ d ∷ l) h = full_ends (d ∷ l) h.1

All-IsFull-ends :
    (l : Bytes) (ls : List Bytes) → All IsFull (l ∷ ls) → ends_with newline (concat (l ∷ ls)) ≡ true
All-IsFull-ends l [] h = rw append-nil (full_ends l h.0)
All-IsFull-ends l ([] ∷ ls) h = absurd h.1.0
All-IsFull-ends l ((c ∷ m) ∷ ls) h =
    ends_with-append_ne newline l (concat ((c ∷ m) ∷ ls)) (λ p. cc p)
    ∙ All-IsFull-ends (c ∷ m) ls h.1

drop-nil_of_le {ℓ} : {A : Type ℓ} (n : ℕ) (xs : List A) → length xs ≤ n → drop n xs ≡ []
drop-nil_of_le zero [] h = refl
drop-nil_of_le zero (x ∷ xs) h = absurd (omega arith)
drop-nil_of_le (suc n) [] h = refl
drop-nil_of_le (suc n) (x ∷ xs) h = drop-nil_of_le n xs (omega arith)

All-IsFull-concat :
    (ls : List Bytes) → 0 < length ls → All IsFull ls → ends_with newline (concat ls) ≡ true
All-IsFull-concat [] lt h = absurd (omega arith)
All-IsFull-concat (l ∷ ls) lt h = All-IsFull-ends l ls h

concat-lines_ne : (ls : List Bytes) → 0 < length ls → AreLines ls → concat ls ≢ []
concat-lines_ne [] lt h = absurd (omega arith)
concat-lines_ne (l ∷ ls) lt h = concat-cons-ne l ls h

-- With a line behind the range, or a newline at the end of the file, the range ends with one.
module _ (content : Bytes) (s e : ℤ) (r : Range)
    (passed : check_range (length (lines_of content)) s e ≡ ok r) where
  slice-length : 0 < length (slice r.before r.last (lines_of content))
  slice-length =
      let (_, _, _, _, _, lt, le) = check_range-eq-ok _ s e r passed in
      rw (length-take, length-drop) (omega arith)

  slice_lines : AreLines (slice r.before r.last (lines_of content))
  slice_lines =
      AreLines-take (r.last - r.before) _ (AreLines-drop r.before _ (lines_of-AreLines content))

  range_ends_before :
      r.last < length (lines_of content)
      → ends_with newline (concat (slice r.before r.last (lines_of content))) ≡ true
  range_ends_before more =
      let (_, _, _, _, _, lt, le) = check_range-eq-ok _ s e r passed in
      All-IsFull-concat (slice r.before r.last (lines_of content)) slice-length (
        IsFull-take (r.last - r.before) (drop r.before (lines_of content))
          (rw length-drop (omega arith)) (AreLines-drop r.before _ (lines_of-AreLines content)))

  range_ends_last :
      drop r.last (lines_of content) ≡ []
      → ends_with newline content
        ≡ ends_with newline (concat (slice r.before r.last (lines_of content)))
  range_ends_last none_left =
      let range = concat (slice r.before r.last (lines_of content)) in
      let before = concat (take r.before (lines_of content)) in
      let whole : content ≡ before ++ range =
        content_parts content s e r passed
        ∙ ap (λ t. before ++ (range ++ concat t)) none_left
        ∙ ap (λ t. before ++ t) (append-nil range) in
      ap (ends_with newline) whole
      ∙ ends_with-append_ne newline before range (concat-lines_ne _ slice-length slice_lines)

  block_of_range :
      let range = concat (slice r.before r.last (lines_of content)) in
      replacement_block content (concat (drop r.last (lines_of content))) range ≡ range
  block_of_range = elim (dec_lt r.last (length (lines_of content))) [
    | yes more ↦ block_of_ended content _ _ (range_ends_before more)
    | no all ↦
        let none_left = drop-nil_of_le r.last (lines_of content) (omega arith) in
        elim (Bool-cases (ends_with newline (concat (slice r.before r.last (lines_of content))))) [
          | inl e ↦ block_of_ended content _ _ e
          | inr e ↦ block_of_last content _ _ (ap concat none_left) (range_ends_last none_left ∙ e)
        ]
  ]
    where
      block_of_ended :
          (content suffix t : Bytes)
          → ends_with newline t ≡ true
          → replacement_block content suffix t ≡ t
      block_of_ended content suffix t e = unfold replacement_block in ground arith

      block_of_last :
          (content suffix t : Bytes)
          → suffix ≡ []
          → ends_with newline content ≡ false
          → replacement_block content suffix t ≡ t
      block_of_last content suffix t n e = unfold replacement_block in rw (n, e) (ground arith)

-- Putting the removed text back in place of the range gives the content itself.
pub replacement-removed :
    (content : Bytes) (s e : ℤ) (removed remaining : Bytes)
    → compute_line_range_deletion content s e ≡ ok (removed, remaining)
    → compute_line_range_replacement content s e removed ≡ ok (removed, content)
replacement-removed content s e removed remaining h =
    let (r, passed, same, rest) = deletion-eq-ok content s e removed remaining h in
    let lines = lines_of content in
    unfold compute_line_range_replacement in
    rw (same, passed, block_of_range content s e r passed, ← content_parts content s e r passed)
      refl

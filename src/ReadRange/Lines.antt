-- ===== src/ReadRange/Lines.antt =====
-- core/read_dedup.go: which lines are read.
use mcp_filesystem_go_ultra.Common.{
  ℕ, zero, suc, ◌+◌, ◌-◌, ◌≤◌, ◌≡◌, inl, inr, refl, sym, ap, ◌∙◌, false, List, [], ◌∷◌, ◌++◌,
  append_assoc, Bytes, is_empty, length, ltb, leb, if◌then◌else◌, Bool-cases, arith, ok,
}
use mcp_filesystem_go_ultra.Common.{newline, take, drop, slice}
use mcp_filesystem_go_ultra.Common.Int.{pos}
use mcp_filesystem_go_ultra.Edit.Lines.{join_lines}
use mcp_filesystem_go_ultra.ReadRange.{
  add_text, range_loop, scan_lines, range_footer, extract_line_range,
}

-- The lines put together one after another.
abbrev add_all : Bytes → List Bytes → Bytes
add_all result [] = result
add_all result (l ∷ ls) = add_all (add_text result l) ls

-- Lines without the empty ones that stand first.
abbrev pub drop_empty : List Bytes → List Bytes
drop_empty [] = []
drop_empty (l ∷ ls) = let rest = drop_empty ls in if is_empty l then rest else l ∷ ls

take-none : (ls : List Bytes) → take 0 ls ≡ []
take-none [] = refl
take-none (l ∷ ls) = refl

drop-none : (n : ℕ) → drop {A = Bytes} n [] ≡ []
drop-none zero = refl
drop-none (suc n) = refl

take-nothing : (n : ℕ) → take {A = Bytes} n [] ≡ []
take-nothing zero = refl
take-nothing (suc n) = refl

slice-nil : (lo hi : ℕ) → slice {A = Bytes} lo hi [] ≡ []
slice-nil lo hi = ap (take (hi - lo)) (drop-none lo) ∙ take-nothing (hi - lo)

-- The loop adds the lines of the range.
range_loop-add_all :
    (start stop n : ℕ) (ls : List Bytes) (result : Bytes)
    → start ≤ stop
    → range_loop start stop n ls result ≡ add_all result (slice (start - 1 - n) (stop - n) ls)
unfolding range_loop
range_loop-add_all start stop n [] result h =
    ap (add_all result) (sym (slice-nil (start - 1 - n) (stop - n)))
range_loop-add_all start stop n (l ∷ ls) result h = elim (Bool-cases (ltb (n + 1) start)) [
  | inl before ↦
      let lo : start - 1 - n ≡ suc (start - 1 - (n + 1)) = ground (arith, before) in
      let size : stop - n - suc (start - 1 - (n + 1)) ≡ stop - (n + 1) - (start - 1 - (n + 1)) =
        ground (arith, before, h) in
      rw (before, lo, size) (range_loop-add_all start stop (n + 1) ls result h)
  | inr from ↦
      let lo : start - 1 - n ≡ 0 = ground (arith, from) in
      let lo' : start - 1 - (n + 1) ≡ 0 = ground (arith, from) in
      elim (Bool-cases (leb (n + 1) stop)) [
        | inl inside ↦
            let size : stop - n - 0 ≡ suc (stop - (n + 1)) = ground (arith, inside) in
            let next = range_loop-add_all start stop (n + 1) ls (add_text result l) h in
            let size' : stop - (n + 1) - 0 ≡ stop - (n + 1) = omega arith in
            rw (from, inside, lo, size) (rw (lo', size') at next)
        | inr behind ↦
            let size : stop - n - 0 ≡ 0 = ground (arith, behind) in
            let size' : stop - (n + 1) - 0 ≡ 0 = ground (arith, behind) in
            let next = range_loop-add_all start stop (n + 1) ls result h in
            rw (from, behind, lo, size)
              ((rw (lo', size') at next) ∙ ap (add_all result) (take-none ls))
      ]
]

join-glue : (a l : Bytes) (ls : List Bytes) → join_lines ((a ++ l) ∷ ls) ≡ a ++ join_lines (l ∷ ls)
join-glue a l [] = refl
join-glue a l (m ∷ ls) = append_assoc a l (newline ∷ join_lines (m ∷ ls))

filled : (a l : Bytes) → is_empty ((a ++ newline ∷ []) ++ l) ≡ false
filled [] l = refl
filled (c ∷ a) l = refl

add_all-full :
    (result : Bytes) (ls : List Bytes)
    → is_empty result ≡ false
    → add_all result ls ≡ join_lines (result ∷ ls)
add_all-full result [] h = refl
add_all-full result (l ∷ ls) h = rw h (
    add_all-full ((result ++ newline ∷ []) ++ l) ls (filled result l)
    ∙ join-glue (result ++ newline ∷ []) l ls
    ∙ append_assoc result (newline ∷ []) (join_lines (l ∷ ls)))

add_all-empty : (ls : List Bytes) → add_all [] ls ≡ join_lines (drop_empty ls)
add_all-empty [] = refl
add_all-empty ([] ∷ ls) = add_all-empty ls
add_all-empty ((c ∷ l) ∷ ls) = add_all-full (c ∷ l) ls refl

-- What is read of a range in order is its lines, joined by newlines, and the footer; but the empty
-- lines that the range begins with are lost.
pub extract_line_range-lines :
    (content base : Bytes) (start stop : ℕ)
    → 1 ≤ start
    → start ≤ stop
    → extract_line_range content base (pos start) (pos stop)
      ≡ ok (
          join_lines (drop_empty (slice (start - 1) stop (scan_lines content)))
          ++ range_footer start stop (length (scan_lines content)) base)
unfolding extract_line_range
extract_line_range-lines content base start stop low order =
    let lines = scan_lines content in
    let not_low : ltb (start + 0) 1 ≡ false = ground arith in
    let in_order : ltb (stop + 0) (start + 0) ≡ false = ground arith in
    let lo : start - 1 - 0 ≡ start - 1 = omega arith in
    let hi : stop - 0 ≡ stop = omega arith in
    let same : slice (start - 1 - 0) (stop - 0) lines ≡ slice (start - 1) stop lines =
      ap (λ k. slice k (stop - 0) lines) lo ∙ ap (λ k. slice (start - 1) k lines) hi in
    let body : range_loop start stop 0 lines []
        ≡ join_lines (drop_empty (slice (start - 1) stop lines)) =
      range_loop-add_all start stop 0 lines [] order
      ∙ add_all-empty (slice (start - 1 - 0) (stop - 0) lines)
      ∙ ap (λ ls. join_lines (drop_empty ls)) same in
    rw (not_low, in_order) (ap (λ b. ok (b ++ range_footer start stop (length lines) base)) body)

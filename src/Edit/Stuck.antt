-- ===== src/Edit/Stuck.antt =====
-- core/edit_operations.go: when `performIntelligentEdit` ends.
use mcp_filesystem_go_ultra.Common.{
  ℕ, zero, suc, ◌<◌, ◌≡◌, ◌≢◌, inl, inr, refl, Bool, true, false, not, ◌&&◌, List, [], ◌∷◌, Option,
  none, some, Bytes, bytes_eq, is_empty, length, ltb, if◌then◌else◌, Bool-cases, Option-cases, err,
}
use mcp_filesystem_go_ultra.Common.{drop}
use mcp_filesystem_go_ultra.Common.Search.{index_of, contains, index_of_not_contains}
use mcp_filesystem_go_ultra.Whitespace.{WhitespaceMatch, find_all_tolerant_matches}
use mcp_filesystem_go_ultra.Render.{split_lines}
use mcp_filesystem_go_ultra.Edit.{
  EditResult, out_of_fuel, Attempt, done, pass, fail, or_else, conclude, Library, Regexp,
}
use mcp_filesystem_go_ultra.Edit.Eol.{normalize_line_endings}
use mcp_filesystem_go_ultra.Edit.Lines.{trim_space, make_flexible_pattern, quote_meta}
use mcp_filesystem_go_ultra.Edit.Indent.{normalize_indentation}
use mcp_filesystem_go_ultra.Edit.Walk.{Walk, begin_walk, walk, take_match}
use mcp_filesystem_go_ultra.Edit.Exact.{normalize-filled, exact_edit_lem, walk-replace_all}
use mcp_filesystem_go_ultra.Edit.Cascade.{
  exact_edit, trimmed_edit, trimmed_result, tolerant_edit, tolerant_result, line_edit,
  multiline_edit, escape_edit, indent_edit, replace_range, flexible_edit, flexible_result,
  late_edit, cascade, has_long_line, has_blanks, perform_intelligent_edit,
}

-- The empty text is found at once, wherever one looks.
index_of-nil : (s : Bytes) → index_of s [] ≡ some 0
unfolding index_of
index_of-nil [] = refl
index_of-nil (c ∷ s) = refl

contains-nil : (s : Bytes) → contains s [] ≡ true
unfolding contains
contains-nil [] = refl
contains-nil (c ∷ s) = refl

walk-nil : (fuel : ℕ) (content new : Bytes) (w : Walk) → walk fuel content [] new w ≡ none
unfolding walk
walk-nil zero content new w = refl
walk-nil (suc fuel) content new w =
    rw (index_of-nil (drop w.last content), walk)
      (walk-nil fuel content new (take_match content [] new 0 w))

differs : (s : Bytes) → is_empty s ≡ false → bytes_eq [] s ≡ false
differs [] h = absurd (cc h)
differs (c ∷ s) h = refl

nil_of_empty : (s : Bytes) → is_empty s ≡ true → s ≡ []
nil_of_empty [] h = refl
nil_of_empty (c ∷ s) h = absurd (cc h)

-- Without tolerant white space, an edit whose old text is white space only, not empty, and that
-- does not stand in the content, never ends, whatever the fuel: the third strategy looks for the
-- empty text, which it finds again and again.
pub blank_edit_stuck :
    (library : Library) (fuel : ℕ) (content old new : Bytes)
    → is_empty old ≡ false
    → is_empty (trim_space (normalize_line_endings old)) ≡ true
    → contains (normalize_line_endings content) (normalize_line_endings old) ≡ false
    → perform_intelligent_edit library fuel content old new false ≡ err out_of_fuel
unfolding perform_intelligent_edit cascade tolerant_edit exact_edit trimmed_edit trimmed_result
blank_edit_stuck library fuel content old new full blank absent =
    let c = normalize_line_endings content in
    let o = normalize_line_endings old in
    let n = normalize_line_endings new in
    let gone = index_of_not_contains c o absent in
    let trimmed = nil_of_empty (trim_space o) blank in
    let exact_passed : exact_edit fuel c o n ≡ pass = rw (gone, exact_edit) refl in
    let failed : trimmed_edit fuel c o n ≡ fail out_of_fuel =
      rw
        (
          trimmed,
          differs o (normalize-filled old full),
          contains-nil c,
          walk-nil fuel c n begin_walk,
        )
        refl in
    rw (full, cascade, exact_passed, failed) refl

-- An attempt that has ended.
HasEnded : Attempt → Type 0
HasEnded a = a ≢ fail out_of_fuel

done-HasEnded : (r : EditResult) → HasEnded (done r)
unfolding HasEnded
done-HasEnded r h = cc h

pass-HasEnded : HasEnded pass
unfolding HasEnded
pass-HasEnded h = cc h

done_or_pass : (b : Bool) (r : EditResult) → HasEnded (if b then done r else pass)
done_or_pass true r = done-HasEnded r
done_or_pass false r = pass-HasEnded

pass_or_done : (b : Bool) (r : EditResult) → HasEnded (if b then pass else done r)
pass_or_done true r = pass-HasEnded
pass_or_done false r = done-HasEnded r

or_else-HasEnded : (a b : Attempt) → HasEnded a → HasEnded b → HasEnded (or_else a b)
unfolding HasEnded
or_else-HasEnded (done r) b h k = h
or_else-HasEnded pass b h k = k
or_else-HasEnded (fail e) b h k = h

line_edit-HasEnded : (content old new : Bytes) → HasEnded (line_edit content old new)
unfolding line_edit HasEnded
line_edit-HasEnded content old new = elim (Bool-cases (has_long_line (split_lines content))) [
  | inl e ↦ rw (e, line_edit) (λ h. cc h)
  | inr e ↦ rw (e, line_edit) (done_or_pass _ _)
]

replace_range-HasEnded :
    (content new : Bytes) (start stop : ℕ) → HasEnded (replace_range content new start stop)
unfolding replace_range
replace_range-HasEnded content new start stop = done_or_pass _ _

indent_edit-HasEnded :
    (library : Library) (content old new : Bytes) → HasEnded (indent_edit library content old new)
unfolding indent_edit
indent_edit-HasEnded library content old new = elim (Bool-cases (has_blanks old)) [
  | inr e ↦ rw (e, indent_edit) pass-HasEnded
  | inl e ↦
      elim (Option-cases (index_of (normalize_indentation content) (normalize_indentation old))) [
        | inl gone ↦ rw (e, gone, indent_edit) pass-HasEnded
        | inr (i, at) ↦ rw (e, at, indent_edit) (replace_range-HasEnded content new _ _)
      ]
]

flexible_result-HasEnded :
    (content new : Bytes) (o : Option Regexp) → HasEnded (flexible_result content new o)
unfolding flexible_result
flexible_result-HasEnded content new none = pass-HasEnded
flexible_result-HasEnded content new (some re) = pass_or_done _ _

flexible_edit-HasEnded :
    (library : Library) (content old new : Bytes) → HasEnded (flexible_edit library content old new)
unfolding flexible_edit
flexible_edit-HasEnded library content old new = elim (Bool-cases (ltb (length content) 102400)) [
  | inl e ↦
      rw (e, flexible_edit)
        (flexible_result-HasEnded content new
          (library.compile (make_flexible_pattern (quote_meta old))))
  | inr e ↦ rw (e, flexible_edit) pass-HasEnded
]

multiline_edit-HasEnded : (content old new : Bytes) → HasEnded (multiline_edit content old new)
unfolding multiline_edit
multiline_edit-HasEnded content old new = done_or_pass _ _

escape_edit-HasEnded : (content old new : Bytes) → HasEnded (escape_edit content old new)
unfolding escape_edit
escape_edit-HasEnded content old new = done_or_pass _ _

late_edit-HasEnded :
    (library : Library) (content old new : Bytes) → HasEnded (late_edit library content old new)
unfolding late_edit
late_edit-HasEnded library content old new =
    or_else-HasEnded _ _ (line_edit-HasEnded content old new) (
      or_else-HasEnded _ _ (multiline_edit-HasEnded content old new) (
        or_else-HasEnded _ _ (escape_edit-HasEnded content old new) (
          or_else-HasEnded _ _ (indent_edit-HasEnded library content old new)
            (flexible_edit-HasEnded library content old new))))

tolerant_result-HasEnded :
    (content new : Bytes) (matches : List WhitespaceMatch)
    → HasEnded (tolerant_result content new matches)
unfolding tolerant_result
tolerant_result-HasEnded content new [] = pass-HasEnded
tolerant_result-HasEnded content new (m ∷ matches) = done_or_pass _ _

tolerant_edit-HasEnded :
    (tolerant : Bool) (content old new : Bytes) → HasEnded (tolerant_edit tolerant content old new)
unfolding tolerant_edit
tolerant_edit-HasEnded true content old new =
    tolerant_result-HasEnded content new (find_all_tolerant_matches content old)
tolerant_edit-HasEnded false content old new = pass-HasEnded

exact_edit-HasEnded :
    (fuel : ℕ) (content old new : Bytes)
    → is_empty old ≡ false
    → length content < fuel
    → HasEnded (exact_edit fuel content old new)
exact_edit-HasEnded fuel content old new full enough =
    elim (exact_edit_lem fuel content old new full enough) [
      | inl (gone, passed) ↦ rw passed pass-HasEnded
      | inr (r, ran, text, count, some_found) ↦ rw ran (done-HasEnded r)
    ]

trimmed_edit-HasEnded :
    (fuel : ℕ) (content old new : Bytes)
    → is_empty (trim_space old) ≡ false
    → length content < fuel
    → HasEnded (trimmed_edit fuel content old new)
unfolding trimmed_edit trimmed_result
trimmed_edit-HasEnded fuel content old new full enough =
    let (w, run, text) =
      walk-replace_all fuel content (trim_space old) new begin_walk full enough in
    elim (Bool-cases (not (bytes_eq (trim_space old) old) && contains content (trim_space old))) [
      | inl e ↦ rw (e, trimmed_edit, run) (done-HasEnded _)
      | inr e ↦ rw (e, trimmed_edit) pass-HasEnded
    ]

conclude-HasEnded : (a : Attempt) → HasEnded a → conclude a ≢ err out_of_fuel
unfolding HasEnded
conclude-HasEnded (done r) h e = cc e
conclude-HasEnded pass h e = cc e
conclude-HasEnded (fail x) h e = h (cc e)

-- Where the old text is not only white space, every edit ends within a round for each byte of the
-- content and one more.
pub edit_ends :
    (library : Library) (fuel : ℕ) (content old new : Bytes) (tolerant : Bool)
    → is_empty (trim_space (normalize_line_endings old)) ≡ false
    → length (normalize_line_endings content) < fuel
    → perform_intelligent_edit library fuel content old new tolerant ≢ err out_of_fuel
unfolding perform_intelligent_edit cascade
edit_ends library fuel content old new tolerant full enough =
    let c = normalize_line_endings content in
    let o = normalize_line_endings old in
    let n = normalize_line_endings new in
    elim (Bool-cases (is_empty old)) [
      | inl e ↦ rw (e, perform_intelligent_edit) (λ h. cc h)
      | inr e ↦
          rw (e, perform_intelligent_edit)
            (conclude-HasEnded (cascade library fuel tolerant c o n) (
              or_else-HasEnded _ _ (tolerant_edit-HasEnded tolerant c o n) (
                or_else-HasEnded _ _
                  (exact_edit-HasEnded fuel c o n (normalize-filled old e) enough)
                  (or_else-HasEnded _ _ (trimmed_edit-HasEnded fuel c o n full enough)
                    (late_edit-HasEnded library c o n)))))
    ]

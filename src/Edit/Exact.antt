-- ===== src/Edit/Exact.antt =====
-- core/edit_operations.go: the replacement loop against `strings.ReplaceAll`, and the first strategy.
use mcp_filesystem_go_ultra.Common.{
  ℕ, zero, suc, ◌+◌, ◌<◌, ◌≡◌, ◌⊎◌, inl, inr, refl, sym, ap, ◌∙◌, true, false, [], ◌∷◌, ◌++◌, none,
  some, append_assoc, Bytes, is_empty, length, Bool-cases, Option-cases, arith, ok,
}
use mcp_filesystem_go_ultra.Common.{drop, take, drop-drop, length-drop}
use mcp_filesystem_go_ultra.Common.Search.{
  index_of, contains, count_text, replace_all, replace-absent, replace-found, replace-step,
  has_prefix, index_of-contains,
}
use mcp_filesystem_go_ultra.Edit.{EditResult, done, pass, Library}
use mcp_filesystem_go_ultra.Edit.Eol.{normalize_line_endings, crlf, cr, lf}
use mcp_filesystem_go_ultra.Edit.Walk.{Walk, begin_walk, walk, walked_text, take_match}
use mcp_filesystem_go_ultra.Edit.Cascade.{
  exact_edit, exact_result, exact_record, cascade, tolerant_edit, perform_intelligent_edit,
}

sums : (a b c : ℕ) → a + (b + c) ≡ a + b + c
sums a b c = omega arith

positive_length : (s : Bytes) → is_empty s ≡ false → 0 < length s
positive_length [] h = absurd (cc h)
positive_length (c ∷ s) h = omega arith

-- From any state the loop writes the bytes left with every occurrence replaced.
pub walk-replace_all :
    (fuel : ℕ) (content old new : Bytes) (w : Walk)
    → is_empty old ≡ false
    → length (drop w.last content) < fuel
    → (w' : Walk) × (walk fuel content old new w ≡ some w')
      × (walked_text content w' ≡ w.written ++ replace_all (drop w.last content) old new)
unfolding walk take_match
walk-replace_all zero content old new w full enough = absurd (omega (arith, enough))
walk-replace_all (suc fuel) content old new w full enough =
    elim (Option-cases (index_of (drop w.last content) old)) [
      | inl gone ↦
          let (same, times) = replace-absent (drop w.last content) old new gone in
          (w, rw (gone, walk) refl, ap (λ t. w.written ++ t) (sym same))
      | inr (i, at) ↦
          let (text, times, within) = replace-found (drop w.last content) old new i full at in
          let rest_from : drop (i + length old) (drop w.last content)
              ≡ drop (w.last + i + length old) content =
            drop-drop (i + length old) w.last content
            ∙ ap (λ k. drop k content) (sums w.last i (length old)) in
          let advances : 0 < length old = positive_length old full in
          let shorter : length (drop (w.last + i + length old) content) < fuel = omega (
            arith,
            enough,
            within,
            advances,
            ap length (sym rest_from),
            length-drop (i + length old) (drop w.last content),
          ) in
          let (w', run, wrote) =
            walk-replace_all fuel content old new (take_match content old new i w) full shorter in
          let bytes = take i (drop w.last content) in
          (
            w',
            rw (at, walk) run,
            wrote
                ∙ append_assoc w.written (bytes ++ new)
                    (replace_all (drop (w.last + i + length old) content) old new)
                ∙ ap (λ t. w.written ++ t)
                    (append_assoc bytes new
                        (replace_all (drop (w.last + i + length old) content) old new)
                      ∙ ap (λ t. bytes ++ (new ++ replace_all t old new)) (sym rest_from)
                      ∙ sym text),
          )
    ]

-- With a round for each byte and one more the exact strategy replaces every occurrence, and passes
-- where there is none.
pub exact_edit_lem :
    (fuel : ℕ) (content old new : Bytes)
    → is_empty old ≡ false
    → length content < fuel
    → (index_of content old ≡ none) × (exact_edit fuel content old new ≡ pass)
      ⊎ ((r : EditResult) × (exact_edit fuel content old new ≡ done r)
          × (r.modified_content ≡ replace_all content old new)
          × (r.replacement_count ≡ count_text content old)
          × (0 < r.replacement_count))
unfolding exact_edit exact_result
exact_edit_lem fuel content old new full enough = elim (Option-cases (index_of content old)) [
  | inl gone ↦ inl (gone, rw (gone, exact_edit) refl)
  | inr (i, at) ↦
      let (w, run, text) = walk-replace_all fuel content old new begin_walk full enough in
      let (cut, times, within) = replace-found content old new i full at in
      inr (
        exact_record content old i w,
        rw (at, exact_edit, run) refl,
        text,
        refl,
        omega (arith, times),
      )
]

filled :
    (c : ℕ) (s old : Bytes) (n : ℕ) (new : Bytes)
    → is_empty (replace_all (c ∷ s) old (n ∷ new)) ≡ false
filled c s old n new = elim (Bool-cases (has_prefix old (c ∷ s))) [
  | inl e ↦ rw (replace-step c s old (n ∷ new), e) refl
  | inr e ↦ rw (replace-step c s old (n ∷ new), e) refl
]

replace_all-filled :
    (s old new : Bytes)
    → is_empty s ≡ false
    → is_empty new ≡ false
    → is_empty (replace_all s old new) ≡ false
replace_all-filled [] old new h k = absurd (cc h)
replace_all-filled (c ∷ s) old [] h k = absurd (cc k)
replace_all-filled (c ∷ s) old (n ∷ new) h k = filled c s old n new

pub normalize-filled :
    (s : Bytes) → is_empty s ≡ false → is_empty (normalize_line_endings s) ≡ false
unfolding normalize_line_endings
normalize-filled s h =
    replace_all-filled (replace_all s crlf lf) cr lf (replace_all-filled s crlf lf h refl) refl

-- Without tolerant white space, where the old text is not empty and stands in the content, up to
-- line endings, the edit replaces every occurrence, as `strings.ReplaceAll` does, and counts them,
-- of which there is at least one.
pub exact_replacement :
    (library : Library) (fuel : ℕ) (content old new : Bytes)
    → is_empty old ≡ false
    → length (normalize_line_endings content) < fuel
    → contains (normalize_line_endings content) (normalize_line_endings old) ≡ true
    → (r : EditResult) × (perform_intelligent_edit library fuel content old new false ≡ ok r)
      × (r.modified_content
          ≡ replace_all
              (normalize_line_endings content)
              (normalize_line_endings old)
              (normalize_line_endings new))
      × (r.replacement_count
          ≡ count_text (normalize_line_endings content) (normalize_line_endings old))
      × (0 < r.replacement_count)
unfolding perform_intelligent_edit cascade tolerant_edit
exact_replacement library fuel content old new full enough present =
    let c = normalize_line_endings content in
    let o = normalize_line_endings old in
    let n = normalize_line_endings new in
    let (i, at) = index_of-contains c o present in
    elim (exact_edit_lem fuel c o n (normalize-filled old full) enough) [
      | inl (gone, passed) ↦ absurd (cc (sym gone ∙ at))
      | inr (r, ran, text, count, some_found) ↦
          (r, rw (full, cascade, ran) refl, text, count, some_found)
    ]

-- ===== src/Edit/Tests.antt =====
-- core/edit_operations.go: some edits, and the theorems at them.
use mcp_filesystem_go_ultra.Common.{
  ℕ, ◌<◌, ◌≡◌, ◌≢◌, refl, ap, subst, ◌∙◌, inl, inr, Bool-cases, List, [], true, false, ◌∷◌, ◌++◌,
  Option, none, some, Bytes, codes, ◌==◌, if◌then◌else◌, arith, Result, ok, err,
}
use mcp_filesystem_go_ultra.Common.{replicate}
use mcp_filesystem_go_ultra.Common.Search.{
  replace_all, count_text, contains, replace_from, count_from,
}
use mcp_filesystem_go_ultra.Render.{drop_phantom}
use mcp_filesystem_go_ultra.Edit.{
  EditResult, EditError, out_of_fuel, no_matches, Library, Regexp, pass,
}
use mcp_filesystem_go_ultra.Edit.Eol.{crlf, detect_eol, restore_eol, normalize_line_endings}
use mcp_filesystem_go_ultra.Edit.Lines.{
  trim_space, trim_trailing_spaces_per_line, quote_meta, is_meta, count_occurrences_tolerant,
}
use mcp_filesystem_go_ultra.Edit.Indent.{convert_leading_spaces_to_tabs}
use mcp_filesystem_go_ultra.Edit.Cascade.{flexible_edit, perform_intelligent_edit}
use mcp_filesystem_go_ultra.Edit.Exact.{exact_replacement}
use mcp_filesystem_go_ultra.Edit.Stuck.{blank_edit_stuck, edit_ends}
use mcp_filesystem_go_ultra.Edit.Endings.{restore-normalize}
use mcp_filesystem_go_ultra.Edit.Flexible.{other_byte, IsLiteral, flexible_edit_passes}

-- Patterns that are found as they stand, and the quotient by hand at the ends of a run.
abbrev literal_library : Library
literal_library = record {
  compile = λ p. some (record {
    find_all_string = λ content. replicate (count_text content p) p;
    replace_all_string = λ content new. replace_all content p new;
  });
  proportion = λ a b c. if a == b then c else 0;
}

abbrev run : Bytes → Bytes → Bytes → Result EditError EditResult
run content old new = perform_intelligent_edit literal_library 100 content old new false

abbrev modified : Result EditError EditResult → Option (Bytes × ℕ)
modified (ok r) = some (r.modified_content, r.replacement_count)
modified (err e) = none

-- "ab", CRLF, "ab", CRLF
abbrev windows : Bytes
windows = codes "ab" ++ (crlf ++ (codes "ab" ++ crlf))

exact_run :
    modified (run (codes "x = 1; x = 2") (codes "x") (codes "yy"))
    ≡ some (codes "yy = 1; yy = 2", 2)
unfolding perform_intelligent_edit replace_from count_from drop_phantom
exact_run = refl

trimmed_run : modified (run (codes "a+b") (codes " b ") (codes "c")) ≡ some (codes "a+c", 1)
unfolding perform_intelligent_edit replace_from count_from drop_phantom
trimmed_run = refl

indented_run :
    modified (
      run
        (b'x' ∷ 10 ∷ 9 ∷ codes "y" ++ (10 ∷ codes "z"))
        (codes "x" ++ (10 ∷ codes "    y"))
        (codes "w"))
    ≡ some (codes "w" ++ (10 ∷ codes "z"), 1)
unfolding perform_intelligent_edit replace_from count_from drop_phantom
indented_run = refl

nothing_found : run (codes "abc") (codes "xyz") (codes "w") ≡ err no_matches
unfolding perform_intelligent_edit replace_from count_from drop_phantom
nothing_found = refl

trailing_blanks :
    trim_trailing_spaces_per_line (codes "a  " ++ (10 ∷ codes "b ")) ≡ codes "a" ++ (10 ∷ codes "b")
unfolding trim_trailing_spaces_per_line
trailing_blanks = refl

tabs_for_spaces : convert_leading_spaces_to_tabs (codes "      x") ≡ 9 ∷ codes "  x"
unfolding convert_leading_spaces_to_tabs replace_from
tabs_for_spaces = refl

tolerant_count : count_occurrences_tolerant (9 ∷ codes "x") (codes "    x") true ≡ 1
unfolding count_occurrences_tolerant replace_from count_from
tolerant_count = refl

exact_replacement_example :
    (r : EditResult) × (perform_intelligent_edit literal_library 10 windows
        (codes "b")
        (codes "c")
        false
      ≡ ok r)
    × (r.modified_content
        ≡ replace_all
            (normalize_line_endings windows)
            (normalize_line_endings (codes "b"))
            (normalize_line_endings (codes "c")))
    × (r.replacement_count
        ≡ count_text (normalize_line_endings windows) (normalize_line_endings (codes "b")))
    × (0 < r.replacement_count)
unfolding normalize_line_endings contains replace_from
exact_replacement_example =
    exact_replacement literal_library 10 windows (codes "b") (codes "c") refl (omega arith) refl

blank_edit_stuck_example :
    perform_intelligent_edit literal_library 1000 (codes "x=1") (codes "  ") (codes "y") false
    ≡ err out_of_fuel
unfolding normalize_line_endings trim_space contains replace_from
blank_edit_stuck_example =
    blank_edit_stuck literal_library 1000 (codes "x=1") (codes "  ") (codes "y") refl refl refl

edit_ends_example :
    perform_intelligent_edit literal_library 5 (codes "x=1") (codes " b ") (codes "y") true
    ≢ err out_of_fuel
unfolding normalize_line_endings trim_space replace_from
edit_ends_example =
    edit_ends literal_library 5 (codes "x=1") (codes " b ") (codes "y") true refl (omega arith)

restore-normalize_example :
    restore_eol (normalize_line_endings windows) (detect_eol windows) ≡ windows
unfolding count_from
restore-normalize_example = restore-normalize windows (ground arith)

-- Patterns that are found as they stand once the backslashes are gone.
abbrev unquote : Bytes → Bytes
unquote [] = []
unquote (c ∷ []) = c ∷ []
unquote (c ∷ d ∷ s) =
    let after_2 = unquote s in
    let after_1 = unquote (d ∷ s) in if c == 92 then d ∷ after_2 else c ∷ after_1

abbrev regexp_of : Bytes → Regexp
regexp_of text = record {
  find_all_string = λ content. if contains content text then text ∷ [] else [];
  replace_all_string = λ content new. replace_all content text new;
}

abbrev quoting_library : Library
quoting_library = record { compile = λ p. some (regexp_of (unquote p)); proportion = λ a b c. 0 }

unquote-plain : (c : ℕ) (s : Bytes) → (c == 92) ≡ false → unquote (c ∷ s) ≡ c ∷ unquote s
unquote-plain c [] h = refl
unquote-plain c (d ∷ s) h = rw h refl

unquote-quote_meta : (s : Bytes) → unquote (quote_meta s) ≡ s
unquote-quote_meta [] = refl
unquote-quote_meta (c ∷ s) = elim (Bool-cases (is_meta c)) [
  | inl e ↦ rw e (ap (λ t. c ∷ t) (unquote-quote_meta s))
  | inr e ↦ rw e (
      unquote-plain c (quote_meta s) (other_byte c 92 e refl)
      ∙ ap (λ t. c ∷ t) (unquote-quote_meta s))
]

abbrev found_by : Option Regexp → Bytes → List Bytes
found_by none content = []
found_by (some re) content = re.find_all_string content

quoting_library-IsLiteral : IsLiteral quoting_library
unfolding IsLiteral
quoting_library-IsLiteral old re h content absent =
    let gone : contains content (unquote (quote_meta old)) ≡ false =
      rw (unquote-quote_meta old) absent in
    subst (λ o. found_by o content ≡ []) h (rw gone refl)

flexible_edit_passes_example :
    flexible_edit quoting_library (codes "f(x)  = 1") (codes "f(x) = 1") (codes "y") ≡ pass
unfolding contains
flexible_edit_passes_example =
    flexible_edit_passes quoting_library (codes "f(x)  = 1") (codes "f(x) = 1") (codes "y")
      quoting_library-IsLiteral refl refl

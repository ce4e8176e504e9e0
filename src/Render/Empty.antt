-- ===== src/Render/Empty.antt =====
-- core/diff.go: when a diff is empty.
use mcp_filesystem_go_ultra.Common.{
  ℕ, ◌+◌, ◌≡◌, ◌≢◌, ◌↔◌, refl, sym, ap, ◌∙◌, List, [], ◌∷◌, ◌++◌, Option, none, Bytes, All,
  if◌then◌else◌, is_empty, bytes_eq_refl,
}
use mcp_filesystem_go_ultra.Diff.{
  EditKind, equal, insert, delete, Edit, diff, fill_table, backtrack, rest_edits,
}
use mcp_filesystem_go_ultra.Diff.Script.{texts_of, is_old, is_new, texts_of-diff}
use mcp_filesystem_go_ultra.Hunk.{
  Hunk, HunkState, hunk_step, hunk_loop, equal_step, equal_in, close_hunk, start_state,
  compute_hunks,
}
use mcp_filesystem_go_ultra.Hunk.Changes.{
  change_line, change_lines, hunk_changes, hunk_changes-compute_hunks,
}
use mcp_filesystem_go_ultra.Render.{
  split_lines, file_lines, format_hunks_full, unified_diff_context,
}

-- A script that prints no change keeps every line.
texts_same : (es : List Edit) → change_lines es ≡ [] → texts_of is_old es ≡ texts_of is_new es
unfolding change_lines texts_of
texts_same [] h = refl
texts_same (e ∷ es) h = by_kind e.kind e.text h (λ k. texts_same es k)
  where
    by_kind :
        (kind : EditKind) (text : Bytes)
        → change_line kind text ++ change_lines es ≡ []
        → (change_lines es ≡ [] → texts_of is_old es ≡ texts_of is_new es)
        → (if is_old kind then text ∷ texts_of is_old es else texts_of is_old es)
          ≡ (if is_new kind then text ∷ texts_of is_new es else texts_of is_new es)
    by_kind equal text h ih = ap (λ t. text ∷ t) (ih h)
    by_kind insert text h ih = cc h
    by_kind delete text h ih = cc h

-- The script from a list to itself keeps every line.
abbrev KeepsAll : List Edit → Type 0
KeepsAll = All (λ e. e.kind ≡ equal)

backtrack-KeepsAll :
    (dp : List (List ℕ)) (i j : ℕ) (xs : List Bytes) → KeepsAll (backtrack dp i j xs xs)
unfolding backtrack rest_edits
backtrack-KeepsAll dp i j [] = tt
backtrack-KeepsAll dp i j (x ∷ xs) =
    rw (bytes_eq_refl x, backtrack) (refl, backtrack-KeepsAll dp (i + 1) (j + 1) xs)

equal_in-none :
    (ctx : ℕ) (rest : List Edit) (text : Bytes) (st : HunkState) (c : Option Hunk)
    → c ≡ none
    → equal_in ctx rest text st c
      ≡ record st { old_line = st.old_line + 1; new_line = st.new_line + 1 }
unfolding equal_in
equal_in-none ctx rest text st c n = rw (n, equal_in)

step_of_equal :
    (ctx : ℕ) (seen rest : List Edit) (kind : EditKind) (text : Bytes) (st : HunkState)
    → kind ≡ equal
    → st.current ≡ none
    → hunk_step ctx seen rest kind text st
      ≡ record st { old_line = st.old_line + 1; new_line = st.new_line + 1 }
unfolding hunk_step equal_step equal_in
step_of_equal ctx seen rest kind text st k n =
    rw (k, hunk_step) (equal_in-none ctx rest text st st.current n)

loop_of_equal :
    (ctx : ℕ) (seen es : List Edit) (st : HunkState)
    → KeepsAll es
    → st.current ≡ none
    → ((hunk_loop ctx seen es st).current ≡ none) × ((hunk_loop ctx seen es st).hunks ≡ st.hunks)
unfolding hunk_loop
loop_of_equal ctx seen [] st k n = (n, refl)
loop_of_equal ctx seen (e ∷ es) st k n =
    rw (step_of_equal ctx seen (e ∷ es) e.kind e.text st k.0 n, hunk_loop)
      (loop_of_equal ctx (seen ++ e ∷ []) es
        (record st { old_line = st.old_line + 1; new_line = st.new_line + 1 }) k.1 n)

close_none : (st : HunkState) → st.current ≡ none → close_hunk st ≡ st.hunks
close_none st n = rw n

compute_hunks_self : (xs : List Bytes) (ctx : ℕ) → compute_hunks xs xs ctx ≡ []
unfolding compute_hunks diff
compute_hunks_self xs ctx =
    let (n, h) =
      loop_of_equal ctx [] (diff xs xs) start_state (backtrack-KeepsAll (fill_table xs xs) 0 0 xs)
        refl in
    close_none (hunk_loop ctx [] (diff xs xs) start_state) n ∙ h

same_lines_of_no_hunks : (xs ys : List Bytes) (ctx : ℕ) → compute_hunks xs ys ctx ≡ [] → xs ≡ ys
same_lines_of_no_hunks xs ys ctx h =
    let (o, n) = texts_of-diff xs ys in
    sym o
    ∙ texts_same (diff xs ys) (sym (hunk_changes-compute_hunks xs ys ctx) ∙ ap hunk_changes h)
    ∙ n

full-ne-nil : (hunks : List Hunk) (path : Bytes) → format_hunks_full hunks path ≢ []
unfolding format_hunks_full file_lines
full-ne-nil hunks path h = cc h

-- The unified diff is empty exactly when the two contents have the same lines, whatever the
-- number of context lines is.
pub unified_diff_empty_iff :
    (old_content new_content path : Bytes) (ctx : ℕ)
    → (unified_diff_context old_content new_content path ctx ≡ [])
      ↔ (split_lines old_content ≡ split_lines new_content)
unfolding unified_diff_context
unified_diff_empty_iff old_content new_content path ctx =
    let xs = split_lines old_content in
    let ys = split_lines new_content in
    (
      (λ h. no_hunks (compute_hunks xs ys ctx) (same_lines_of_no_hunks xs ys ctx) h),
      (λ e. rw (e, compute_hunks_self ys ctx)),
    )
  where
    no_hunks :
        {C : Type 0} (hunks : List Hunk)
        → (hunks ≡ [] → C)
        → (if is_empty hunks then [] else format_hunks_full hunks path) ≡ []
        → C
    no_hunks [] k h = k refl
    no_hunks (g ∷ gs) k h = absurd (full-ne-nil (g ∷ gs) path h)

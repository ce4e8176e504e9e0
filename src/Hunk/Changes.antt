-- ===== src/Hunk/Changes.antt =====
-- core/diff.go: the changes that the hunks of `computeHunks` print.
use mcp_filesystem_go_ultra.Common.{
  ℕ, ◌-◌, ◌≡◌, inl, inr, refl, sym, ap, ◌∙◌, Bool, true, false, ◌||◌, List, [], ◌∷◌, ◌++◌,
  append-nil, append_assoc, Option, none, some, Bytes, length, drop, leb, if◌then◌else◌, Bool-cases,
  arith,
}
use mcp_filesystem_go_ultra.Diff.{EditKind, equal, insert, delete, Edit, diff, is_equal}
use mcp_filesystem_go_ultra.Hunk.{
  Hunk, space, plus, minus, has_change_ahead, trailing_context, add_context, empty_hunk,
  add_leading, open_hunk, HunkState, current_or_open, equal_in, equal_step, hunk_step, hunk_loop,
  close_hunk, start_state, compute_hunks,
}
use mcp_filesystem_go_ultra.Hunk.Counts.{marked}

-- The changes that the lines of a hunk print, in order.
abbrev pub is_change : Bytes → Bool
is_change l = marked plus l || marked minus l

abbrev pub changes : List Bytes → List Bytes
changes [] = []
changes (l ∷ ls) = if is_change l then l ∷ changes ls else changes ls

changes-append : (ls ms : List Bytes) → changes (ls ++ ms) ≡ changes ls ++ changes ms
changes-append [] ms = refl
changes-append (l ∷ ls) ms = ground (arith, changes-append ls ms)

-- The changes of an edit script, as a diff prints them.
unfoldable pub change_line : EditKind → Bytes → List Bytes
change_line equal text = []
change_line insert text = (plus ∷ text) ∷ []
change_line delete text = (minus ∷ text) ∷ []

unfoldable pub change_lines : List Edit → List Bytes
unfolding change_line
change_lines [] = []
change_lines (e ∷ es) = change_line e.kind e.text ++ change_lines es

abbrev pub hunk_changes : List Hunk → List Bytes
hunk_changes [] = []
hunk_changes (h ∷ hs) = changes h.lines ++ hunk_changes hs

hunk_changes-append :
    (hs ks : List Hunk) → hunk_changes (hs ++ ks) ≡ hunk_changes hs ++ hunk_changes ks
hunk_changes-append [] ks = refl
hunk_changes-append (h ∷ hs) ks = simp (hunk_changes-append hs ks, append_assoc)

abbrev option_changes : Option Hunk → List Bytes
option_changes none = []
option_changes (some h) = changes h.lines

printed : HunkState → List Bytes
printed st = hunk_changes st.hunks ++ option_changes st.current

add_context-changes :
    (h : Hunk) (text : Bytes) → changes (add_context h text).lines ≡ changes h.lines
unfolding add_context
add_context-changes h text =
    changes-append h.lines ((space ∷ text) ∷ []) ∙ append-nil (changes h.lines)

one_leading :
    (b : Bool) (h : Hunk) (text : Bytes)
    → changes (if b then add_context h text else h).lines ≡ changes h.lines
one_leading true h text = add_context-changes h text
one_leading false h text = refl

add_leading-changes :
    (h : Hunk) (es : List Edit) → changes (add_leading h es).lines ≡ changes h.lines
unfolding add_leading
add_leading-changes h [] = refl
add_leading-changes h (e ∷ es) =
    add_leading-changes (if is_equal e.kind then add_context h e.text else h) es
    ∙ one_leading (is_equal e.kind) h e.text

open_hunk-changes :
    (ctx : ℕ) (seen : List Edit) (old_line new_line : ℕ)
    → changes (open_hunk ctx seen old_line new_line).lines ≡ []
unfolding open_hunk
open_hunk-changes ctx seen old_line new_line =
    add_leading-changes (empty_hunk (length seen - (length seen - ctx)) old_line new_line)
      (drop (length seen - ctx) seen)

current-changes :
    (ctx : ℕ) (seen : List Edit) (st : HunkState)
    → changes (current_or_open ctx seen st).lines ≡ option_changes st.current
unfolding current_or_open
current-changes ctx seen st = by_current st.current
  where
    by_current :
        (c : Option Hunk)
        → changes
            (Hunk.lines (elim c [ none ↦ open_hunk ctx seen st.old_line st.new_line | some h ↦ h ]))
          ≡ option_changes c
    by_current none = open_hunk-changes ctx seen st.old_line st.new_line
    by_current (some h) = refl

equal_in-printed :
    (ctx : ℕ) (rest : List Edit) (text : Bytes) (st : HunkState) (c : Option Hunk)
    → c ≡ st.current
    → printed (equal_in ctx rest text st c) ≡ hunk_changes st.hunks ++ option_changes c
unfolding printed equal_in
equal_in-printed ctx rest text st none e = rw (← e)
equal_in-printed ctx rest text st (some h) e = elim (Bool-cases (has_change_ahead rest ctx)) [
  | inl a ↦ rw (a, add_context-changes h text)
  | inr a ↦ elim (Bool-cases (leb ctx (trailing_context rest))) [
    | inl t ↦ rw (a, t, append-nil, hunk_changes-append, add_context-changes h text, append-nil)
    | inr t ↦ rw (a, t, add_context-changes h text)
  ]
]

hunk_step-printed :
    (ctx : ℕ) (seen rest : List Edit) (kind : EditKind) (text : Bytes) (st : HunkState)
    → printed (hunk_step ctx seen rest kind text st) ≡ printed st ++ change_line kind text
unfolding hunk_step printed change_line
hunk_step-printed ctx seen rest equal text st =
    unfold equal_step in (equal_in-printed ctx rest text st st.current refl ∙ sym (append-nil _))
hunk_step-printed ctx seen rest insert text st =
    rw
      (
        changes-append (current_or_open ctx seen st).lines ((plus ∷ text) ∷ []),
        current-changes ctx seen st,
      )
      (sym (append_assoc (hunk_changes st.hunks) (option_changes st.current) ((plus ∷ text) ∷ [])))
hunk_step-printed ctx seen rest delete text st =
    rw
      (
        changes-append (current_or_open ctx seen st).lines ((minus ∷ text) ∷ []),
        current-changes ctx seen st,
      )
      (sym (append_assoc (hunk_changes st.hunks) (option_changes st.current) ((minus ∷ text) ∷ [])))

hunk_loop-printed :
    (ctx : ℕ) (seen es : List Edit) (st : HunkState)
    → printed (hunk_loop ctx seen es st) ≡ printed st ++ change_lines es
unfolding hunk_loop change_lines
hunk_loop-printed ctx seen [] st = sym (append-nil (printed st))
hunk_loop-printed ctx seen (e ∷ es) st =
    hunk_loop-printed ctx (seen ++ e ∷ []) es (hunk_step ctx seen (e ∷ es) e.kind e.text st)
    ∙ ap (λ t. t ++ change_lines es) (hunk_step-printed ctx seen (e ∷ es) e.kind e.text st)
    ∙ append_assoc (printed st) (change_line e.kind e.text) (change_lines es)

close-printed : (st : HunkState) → hunk_changes (close_hunk st) ≡ printed st
unfolding printed
close-printed st = by_current st.current
  where
    by_current :
        (c : Option Hunk)
        → hunk_changes (elim c [ none ↦ st.hunks | some h ↦ st.hunks ++ h ∷ [] ])
          ≡ hunk_changes st.hunks ++ option_changes c
    by_current none = sym (append-nil (hunk_changes st.hunks))
    by_current (some h) =
        hunk_changes-append st.hunks (h ∷ [])
        ∙ ap (λ t. hunk_changes st.hunks ++ t) (append-nil (changes h.lines))

-- The hunks print every change of the edit script once, in order, and no other change, whatever
-- the number of context lines is.
pub hunk_changes-compute_hunks :
    (old_lines new_lines : List Bytes) (ctx : ℕ)
    → hunk_changes (compute_hunks old_lines new_lines ctx) ≡ change_lines (diff old_lines new_lines)
unfolding compute_hunks
hunk_changes-compute_hunks old_lines new_lines ctx =
    close-printed _
    ∙ hunk_loop-printed ctx [] (diff old_lines new_lines) start_state
    ∙ unfold printed in refl

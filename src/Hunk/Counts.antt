-- ===== src/Hunk/Counts.antt =====
-- core/diff.go: the counts of the hunks of `computeHunks`.
use mcp_filesystem_go_ultra.Common.{
  ℕ, ◌+◌, ◌-◌, ◌≡◌, inl, inr, refl, Bool, false, ◌||◌, List, [], ◌∷◌, ◌++◌, Option, none, some,
  Bytes, length, drop, All, All-append, leb, ◌==◌, if◌then◌else◌, Bool-cases, arith,
}
use mcp_filesystem_go_ultra.Diff.{EditKind, equal, insert, delete, Edit, diff, is_equal}
use mcp_filesystem_go_ultra.Hunk.{
  Hunk, space, plus, minus, has_change_ahead, trailing_context, add_context, empty_hunk,
  add_leading, open_hunk, HunkState, current_or_open, equal_in, equal_step, hunk_step, hunk_loop,
  close_hunk, start_state, compute_hunks,
}

-- The first byte of a line is the given one.
abbrev pub marked : ℕ → Bytes → Bool
marked b [] = false
marked b (c ∷ l) = c == b

-- The lines that pass a test, counted.
abbrev pub count_lines : (Bytes → Bool) → List Bytes → ℕ
count_lines test [] = 0
count_lines test (l ∷ ls) = (if test l then 1 else 0) + count_lines test ls

count_lines-append :
    (test : Bytes → Bool) (ls ms : List Bytes)
    → count_lines test (ls ++ ms) ≡ count_lines test ls + count_lines test ms
count_lines-append test [] ms = omega arith
count_lines-append test (l ∷ ls) ms = omega (arith, count_lines-append test ls ms)

abbrev pub of_old : Bytes → Bool
of_old l = marked space l || marked minus l

abbrev pub of_new : Bytes → Bool
of_new l = marked space l || marked plus l

-- The counts of the header are those of the lines below it.
pub record CountsAgree (h : Hunk) : Type 0 where
  pub old_agrees : h.old_count ≡ count_lines of_old h.lines
  pub new_agrees : h.new_count ≡ count_lines of_new h.lines

add_context-CountsAgree :
    (h : Hunk) (text : Bytes) → CountsAgree h → CountsAgree (add_context h text)
unfolding add_context
add_context-CountsAgree h text c = ground (
  arith,
  count_lines-append of_old h.lines ((space ∷ text) ∷ []),
  count_lines-append of_new h.lines ((space ∷ text) ∷ []),
)

add_leading-CountsAgree :
    (h : Hunk) (es : List Edit) → CountsAgree h → CountsAgree (add_leading h es)
unfolding add_leading
add_leading-CountsAgree h [] c = c
add_leading-CountsAgree h (e ∷ es) c = elim (Bool-cases (is_equal e.kind)) [
  | inl k ↦
      rw k (add_leading-CountsAgree (add_context h e.text) es (add_context-CountsAgree h e.text c))
  | inr k ↦ rw k (add_leading-CountsAgree h es c)
]

abbrev OptionAll {ℓ κ} : {A : Type ℓ} → (A → Type κ) → Option A → Type κ
OptionAll P none = Unit
OptionAll P (some a) = P a

-- What holds of the state between two rounds.
record Good (P : Hunk → Type 0) (st : HunkState) : Type 0 where
  closed_good : All P st.hunks
  current_good : OptionAll P st.current

-- A property of hunks that each change of a hunk keeps.
pub record Kept (P : Hunk → Type 0) (ctx : ℕ) : Type 0 where
  pub opened : (seen : List Edit) (old_line new_line : ℕ) → P (open_hunk ctx seen old_line new_line)
  pub with_context : (h : Hunk) (text : Bytes) → P h → P (add_context h text)
  pub with_deleted :
      (h : Hunk) (text : Bytes)
      → P h
      → P (record h { old_count = h.old_count + 1; lines = h.lines ++ (minus ∷ text) ∷ [] })
  pub with_inserted :
      (h : Hunk) (text : Bytes)
      → P h
      → P (record h { new_count = h.new_count + 1; lines = h.lines ++ (plus ∷ text) ∷ [] })

module _ (P : Hunk → Type 0) (ctx : ℕ) (kept : Kept P ctx) where
  current-Good : (seen : List Edit) (st : HunkState) → Good P st → P (current_or_open ctx seen st)
  unfolding current_or_open
  current-Good seen st g = by_current st.current g.current_good
    where
      by_current :
          (c : Option Hunk)
          → OptionAll P c
          → P (elim c [ none ↦ open_hunk ctx seen st.old_line st.new_line | some h ↦ h ])
      by_current none g = kept.opened seen st.old_line st.new_line
      by_current (some h) g = g

  equal_in-Good :
      (rest : List Edit) (text : Bytes) (st : HunkState) (c : Option Hunk)
      → All P st.hunks
      → OptionAll P c
      → OptionAll P st.current
      → Good P (equal_in ctx rest text st c)
  unfolding equal_in
  equal_in-Good rest text st none all g k = record { closed_good = all; current_good = k }
  equal_in-Good rest text st (some h) all g k =
      let g' = kept.with_context h text g in
      elim (Bool-cases (has_change_ahead rest ctx)) [
        | inl e ↦ rw e (record { closed_good = all; current_good = g' })
        | inr e ↦ elim (Bool-cases (leb ctx (trailing_context rest))) [
          | inl t ↦
              rw (e, t)
                (record {
                  closed_good = All-append P st.hunks (add_context h text ∷ []) all (g', tt);
                  current_good = tt;
                })
          | inr t ↦ rw (e, t) (record { closed_good = all; current_good = g' })
        ]
      ]

  equal_step-Good :
      (rest : List Edit) (text : Bytes) (st : HunkState)
      → Good P st
      → Good P (equal_step ctx rest text st)
  unfolding equal_step
  equal_step-Good rest text st g =
      equal_in-Good rest text st st.current g.closed_good g.current_good g.current_good

  hunk_step-Good :
      (seen rest : List Edit) (kind : EditKind) (text : Bytes) (st : HunkState)
      → Good P st
      → Good P (hunk_step ctx seen rest kind text st)
  unfolding hunk_step
  hunk_step-Good seen rest equal text st g = equal_step-Good rest text st g
  hunk_step-Good seen rest delete text st g = record {
    closed_good = g.closed_good;
    current_good = kept.with_deleted _ text (current-Good seen st g);
  }
  hunk_step-Good seen rest insert text st g = record {
    closed_good = g.closed_good;
    current_good = kept.with_inserted _ text (current-Good seen st g);
  }

  hunk_loop-Good :
      (seen es : List Edit) (st : HunkState) → Good P st → Good P (hunk_loop ctx seen es st)
  unfolding hunk_loop
  hunk_loop-Good seen [] st g = g
  hunk_loop-Good seen (e ∷ es) st g =
      hunk_loop-Good (seen ++ e ∷ []) es _ (hunk_step-Good seen (e ∷ es) e.kind e.text st g)

  close-All : (st : HunkState) → Good P st → All P (close_hunk st)
  close-All st g = by_current st.current g.current_good
    where
      by_current :
          (c : Option Hunk)
          → OptionAll P c
          → All P (elim c [ none ↦ st.hunks | some h ↦ st.hunks ++ h ∷ [] ])
      by_current none k = g.closed_good
      by_current (some h) k = All-append P st.hunks (h ∷ []) g.closed_good (k, tt)

  pub compute_hunks-All :
      (old_lines new_lines : List Bytes) → All P (compute_hunks old_lines new_lines ctx)
  unfolding compute_hunks
  compute_hunks-All old_lines new_lines = close-All _ (
      hunk_loop-Good [] (diff old_lines new_lines) start_state
        (record { closed_good = tt; current_good = tt }))

open_hunk-CountsAgree :
    (ctx : ℕ) (seen : List Edit) (old_line new_line : ℕ)
    → CountsAgree (open_hunk ctx seen old_line new_line)
unfolding open_hunk
open_hunk-CountsAgree ctx seen old_line new_line =
    add_leading-CountsAgree (empty_hunk (length seen - (length seen - ctx)) old_line new_line)
      (drop (length seen - ctx) seen) (record { old_agrees = refl; new_agrees = refl })

CountsAgree-Kept : (ctx : ℕ) → Kept CountsAgree ctx
CountsAgree-Kept ctx = record {
  opened = open_hunk-CountsAgree ctx;
  with_context = add_context-CountsAgree;
  with_deleted = λ h text c. ground (
    arith,
    count_lines-append of_old h.lines ((minus ∷ text) ∷ []),
    count_lines-append of_new h.lines ((minus ∷ text) ∷ []),
  );
  with_inserted = λ h text c. ground (
    arith,
    count_lines-append of_old h.lines ((plus ∷ text) ∷ []),
    count_lines-append of_new h.lines ((plus ∷ text) ∷ []),
  );
}

-- In every hunk the two counts of the header are those of the lines below it: the kept and the
-- deleted lines, and the kept and the inserted ones.
pub hunk_counts :
    (old_lines new_lines : List Bytes) (ctx : ℕ)
    → All CountsAgree (compute_hunks old_lines new_lines ctx)
hunk_counts old_lines new_lines ctx =
    compute_hunks-All CountsAgree ctx (CountsAgree-Kept ctx) old_lines new_lines

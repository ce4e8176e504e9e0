-- ===== src/Edit/Endings.antt =====
-- core/edit_operations.go: line endings found, normalized and restored.
use mcp_filesystem_go_ultra.Common.{
  ℕ, suc, ◌+◌, ◌≤◌, ◌≡◌, inl, inr, refl, sym, ap, subst, ◌∙◌, true, false, [], ◌∷◌, ◌++◌, Bytes,
  ltb, ◌==◌, if◌then◌else◌, Bool-cases, arith,
}
use mcp_filesystem_go_ultra.Common.{newline}
use mcp_filesystem_go_ultra.Common.Search.{
  count_text, replace_all, has_prefix, count_from, replace_from, count-step, replace-step,
}
use mcp_filesystem_go_ultra.Whitespace.{carriage_return}
use mcp_filesystem_go_ultra.Edit.Eol.{
  lf, cr, crlf, normalize_line_endings, detect_eol, restore_eol, choose_eol, crlf_count, lf_count,
  cr_count,
}

-- The bytes `b` of a text, all replaced by `new`: a search for one byte.
one-step :
    (b c : ℕ) (s new : Bytes)
    → replace_all (c ∷ s) (b ∷ []) new
      ≡ (if b == c then new ++ replace_all s (b ∷ []) new else c ∷ replace_all s (b ∷ []) new)
one-step b c s new = elim (Bool-cases (b == c)) [
  | inl e ↦ rw (replace-step c s (b ∷ []) new, e) refl
  | inr e ↦ rw (replace-step c s (b ∷ []) new, e) refl
]

one-count :
    (b c : ℕ) (s : Bytes)
    → count_text (c ∷ s) (b ∷ [])
      ≡ (if b == c then suc (count_text s (b ∷ [])) else count_text s (b ∷ []))
one-count b c s = elim (Bool-cases (b == c)) [
  | inl e ↦ rw (count-step c s (b ∷ []), e) refl
  | inr e ↦ rw (count-step c s (b ∷ []), e) refl
]

-- A text without a byte is not changed where it is replaced.
one-absent : (b : ℕ) (s new : Bytes) → count_text s (b ∷ []) ≡ 0 → replace_all s (b ∷ []) new ≡ s
unfolding replace_from
one-absent b [] new h = refl
one-absent b (c ∷ s) new h = elim (Bool-cases (b == c)) [
  | inl e ↦ absurd (cc (rw (one-count b c s, e) at h))
  | inr e ↦
      rw (one-step b c s new, e)
        (ap (λ t. c ∷ t) (one-absent b s new (rw (one-count b c s, e) at h)))
]

-- Where one byte stands for another that the text lacks, the way back gives the text.
one-back :
    (a b : ℕ) (s : Bytes)
    → count_text s (b ∷ []) ≡ 0
    → replace_all (replace_all s (a ∷ []) (b ∷ [])) (b ∷ []) (a ∷ []) ≡ s
unfolding replace_from
one-back a b [] h = refl
one-back a b (c ∷ s) h = elim (Bool-cases (b == c)) [
  | inl e ↦ absurd (cc (rw (one-count b c s, e) at h))
  | inr e ↦
      let rest = one-back a b s (rw (one-count b c s, e) at h) in
      elim (Bool-cases (a == c)) [
        | inl f ↦
            let same : b == b ≡ true = ground arith in
            let to_c : a ≡ c = ground arith in
            rw
              (
                one-step a c s (b ∷ []),
                f,
                one-step b b (replace_all s (a ∷ []) (b ∷ [])) (a ∷ []),
                same,
              )
              (ap (λ t. a ∷ t) rest ∙ ap (λ k. k ∷ s) to_c)
        | inr f ↦
            rw
              (
                one-step a c s (b ∷ []),
                f,
                one-step b c (replace_all s (a ∷ []) (b ∷ [])) (a ∷ []),
                e,
              )
              (ap (λ t. c ∷ t) rest)
      ]
]

-- The text whose pairs of a carriage return and a line feed are line feeds.
abbrev unpaired : Bytes → Bytes
unpaired s = replace_all s crlf lf

-- What the pairs of a text say: there are as many returns and feeds; without pairs it is the text;
-- where all returns are in pairs none is left, and where all feeds are too, the way back is open.
abbrev Pairs : Bytes → Type 0
Pairs s =
    (crlf_count s ≤ count_text s lf)
    × (crlf_count s ≤ count_text s cr)
    × (crlf_count s ≡ 0 → unpaired s ≡ s)
    × (crlf_count s ≡ count_text s cr → count_text (unpaired s) cr ≡ 0)
    × (crlf_count s ≡ count_text s cr
        → crlf_count s ≡ count_text s lf
        → replace_all (unpaired s) lf crlf ≡ s)

Pairs-crlf : (s : Bytes) → Pairs s → Pairs (carriage_return ∷ newline ∷ s)
unfolding count_from replace_from
Pairs-crlf s (feeds, returns, same, left, back) = (
  omega (arith, feeds),
  omega (arith, returns),
  λ h. absurd (cc h),
  λ h. left (cc h),
  λ h k. ap (λ t. carriage_return ∷ newline ∷ t) (back (cc h) (cc k)),
)

Pairs-cons : (c : ℕ) (s : Bytes) → has_prefix crlf (c ∷ s) ≡ false → Pairs s → Pairs (c ∷ s)
Pairs-cons c s e (feeds, returns, same, left, back) =
    let pairs : crlf_count (c ∷ s) ≡ crlf_count s = count-step c s crlf ∙ rw e refl in
    let text : unpaired (c ∷ s) ≡ c ∷ unpaired s = replace-step c s crlf lf ∙ rw e refl in
    let keeps : crlf_count (c ∷ s) ≡ 0 → unpaired (c ∷ s) ≡ c ∷ s =
      λ h. text ∙ ap (λ t. c ∷ t) (same (sym pairs ∙ h)) in
    elim (Bool-cases (carriage_return == c)) [
      | inl r ↦
          let n : (newline == c) ≡ false = ground (arith, r) in
          let rs : count_text (c ∷ s) cr ≡ suc (count_text s cr) =
            one-count carriage_return c s ∙ rw r refl in
          let fs : count_text (c ∷ s) lf ≡ count_text s lf = one-count newline c s ∙ rw n refl in
          (
            omega (arith, feeds, pairs, fs),
            omega (arith, returns, pairs, rs),
            keeps,
            λ h. absurd (omega (arith, h, pairs, rs, returns)),
            λ h k. absurd (omega (arith, h, pairs, rs, returns)),
          )
      | inr r ↦
          let rs : count_text (c ∷ s) cr ≡ count_text s cr =
            one-count carriage_return c s ∙ rw r refl in
          let lr : count_text (unpaired (c ∷ s)) cr ≡ count_text (unpaired s) cr =
            ap (λ t. count_text t cr) text ∙ one-count carriage_return c (unpaired s) ∙ rw r refl in
          elim (Bool-cases (newline == c)) [
            | inl n ↦
                let fs : count_text (c ∷ s) lf ≡ suc (count_text s lf) =
                  one-count newline c s ∙ rw n refl in
                (
                  omega (arith, feeds, pairs, fs),
                  omega (arith, returns, pairs, rs),
                  keeps,
                  λ h. lr ∙ left (omega (arith, h, pairs, rs)),
                  λ h k. absurd (omega (arith, k, pairs, fs, feeds)),
                )
            | inr n ↦
                let fs : count_text (c ∷ s) lf ≡ count_text s lf =
                  one-count newline c s ∙ rw n refl in
                let whole : replace_all (unpaired (c ∷ s)) lf crlf
                    ≡ c ∷ replace_all (unpaired s) lf crlf =
                  ap (λ t. replace_all t lf crlf) text
                  ∙ one-step newline c (unpaired s) crlf
                  ∙ rw n refl in
                (
                  omega (arith, feeds, pairs, fs),
                  omega (arith, returns, pairs, rs),
                  keeps,
                  λ h. lr ∙ left (omega (arith, h, pairs, rs)),
                  λ h k.
                      whole
                      ∙ ap (λ t. c ∷ t)
                          (back (omega (arith, h, pairs, rs)) (omega (arith, k, pairs, fs))),
                )
          ]
    ]

Pairs-all : (s : Bytes) → Pairs s
unfolding count_from replace_from
Pairs-all [] = (omega arith, omega arith, λ h. refl, λ h. refl, λ h k. refl)
Pairs-all (c ∷ []) = Pairs-cons c [] (ground arith) (Pairs-all [])
Pairs-all (c ∷ d ∷ s) = elim (Bool-cases (has_prefix crlf (c ∷ d ∷ s))) [
  | inr e ↦ Pairs-cons c (d ∷ s) e (Pairs-all (d ∷ s))
  | inl e ↦
      let (c_is, d_is) : (carriage_return ≡ c) × (newline ≡ d) =
        (ground (arith, e), ground (arith, e)) in
      subst (λ x. Pairs (x ∷ d ∷ s)) c_is
        (subst (λ y. Pairs (carriage_return ∷ y ∷ s)) d_is (Pairs-crlf s (Pairs-all s)))
]

-- How many of the three kinds of line ending a text has.
abbrev pub ending_kinds : Bytes → ℕ
ending_kinds s =
    (if ltb 0 (crlf_count s) then 1 else 0)
    + ((if ltb 0 (lf_count s) then 1 else 0) + (if ltb 0 (cr_count s) then 1 else 0))

choose-pairs : (a b c : ℕ) → ltb 0 a ≡ true → b ≡ 0 → c ≡ 0 → choose_eol a b c ≡ crlf
unfolding choose_eol
choose-pairs a b c h f r = ground arith

choose-returns : (a b c : ℕ) → a ≡ 0 → b ≡ 0 → ltb 0 c ≡ true → choose_eol a b c ≡ cr
unfolding choose_eol
choose-returns a b c h f r = ground arith

choose-feeds : (a b c : ℕ) → a ≡ 0 → c ≡ 0 → choose_eol a b c ≡ lf
unfolding choose_eol
choose-feeds a b c h r = ground arith

normalized_no_returns :
    (s : Bytes) → count_text (unpaired s) cr ≡ 0 → normalize_line_endings s ≡ unpaired s
unfolding normalize_line_endings
normalized_no_returns s h = one-absent carriage_return (unpaired s) lf h

paired_only : (s : Bytes) → unpaired s ≡ s → normalize_line_endings s ≡ replace_all s cr lf
unfolding normalize_line_endings
paired_only s h = ap (λ t. replace_all t cr lf) h

-- A text that has line endings of one kind at most gets back from the normalized text with the
-- ending that was found in it.
pub restore-normalize :
    (s : Bytes) → ending_kinds s ≤ 1 → restore_eol (normalize_line_endings s) (detect_eol s) ≡ s
unfolding restore_eol detect_eol
restore-normalize s one =
    let (feeds, returns, same, left, back) = Pairs-all s in
    elim (Bool-cases (ltb 0 (crlf_count s))) [
      | inl e ↦
          let (f, r) : (lf_count s ≡ 0) × (cr_count s ≡ 0) =
            (ground (arith, one, e), ground (arith, one, e)) in
          let all_r : crlf_count s ≡ count_text s cr = omega (arith, r, returns) in
          let all_f : crlf_count s ≡ count_text s lf = omega (arith, f, feeds) in
          let eol : detect_eol s ≡ crlf = choose-pairs _ _ _ e f r in
          rw (eol, normalized_no_returns s (left all_r)) (back all_r all_f)
      | inr e ↦
          let none_paired : crlf_count s ≡ 0 = ground (arith, e) in
          elim (Bool-cases (ltb 0 (cr_count s))) [
            | inl r ↦
                let f : lf_count s ≡ 0 = ground (arith, one, r, none_paired) in
                let no_feeds : count_text s lf ≡ 0 = omega (arith, f, none_paired) in
                let eol : detect_eol s ≡ cr = choose-returns _ _ _ none_paired f r in
                let text : normalize_line_endings s ≡ replace_all s cr lf =
                  paired_only s (same none_paired) in
                rw (eol, text) (one-back carriage_return newline s no_feeds)
            | inr r ↦
                let no_lone : cr_count s ≡ 0 = ground (arith, r) in
                let no_returns : count_text s cr ≡ 0 = omega (arith, no_lone, none_paired) in
                let eol : detect_eol s ≡ lf = choose-feeds _ _ _ none_paired no_lone in
                let text : normalize_line_endings s ≡ s =
                  paired_only s (same none_paired) ∙ one-absent carriage_return s lf no_returns in
                rw (eol, text) refl
          ]
    ]

-- ===== src/Whitespace/Normal.antt =====
-- core/whitespace_matcher.go: normal texts, and normalizing them again.
use mcp_filesystem_go_ultra.Common.{
  ℕ, zero, suc, ◌+◌, ◌≡◌, ◌≢◌, inl, inr, refl, ap, false, [], ◌∷◌, Bytes, All, ◌==◌, Bool-cases,
  arith,
}
use mcp_filesystem_go_ultra.Common.{newline, ne-==_false}
use mcp_filesystem_go_ultra.Common.Int.{ℤ}
use mcp_filesystem_go_ultra.Whitespace.{
  Normalized, carriage_return, tab, emit_spaces, emit_byte, normalize_from,
  normalize_for_tolerant_match,
}

-- No tab and no carriage return.
abbrev pub IsNormal : Bytes → Type 0
IsNormal = All (λ c. (c ≢ carriage_return) × (c ≢ tab))

emit_spaces-IsNormal :
    (n i : ℕ) (r : Normalized) → IsNormal r.content → IsNormal (emit_spaces n i r).content
unfolding emit_spaces
emit_spaces-IsNormal zero i r h = h
emit_spaces-IsNormal (suc n) i r h =
    (((λ e. ground arith), (λ e. ground arith)), emit_spaces-IsNormal n i r h)

emit_byte-IsNormal :
    (indent c i : ℕ) (r : Normalized)
    → (c == carriage_return) ≡ false
    → IsNormal r.content
    → IsNormal (emit_byte indent c i r).content
unfolding emit_byte
emit_byte-IsNormal indent c i r not_return h = elim (Bool-cases (c == tab)) [
  | inl hit ↦ rw hit (emit_spaces-IsNormal indent i r h)
  | inr miss ↦ rw miss (((λ e. ground arith), (λ e. ground arith)), h)
]

normalize_from-IsNormal : (indent i : ℕ) (s : Bytes) → IsNormal (normalize_from indent i s).content
unfolding normalize_from
normalize_from-IsNormal indent i [] = tt
normalize_from-IsNormal indent i (c ∷ []) = elim (Bool-cases (c == carriage_return)) [
  | inl hit ↦ rw hit (((λ e. ground arith), (λ e. ground arith)), tt)
  | inr miss ↦ rw miss (emit_byte-IsNormal indent c i _ miss tt)
]
normalize_from-IsNormal indent i (c ∷ d ∷ s) =
    let after_two = normalize_from-IsNormal indent (i + 2) s in
    let after_one = normalize_from-IsNormal indent (i + 1) (d ∷ s) in
    elim (Bool-cases (c == carriage_return)) [
      | inl hit ↦ elim (Bool-cases (d == newline)) [
        | inl feed ↦ rw (hit, feed) (((λ e. ground arith), (λ e. ground arith)), after_two)
        | inr other ↦ rw (hit, other) (((λ e. ground arith), (λ e. ground arith)), after_one)
      ]
      | inr miss ↦ rw miss (emit_byte-IsNormal indent c i _ miss after_one)
    ]

-- A normal text is left as it is.
normalize_from_normal :
    (indent i : ℕ) (s : Bytes) → IsNormal s → (normalize_from indent i s).content ≡ s
unfolding normalize_from emit_byte
normalize_from_normal indent i [] h = refl
normalize_from_normal indent i (c ∷ []) ((no_return, no_tab), h) =
    rw (ne-==_false c carriage_return no_return, ne-==_false c tab no_tab) refl
normalize_from_normal indent i (c ∷ d ∷ s) ((no_return, no_tab), h) =
    rw (ne-==_false c carriage_return no_return, ne-==_false c tab no_tab)
      (ap (λ r. c ∷ r) (normalize_from_normal indent (i + 1) (d ∷ s) h))

-- Normalizing a text twice gives what normalizing it once gives, whatever the two indents are.
pub normalize_twice :
    (s : Bytes) (indent other : ℤ)
    → (normalize_for_tolerant_match (normalize_for_tolerant_match s indent).content other).content
      ≡ (normalize_for_tolerant_match s indent).content
unfolding normalize_for_tolerant_match
normalize_twice s indent other = normalize_from_normal _ 0 _ (normalize_from-IsNormal _ 0 s)

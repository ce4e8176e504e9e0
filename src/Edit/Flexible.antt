-- ===== src/Edit/Flexible.antt =====
-- core/edit_operations.go: the last strategy, and its pattern.
use mcp_filesystem_go_ultra.Common.{
  ℕ, ◌≡◌, Option, none, some, length, ltb, inl, inr, refl, ap, subst, ◌∙◌, true, false, [], ◌∷◌,
  Bytes, ◌==◌, Bool-cases, arith,
}
use mcp_filesystem_go_ultra.Common.{count_byte}
use mcp_filesystem_go_ultra.Common.Search.{
  replace_all, has_prefix, contains, replace-step, replace_from,
}
use mcp_filesystem_go_ultra.Edit.{Library, Regexp, pass}
use mcp_filesystem_go_ultra.Edit.Cascade.{flexible_result, flexible_edit}
use mcp_filesystem_go_ultra.Edit.Lines.{
  quote_meta, is_meta, make_flexible_pattern, any_spaces, spaced_newline,
}

pub other_byte : (x c : ℕ) → is_meta x ≡ false → is_meta c ≡ true → (x == c) ≡ false
other_byte x c plain meta = elim (Bool-cases (x == c)) [
  | inr e ↦ e
  | inl e ↦
      let same : x ≡ c = ground (arith, e) in
      absurd (cc (subst (λ b. is_meta b ≡ false) same plain, meta))
]

-- `\x` stands nowhere in a quoted text, where `x` is a byte that is not quoted.
quoted-lacks :
    (x : ℕ) (s new : Bytes)
    → is_meta x ≡ false
    → count_byte 92 s ≡ 0
    → replace_all (quote_meta s) (92 ∷ x ∷ []) new ≡ quote_meta s
unfolding replace_from
quoted-lacks x [] new plain h = refl
quoted-lacks x (c ∷ s) new plain h =
    let old : Bytes = 92 ∷ x ∷ [] in
    let q = quote_meta s in
    let c_other : (92 == c) ≡ false = ground (arith, h) in
    let rest = quoted-lacks x s new plain (ground (arith, h)) in
    let at_c : has_prefix old (c ∷ q) ≡ false = ground (arith, c_other) in
    let behind : replace_all (c ∷ q) old new ≡ c ∷ q =
      replace-step c q old new ∙ rw at_c (ap (λ t. c ∷ t) rest) in
    elim (Bool-cases (is_meta c)) [
      | inr e ↦ rw e behind
      | inl e ↦
          let differs : (x == c) ≡ false = other_byte x c plain e in
          let at_slash : has_prefix old (92 ∷ c ∷ q) ≡ false = rw differs refl in
          rw e (replace-step 92 (c ∷ q) old new ∙ rw at_slash (ap (λ t. 92 ∷ t) behind))
    ]

-- Without a backslash the pattern is the quoted text.
make_flexible_pattern-quote_meta :
    (old : Bytes) → count_byte 92 old ≡ 0 → make_flexible_pattern (quote_meta old) ≡ quote_meta old
unfolding make_flexible_pattern
make_flexible_pattern-quote_meta old h =
    let spaces = quoted-lacks b' ' old any_spaces refl h in
    rw spaces (quoted-lacks b'n' old spaced_newline refl h)

-- What `regexp` documents of a quoted text: as a pattern it matches the literal text only.
unfoldable pub IsLiteral : Library → Type 0
IsLiteral library =
    (old : Bytes) (re : Regexp)
    → library.compile (quote_meta old) ≡ some re
    → (content : Bytes) → contains content old ≡ false
    → re.find_all_string content ≡ []

flexible_result-pass :
    (content new : Bytes) (o : Option Regexp)
    → ((re : Regexp) → o ≡ some re → re.find_all_string content ≡ [])
    → flexible_result content new o ≡ pass
unfolding flexible_result
flexible_result-pass content new none found_none = refl
flexible_result-pass content new (some re) found_none =
    let nothing = found_none re refl in rw nothing refl

-- The last strategy finds nothing where the old text has no backslash and does not stand in the
-- content, if a quoted text as a pattern matches that text only: no other white space is matched.
pub flexible_edit_passes :
    (library : Library) (content old new : Bytes)
    → IsLiteral library
    → count_byte 92 old ≡ 0
    → contains content old ≡ false
    → flexible_edit library content old new ≡ pass
unfolding flexible_edit IsLiteral
flexible_edit_passes library content old new literal plain absent =
    elim (Bool-cases (ltb (length content) 102400)) [
      | inr e ↦ rw (e, flexible_edit) refl
      | inl e ↦
          rw (e, flexible_edit, make_flexible_pattern-quote_meta old plain)
            (flexible_result-pass content new (library.compile (quote_meta old))
              (λ re h. literal old re h content absent))
    ]

-- ===== src/Structure/Additive.antt =====
-- core/structure_check.go: what `delimiterBalance` counts, text by text.
use mcp_filesystem_go_ultra.Common.{
  ℕ, ◌+◌, ◌≡◌, ◌≢◌, refl, sym, ap, subst, ◌∙◌, inl, inr, Bool, true, false, [], ◌∷◌, ◌++◌, Option,
  none, some, Bytes, newline, ends_with, count_byte, All, Bool-cases, arith,
}
use native.Mathlib.Nat.{add-zero}
use mcp_filesystem_go_ultra.Common.Int.{ℤ, pos, ◌+ℤ◌, ◌-ℤ◌, +ℤ_parts, -ℤ_parts, int_laws}
use mcp_filesystem_go_ultra.Structure.{
  Balance, Scan, slash, count_delimiter, is_quote, step, scan, zero_balance, start,
  delimiter_balance,
}
use mcp_filesystem_go_ultra.Structure.Scanner.{
  IsCode, scan-append, add_balance, shift, scan-shift, scan_skip, scan_stay, scan_one, scan_nil,
}

-- An escape is pending only inside a string.
abbrev EscapeInside : Scan → Type 0
EscapeInside st = st.string_quote ≡ 0 → st.escaped ≡ false

step-EscapeInside :
    (c : ℕ) (next : Option ℕ) (st : Scan) → EscapeInside st → EscapeInside (step c next st).0
unfolding step
step-EscapeInside c next st h = ground arith

scan-EscapeInside : (s : Bytes) (st : Scan) → EscapeInside st → EscapeInside (scan s st)
scan-EscapeInside [] st h = subst EscapeInside (sym (scan_nil st)) h
scan-EscapeInside (c ∷ []) st h =
    subst EscapeInside (sym (scan_one c st)) (step-EscapeInside c none st h)
scan-EscapeInside (c ∷ d ∷ s) st h =
    let h' = step-EscapeInside c (some d) st h in
    elim (Bool-cases (step c (some d) st).1) [
      | inl skip ↦
          subst EscapeInside (sym (scan_skip c d s st skip))
            (scan-EscapeInside s (step c (some d) st).0 h')
      | inr stay ↦
          subst EscapeInside (sym (scan_stay c d s st stay))
            (scan-EscapeInside (d ∷ s) (step c (some d) st).0 h')
    ]

-- A state in code is the start with some balance.
code_is_start : (st : Scan) → IsCode st → EscapeInside st → st ≡ shift st.balance start
unfolding ◌+ℤ◌
code_is_start st k e = ground arith

-- The balance of two texts is the sum of the balances, if the first ends outside strings and
-- comments and its last byte is no slash.
pub delimiter_balance-append :
    (s t : Bytes)
    → ends_with slash s ≡ false
    → IsCode (scan s start)
    → delimiter_balance (s ++ t) ≡ add_balance (delimiter_balance s) (delimiter_balance t)
unfolding delimiter_balance
delimiter_balance-append s t e k =
    let same = code_is_start (scan s start) k (scan-EscapeInside s start (λ _. refl)) in
    ap (λ (st : Scan). st.balance)
      (scan-append s t start e k ∙ ap (scan t) same ∙ scan-shift t (scan s start).balance start)

-- A line comment leaves the scanner where it was.
comment_rest :
    (c : Bytes)
    → All (λ b. b ≢ newline) c
    → scan (c ++ newline ∷ []) (record start { in_line_comment = true }) ≡ start
comment_rest [] h = scan_one newline (record start { in_line_comment = true }) ∙ unfold step in refl
comment_rest (b ∷ []) h =
    scan_stay b newline [] (record start { in_line_comment = true }) (unfold step in refl)
    ∙ ap (scan (newline ∷ [])) (inside b newline h.0)
    ∙ comment_rest [] tt
  where
    inside :
        (b d : ℕ)
        → b ≢ newline
        → (step b (some d) (record start { in_line_comment = true })).0
          ≡ record start { in_line_comment = true }
    inside b d n = unfold step in ground arith
comment_rest (b ∷ d ∷ c) h =
    scan_stay b d (c ++ newline ∷ []) (record start { in_line_comment = true })
      (unfold step in refl)
    ∙ ap (scan (d ∷ (c ++ newline ∷ []))) (inside b d h.0)
    ∙ comment_rest (d ∷ c) h.1
  where
    inside :
        (b d : ℕ)
        → b ≢ newline
        → (step b (some d) (record start { in_line_comment = true })).0
          ≡ record start { in_line_comment = true }
    inside b d n = unfold step in ground arith

abbrev comment : Bytes → Bytes
comment c = slash ∷ slash ∷ (c ++ newline ∷ [])

scan-comment : (c : Bytes) → All (λ b. b ≢ newline) c → scan (comment c) start ≡ start
scan-comment c h =
    scan_skip slash slash (c ++ newline ∷ []) start (unfold step in refl)
    ∙ unfold step in comment_rest c h

comment-no_slash : (c : Bytes) → ends_with slash (c ++ newline ∷ []) ≡ false
comment-no_slash [] = refl
comment-no_slash (b ∷ []) = refl
comment-no_slash (b ∷ d ∷ c) = comment-no_slash (d ∷ c)

slash_then : (b : ℕ) (c : Bytes) → c ≢ [] → ends_with b (slash ∷ c) ≡ ends_with b c
slash_then b [] n = absurd (n refl)
slash_then b (d ∷ c) n = refl

snoc_ne : (c : Bytes) → c ++ newline ∷ [] ≢ []
snoc_ne [] e = cc e
snoc_ne (b ∷ c) e = cc e

comment_ends : (c : Bytes) → ends_with slash (comment c) ≡ false
comment_ends c = slash_then slash (c ++ newline ∷ []) (snoc_ne c) ∙ comment-no_slash c

-- What stands in a line comment is not counted: a comment between two texts, with its newline,
-- leaves the balance as it is, if the first ends outside strings and comments and with no slash.
pub delimiter_balance-comment :
    (s c t : Bytes)
    → ends_with slash s ≡ false
    → IsCode (scan s start)
    → All (λ b. b ≢ newline) c
    → delimiter_balance (s ++ (slash ∷ slash ∷ ((c ++ newline ∷ []) ++ t)))
      ≡ delimiter_balance (s ++ t)
unfolding delimiter_balance
delimiter_balance-comment s c t e k h =
    delimiter_balance-append s (comment c ++ t) e k
    ∙ ap (add_balance (delimiter_balance s)) hidden
    ∙ sym (delimiter_balance-append s t e k)
  where
    code : IsCode (scan (comment c) start)
    code =
        subst IsCode (sym (scan-comment c h))
          (record { no_quote = refl; no_line = refl; no_block = refl })

    skipped : scan (comment c ++ t) start ≡ scan t start
    skipped = scan-append (comment c) t start (comment_ends c) code ∙ ap (scan t) (scan-comment c h)

    hidden : delimiter_balance (comment c ++ t) ≡ delimiter_balance t
    hidden = ap (λ (st : Scan). st.balance) skipped

-- Bytes that begin no string and no comment.
abbrev pub IsPlain : ℕ → Type 0
IsPlain c = (c ≢ slash) × (is_quote c ≡ false)

-- Opening delimiters less closing ones.
abbrev pub net_count : ℕ → ℕ → Bytes → ℤ
net_count opening closing s = pos (count_byte opening s) -ℤ pos (count_byte closing s)

net_add : (a b x y : ℕ) → (pos a -ℤ pos b) +ℤ (pos x -ℤ pos y) ≡ pos (a + x) -ℤ pos (b + y)
net_add a b x y = omega (
  int_laws,
  +ℤ_parts (pos a -ℤ pos b) (pos x -ℤ pos y),
  -ℤ_parts (pos a) (pos b),
  -ℤ_parts (pos x) (pos y),
  -ℤ_parts (pos (a + x)) (pos (b + y)),
)

plain_step :
    (c : ℕ) (next : Option ℕ)
    → IsPlain c
    → step c next start ≡ (shift (count_delimiter c zero_balance) start, false)
unfolding step ◌+ℤ◌ count_delimiter ◌-ℤ◌
plain_step c next p = ground arith

abbrev pub net_balance : Bytes → Balance
net_balance s = record {
  curly = net_count b'{' b'}' s;
  round = net_count b'(' b')' s;
  square = net_count b'[' b']' s;
}

one_delimiter : (c : ℕ) → count_delimiter c zero_balance ≡ net_balance (c ∷ [])
unfolding count_delimiter ◌+ℤ◌ ◌-ℤ◌
one_delimiter c = ground arith

balance-cons :
    (c : ℕ) (s : Bytes)
    → IsPlain c
    → delimiter_balance (c ∷ s) ≡ add_balance (count_delimiter c zero_balance) (delimiter_balance s)
unfolding delimiter_balance
balance-cons c [] p =
    ap (λ (st : Scan). st.balance)
      (scan_one c start
        ∙ ap (λ (q : Scan × Bool). q.0) (plain_step c none p)
        ∙ ap (shift (count_delimiter c zero_balance)) (sym (scan_nil start)))
balance-cons c (d ∷ s) p =
    let here = plain_step c (some d) p in
    ap (λ (st : Scan). st.balance)
      (scan_stay c d s start (ap (λ (q : Scan × Bool). q.1) here)
        ∙ ap (scan (d ∷ s)) (ap (λ (q : Scan × Bool). q.0) here)
        ∙ scan-shift (d ∷ s) (count_delimiter c zero_balance) start)

net-cons :
    (c : ℕ) (s : Bytes) → add_balance (net_balance (c ∷ [])) (net_balance s) ≡ net_balance (c ∷ s)
net-cons c s = simp (net_add, add-zero)

-- On a text with no quotes and no slashes the balance of each kind is the number of its opening
-- delimiters less the number of its closing ones.
pub delimiter_balance_plain : (s : Bytes) → All IsPlain s → delimiter_balance s ≡ net_balance s
delimiter_balance_plain [] h = unfold delimiter_balance scan ◌-ℤ◌ in refl
delimiter_balance_plain (c ∷ s) h =
    balance-cons c s h.0
    ∙ ap (λ b. add_balance b (delimiter_balance s)) (one_delimiter c)
    ∙ ap (add_balance (net_balance (c ∷ []))) (delimiter_balance_plain s h.1)
    ∙ net-cons c s

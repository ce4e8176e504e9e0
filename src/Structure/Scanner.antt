-- ===== src/Structure/Scanner.antt =====
-- core/structure_check.go: the scanner on a text in two parts.
use mcp_filesystem_go_ultra.Common.{
  ℕ, ◌≡◌, ◌≢◌, refl, sym, ap, subst, ◌∙◌, inl, inr, Bool, true, false, [], ◌∷◌, ◌++◌, Option, none,
  some, Bytes, ends_with, Bool-cases, arith, ne_of_==_false,
}
use mcp_filesystem_go_ultra.Common.Int.{ℤ, pos, ◌+ℤ◌, ◌-ℤ◌, int_laws}
use mcp_filesystem_go_ultra.Structure.{Balance, Scan, slash, count_delimiter, step, scan}

-- Outside strings and comments.
pub record IsCode (st : Scan) : Type 0 where
  pub no_quote : st.string_quote ≡ 0
  pub no_line : st.in_line_comment ≡ false
  pub no_block : st.in_block_comment ≡ false

-- A byte that ends in code, and is no slash, is read alike whatever stands behind it.
step_alone :
    (c d : ℕ) (st : Scan)
    → c ≢ slash
    → IsCode (step c none st).0
    → step c (some d) st ≡ ((step c none st).0, false)
unfolding step
step_alone c d st n k = ground arith

pub scan_skip :
    (c d : ℕ) (s : Bytes) (st : Scan)
    → (step c (some d) st).1 ≡ true
    → scan (c ∷ d ∷ s) st ≡ scan s (step c (some d) st).0
unfolding scan
scan_skip c d s st e = ground arith

pub scan_stay :
    (c d : ℕ) (s : Bytes) (st : Scan)
    → (step c (some d) st).1 ≡ false
    → scan (c ∷ d ∷ s) st ≡ scan (d ∷ s) (step c (some d) st).0
unfolding scan
scan_stay c d s st e = ground arith

ends_with-tail : (b c : ℕ) (s : Bytes) → ends_with b (c ∷ s) ≡ false → ends_with b s ≡ false
ends_with-tail b c [] e = refl
ends_with-tail b c (d ∷ s) e = e

pub scan_one : (c : ℕ) (st : Scan) → scan (c ∷ []) st ≡ (step c none st).0
unfolding scan
scan_one c st = refl

pub scan_nil : (st : Scan) → scan [] st ≡ st
unfolding scan
scan_nil st = refl

-- The scan of two parts, the first of which ends in code and with no slash, is the scan of the
-- second from where the first ends.
pub scan-append :
    (s t : Bytes) (st : Scan)
    → ends_with slash s ≡ false
    → IsCode (scan s st)
    → scan (s ++ t) st ≡ scan t (scan s st)
scan-append [] t st e k = ap (scan t) (sym (scan_nil st))
scan-append (c ∷ []) [] st e k = sym (scan_nil (scan (c ∷ []) st))
scan-append (c ∷ []) (d ∷ t) st e k =
    let alone = step_alone c d st (ne_of_==_false c slash e) (subst IsCode (scan_one c st) k) in
    scan_stay c d t st (ap (λ (p : Scan × Bool). p.1) alone)
    ∙ ap (scan (d ∷ t)) (ap (λ (p : Scan × Bool). p.0) alone ∙ sym (scan_one c st))
scan-append (c ∷ d ∷ s) t st e k = elim (Bool-cases (step c (some d) st).1) [
  | inl skip ↦
      let here = scan_skip c d s st skip in
      scan_skip c d (s ++ t) st skip
      ∙ scan-append s t (step c (some d) st).0 (ends_with-tail slash d s e) (subst IsCode here k)
      ∙ ap (scan t) (sym here)
  | inr stay ↦
      let here = scan_stay c d s st stay in
      scan_stay c d (s ++ t) st stay
      ∙ scan-append (d ∷ s) t (step c (some d) st).0 e (subst IsCode here k)
      ∙ ap (scan t) (sym here)
]

-- Balances are added part by part.
abbrev pub add_balance : Balance → Balance → Balance
add_balance a b = record {
  curly = a.curly +ℤ b.curly;
  round = a.round +ℤ b.round;
  square = a.square +ℤ b.square;
}

abbrev pub shift : Balance → Scan → Scan
shift k st = record st { balance = add_balance k st.balance }

+ℤ_one : (a b : ℤ) → a +ℤ (b +ℤ pos 1) ≡ (a +ℤ b) +ℤ pos 1
+ℤ_one a b = omega int_laws

+ℤ_minus_one : (a b : ℤ) → a +ℤ (b -ℤ pos 1) ≡ (a +ℤ b) -ℤ pos 1
+ℤ_minus_one a b = omega int_laws

count-shift :
    (c : ℕ) (k b : Balance)
    → count_delimiter c (add_balance k b) ≡ add_balance k (count_delimiter c b)
unfolding count_delimiter
count-shift c k b = ground (
  arith,
  +ℤ_one k.curly b.curly,
  +ℤ_minus_one k.curly b.curly,
  +ℤ_one k.round b.round,
  +ℤ_minus_one k.round b.round,
  +ℤ_one k.square b.square,
  +ℤ_minus_one k.square b.square,
)

step-shift :
    (c : ℕ) (next : Option ℕ) (k : Balance) (st : Scan)
    → step c next (shift k st) ≡ (shift k (step c next st).0, (step c next st).1)
unfolding step
step-shift c next k st = ground (arith, count-shift c k st.balance)

pub scan-shift : (s : Bytes) (k : Balance) (st : Scan) → scan s (shift k st) ≡ shift k (scan s st)
scan-shift [] k st = scan_nil (shift k st) ∙ ap (shift k) (sym (scan_nil st))
scan-shift (c ∷ []) k st =
    scan_one c (shift k st)
    ∙ ap (λ (p : Scan × Bool). p.0) (step-shift c none k st)
    ∙ ap (shift k) (sym (scan_one c st))
scan-shift (c ∷ d ∷ s) k st =
    let same = step-shift c (some d) k st in
    let same_state = ap (λ (p : Scan × Bool). p.0) same in
    elim (Bool-cases (step c (some d) st).1) [
      | inl skip ↦
          scan_skip c d s (shift k st) (ap (λ (p : Scan × Bool). p.1) same ∙ skip)
          ∙ ap (scan s) same_state
          ∙ scan-shift s k (step c (some d) st).0
          ∙ ap (shift k) (sym (scan_skip c d s st skip))
      | inr stay ↦
          scan_stay c d s (shift k st) (ap (λ (p : Scan × Bool). p.1) same ∙ stay)
          ∙ ap (scan (d ∷ s)) same_state
          ∙ scan-shift (d ∷ s) k (step c (some d) st).0
          ∙ ap (shift k) (sym (scan_stay c d s st stay))
    ]

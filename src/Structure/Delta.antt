-- ===== src/Structure/Delta.antt =====
-- core/structure_check.go: when an edit is warned of.
use mcp_filesystem_go_ultra.Common.{
  ℕ, ◌≡◌, ◌↔◌, ◌⊎◌, refl, inl, inr, Bool, true, false, not, List, [], ◌∷◌, ◌++◌, Bytes, is_empty,
  codes, if◌then◌else◌, arith,
}
use mcp_filesystem_go_ultra.Common.Decimal.{show_signed}
use mcp_filesystem_go_ultra.Common.Int.{ℤ, pos}
use mcp_filesystem_go_ultra.Structure.{
  Balance, delimiter_balance, issue, is_balance_checked_ext, balance_issues, check_balance_delta,
  is_go, check_structure_delta,
}

-- Each kind of delimiter that was balanced still is.
abbrev pub StaysBalanced : Balance → Balance → Type 0
StaysBalanced o n =
    (o.curly ≡ pos 0 → n.curly ≡ pos 0)
    × (o.round ≡ pos 0 → n.round ≡ pos 0)
    × (o.square ≡ pos 0 → n.square ≡ pos 0)

issue-nil_iff :
    (old new : ℤ) (c : ℕ) (text : Bytes)
    → (issue old new (c ∷ text) ≡ []) ↔ (old ≡ pos 0 → new ≡ pos 0)
issue-nil_iff old new c text = ground arith

append-nil_iff : (a b : List Bytes) → (a ++ b ≡ []) ↔ ((a ≡ []) × (b ≡ []))
append-nil_iff [] b = ((λ e. (refl, e)), (λ e. e.1))
append-nil_iff (x ∷ a) b = ((λ e. cc e), (λ e. cc (e.0)))

balance_issues-nil_iff : (o n : Balance) → (balance_issues o n ≡ []) ↔ StaysBalanced o n
unfolding balance_issues
balance_issues-nil_iff o n =
    let curly =
      issue-nil_iff o.curly n.curly b'c'
        (codes "urly braces {} now off by " ++ show_signed n.curly) in
    let round =
      issue-nil_iff o.round n.round b'p'
        (codes "arentheses () now off by " ++ show_signed n.round) in
    let square =
      issue-nil_iff o.square n.square b's'
        (codes "quare brackets [] now off by " ++ show_signed n.square) in
    (
      (λ e.
          let parts = (append-nil_iff _ _).0 e in
          let later = (append-nil_iff _ _).0 parts.1 in
          (curly.0 parts.0, round.0 later.0, square.0 later.1)),
      (λ h.
          (append-nil_iff _ _).1 (curly.1 h.0, (append-nil_iff _ _).1 (round.1 h.1, square.1 h.2))),
    )

module _ (is_separator : ℕ → Bool) (parse_error : Bytes → Bytes → Bytes) where
  -- `CheckBalanceDelta` is silent exactly when the extension is not one that it checks, or when
  -- each kind of delimiter that was balanced before the edit is balanced after it, whether or not
  -- another kind was unbalanced before.
  pub check_balance_delta-nil_iff :
      (old_content new_content path : Bytes)
      → (check_balance_delta is_separator parse_error old_content new_content path ≡ []) ↔ (
          (is_balance_checked_ext is_separator path ≡ false)
          ⊎ StaysBalanced (delimiter_balance old_content) (delimiter_balance new_content))
  unfolding check_balance_delta
  check_balance_delta-nil_iff old_content new_content path =
      let same =
        balance_issues-nil_iff (delimiter_balance old_content) (delimiter_balance new_content) in
      by_tests (is_balance_checked_ext is_separator path)
        (balance_issues (delimiter_balance old_content) (delimiter_balance new_content)) _ same
    where
      by_tests :
          {S : Type 0} (checked : Bool) (issues : List Bytes) (tail : Bytes)
          → (issues ≡ []) ↔ S
          → ((if not checked then [] else if is_empty issues then [] else 0xe2 ∷ tail) ≡ [])
            ↔ ((checked ≡ false) ⊎ S)
      by_tests false issues tail same = ((λ _. inl refl), (λ _. refl))
      by_tests true [] tail same = ((λ _. inr (same.0 refl)), (λ _. refl))
      by_tests true (i ∷ is) tail same =
          ((λ e. cc e), (λ h. elim h [ inl e ↦ cc e | inr s ↦ cc (same.1 s) ]))

  -- An edit that changes nothing is never warned of, whatever the parser says of the file.
  pub check_structure_delta_self :
      (content path : Bytes)
      → check_structure_delta is_separator parse_error content content path ≡ []
  unfolding check_structure_delta
  check_structure_delta_self content path =
      let silent =
        (check_balance_delta-nil_iff content content path).1 (inr ((λ e. e), (λ e. e), (λ e. e))) in
      by_tests (is_go is_separator parse_error path) (parse_error content path) _ _ silent
    where
      by_tests :
          (go : Bool) (message : Bytes) (tail balance : Bytes)
          → balance ≡ []
          → (if go
              then if not go
                then []
                else if not (is_empty message)
                then []
                else if not (is_empty message)
                then tail
                else []
              else balance)
            ≡ []
      by_tests false message tail balance silent = silent
      by_tests true [] tail balance silent = refl
      by_tests true (c ∷ m) tail balance silent = refl

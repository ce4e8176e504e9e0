-- ===== src/Structure/Tests.antt =====
-- core/structure_check.go: balances of some texts, and the theorems at them. The separator of a
-- path is the slash here, and the parser finds an error in each text that ends in "(".
use mcp_filesystem_go_ultra.Common.{
  ℕ, ◌≡◌, ◌↔◌, ◌⊎◌, refl, Bool, false, [], ◌∷◌, ◌++◌, Bytes, codes, ◌==◌, if◌then◌else◌, arith,
}
use mcp_filesystem_go_ultra.Common.{ends_with}
use mcp_filesystem_go_ultra.Common.Int.{pos, ◌+ℤ◌}
use mcp_filesystem_go_ultra.Structure.{
  slash, star, count_delimiter, step, scan, delimiter_balance, is_balance_checked_ext,
  check_balance_delta,
}
use mcp_filesystem_go_ultra.Structure.Scanner.{add_balance}
use mcp_filesystem_go_ultra.Structure.Additive.{
  net_balance, delimiter_balance-append, delimiter_balance_plain,
}
use mcp_filesystem_go_ultra.Structure.Delta.{StaysBalanced, check_balance_delta-nil_iff}

abbrev is_slash : ℕ → Bool
is_slash c = c == slash

abbrev parse_error : Bytes → Bytes → Bytes
parse_error content path = if ends_with b'(' content then codes "unexpected end" else []

-- A delimiter in a string and in a comment is not counted.
balance_of_text :
    delimiter_balance (b'{' ∷ 34 ∷ b'(' ∷ 34 ∷ slash ∷ star ∷ b'[' ∷ star ∷ slash ∷ [])
    ≡ record { curly = pos 1; round = pos 0; square = pos 0 }
unfolding delimiter_balance scan step count_delimiter ◌+ℤ◌
balance_of_text = refl

delimiter_balance-append_example :
    delimiter_balance (codes "f(x" ++ codes "){")
    ≡ add_balance (delimiter_balance (codes "f(x")) (delimiter_balance (codes "){"))
unfolding scan step count_delimiter
delimiter_balance-append_example =
    delimiter_balance-append (codes "f(x") (codes "){") refl
      (record { no_quote = refl; no_line = refl; no_block = refl })

delimiter_balance_plain_example : delimiter_balance (codes "({") ≡ net_balance (codes "({")
delimiter_balance_plain_example =
    delimiter_balance_plain (codes "({")
      (((λ e. ground arith), refl), (((λ e. ground arith), refl), tt))

check_balance_delta-nil_iff_example :
    (check_balance_delta is_slash parse_error (codes "{}") (codes "{") (codes "a.js") ≡ []) ↔ (
      (is_balance_checked_ext is_slash (codes "a.js") ≡ false)
      ⊎ StaysBalanced (delimiter_balance (codes "{}")) (delimiter_balance (codes "{")))
check_balance_delta-nil_iff_example =
    check_balance_delta-nil_iff is_slash parse_error (codes "{}") (codes "{") (codes "a.js")

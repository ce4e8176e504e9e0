-- ===== src/Structure.antt =====
-- core/structure_check.go: the check that an edit left the delimiters of a file balanced.
-- `delimiterBalance` is a scanner over bytes with one byte of look-ahead; its `i++` inside the
-- loop is the second part of a step's result. Go's parser and the path separators of the
-- platform are parameters. `strings.ToLower` is the one for ASCII.
pub mod Scanner
pub mod Additive
pub mod Delta
mod Tests
use mcp_filesystem_go_ultra.Common.{
  ℕ, ◌+◌, ◌≡◌, Bool, true, false, not, ◌&&◌, ◌||◌, List, [], ◌∷◌, ◌++◌, Option, none, some, Bytes,
  codes, bytes_eq, is_empty, newline, concat, leb, ◌==◌, if◌then◌else◌,
}
use mcp_filesystem_go_ultra.Common.Decimal.{show_signed}
use mcp_filesystem_go_ultra.Common.Int.{ℤ, pos, ◌+ℤ◌, ◌-ℤ◌}

-- `strings.ToLower` on one byte.
abbrev pub to_lower : ℕ → ℕ
to_lower c = if leb b'A' c && leb c b'Z' then c + 32 else c

abbrev pub lower : Bytes → Bytes
lower [] = []
lower (c ∷ s) = to_lower c ∷ lower s

abbrev pub has_byte : (ℕ → Bool) → Bytes → Bool
has_byte test [] = false
has_byte test (c ∷ s) = test c || has_byte test s

-- `filepath.Ext`: from the last dot of the last element of the path.
unfoldable pub ext : (ℕ → Bool) → Bytes → Bytes
ext is_separator [] = []
ext is_separator (c ∷ s) =
    let rest = ext is_separator s in
    if not (is_empty rest)
    then rest
    else if c == b'.' && not (has_byte is_separator s)
    then c ∷ s
    else []

abbrev pub one_of : Bytes → List Bytes → Bool
one_of s [] = false
one_of s (t ∷ ts) = bytes_eq s t || one_of s ts

abbrev pub checked_extensions : List Bytes
checked_extensions =
    codes ".go"
    ∷ codes ".cs"
    ∷ codes ".razor"
    ∷ codes ".cshtml"
    ∷ codes ".js"
    ∷ codes ".jsx"
    ∷ codes ".ts"
    ∷ codes ".tsx"
    ∷ codes ".c"
    ∷ codes ".cc"
    ∷ codes ".cpp"
    ∷ codes ".h"
    ∷ codes ".hpp"
    ∷ codes ".java"
    ∷ codes ".rs"
    ∷ codes ".json"
    ∷ codes ".css"
    ∷ codes ".scss"
    ∷ codes ".less"
    ∷ []

-- `isBalanceCheckedExt`
unfoldable pub is_balance_checked_ext : (ℕ → Bool) → Bytes → Bool
is_balance_checked_ext is_separator path = one_of (lower (ext is_separator path)) checked_extensions

pub record Balance : Type 0 where
  pub curly : ℤ
  pub round : ℤ
  pub square : ℤ

-- The variables of the loop; `string_quote` is 0 outside a string.
pub record Scan : Type 0 where
  pub string_quote : ℕ
  pub in_line_comment : Bool
  pub in_block_comment : Bool
  pub escaped : Bool
  pub balance : Balance

abbrev pub slash : ℕ
slash = b'/'

abbrev pub star : ℕ
star = b'*'

abbrev pub backslash : ℕ
backslash = 92

abbrev pub backtick : ℕ
backtick = 96

abbrev pub next_is : Option ℕ → ℕ → Bool
next_is none b = false
next_is (some d) b = d == b

-- The last `switch`, for the delimiters.
unfoldable pub count_delimiter : ℕ → Balance → Balance
count_delimiter c b =
    if c == b'{'
    then record b { curly = b.curly +ℤ pos 1 }
    else if c == b'}'
    then record b { curly = b.curly -ℤ pos 1 }
    else if c == b'('
    then record b { round = b.round +ℤ pos 1 }
    else if c == b')'
    then record b { round = b.round -ℤ pos 1 }
    else if c == b'['
    then record b { square = b.square +ℤ pos 1 }
    else if c == b']'
    then record b { square = b.square -ℤ pos 1 }
    else b

abbrev pub is_quote : ℕ → Bool
is_quote c = c == 34 || (c == 39 || c == backtick)

-- Outside strings and comments.
unfoldable pub code_step : ℕ → Option ℕ → Scan → Scan × Bool
code_step c next st =
    if c == slash
    then if next_is next slash
      then (record st { in_line_comment = true }, true)
      else if next_is next star
      then (record st { in_block_comment = true }, true)
      else (st, false)
    else if is_quote c
    then (record st { string_quote = c }, false)
    else (record st { balance = count_delimiter c st.balance }, false)

-- Inside a string.
unfoldable pub string_step : ℕ → Scan → Scan
string_step c st =
    if st.escaped
    then record st { escaped = false }
    else if c == backslash && not (st.string_quote == backtick)
    then record st { escaped = true }
    else if c == st.string_quote
    then record st { string_quote = 0 }
    else st

-- One round of the loop: the new state, and whether the next byte is skipped.
unfoldable pub step : ℕ → Option ℕ → Scan → Scan × Bool
unfolding code_step string_step
step c next st =
    if st.in_line_comment
    then (if c == newline then record st { in_line_comment = false } else st, false)
    else if st.in_block_comment
    then if c == star && next_is next slash
      then (record st { in_block_comment = false }, true)
      else (st, false)
    else if not (st.string_quote == 0)
    then (string_step c st, false)
    else code_step c next st

unfoldable pub scan : Bytes → Scan → Scan
scan [] st = st
scan (c ∷ []) st = (step c none st).0
scan (c ∷ d ∷ s) st = elim (step c (some d) st).1 [
  | true ↦ scan s (step c (some d) st).0
  | false ↦ scan (d ∷ s) (step c (some d) st).0
]

abbrev pub zero_balance : Balance
zero_balance = record { curly = pos 0; round = pos 0; square = pos 0 }

abbrev pub start : Scan
start = record {
  string_quote = 0;
  in_line_comment = false;
  in_block_comment = false;
  escaped = false;
  balance = zero_balance;
}

unfoldable pub delimiter_balance : Bytes → Balance
delimiter_balance s = (scan s start).balance

abbrev pub is_zero : ℤ → Bool
is_zero (pos n) = n == 0
is_zero _ = false

-- `if old == 0 && new != 0 { issues = append(issues, …) }`
abbrev pub issue : ℤ → ℤ → Bytes → List Bytes
issue old new text = if is_zero old && not (is_zero new) then text ∷ [] else []

-- `strings.Join(issues, ", ")`
abbrev pub join_comma : List Bytes → Bytes
join_comma [] = []
join_comma (t ∷ []) = t
join_comma (t ∷ u ∷ ts) = t ++ (codes ", " ++ join_comma (u ∷ ts))

-- "⚠" and "—" in UTF-8
abbrev pub warning_sign : Bytes
warning_sign = 0xe2 ∷ 0x9a ∷ 0xa0 ∷ []

abbrev pub em_dash : Bytes
em_dash = 0xe2 ∷ 0x80 ∷ 0x94 ∷ []

unfoldable pub balance_issues : Balance → Balance → List Bytes
balance_issues o n =
    issue o.curly n.curly (codes "curly braces {} now off by " ++ show_signed n.curly)
    ++ (issue o.round n.round (codes "parentheses () now off by " ++ show_signed n.round)
        ++ issue o.square n.square (codes "square brackets [] now off by " ++ show_signed n.square))

module _ (is_separator : ℕ → Bool) (parse_error : Bytes → Bytes → Bytes) where
  -- `CheckBalanceDelta`
  unfoldable pub check_balance_delta : Bytes → Bytes → Bytes → Bytes
  check_balance_delta old_content new_content path =
      let issues = balance_issues (delimiter_balance old_content) (delimiter_balance new_content) in
      if not (is_balance_checked_ext is_separator path)
      then []
      else if is_empty issues
      then []
      else concat (
          warning_sign
          ∷ codes " possible structural imbalance after edit: "
          ∷ join_comma issues
          ∷ codes ". The file was balanced before this edit but is not now "
          ∷ em_dash
          ∷ codes " an anchor may have been off. Verify the file before building."
          ∷ [])

  -- `strings.EqualFold(filepath.Ext(path), ".go")`
  abbrev pub is_go : Bytes → Bool
  is_go path = bytes_eq (lower (ext is_separator path)) (codes ".go")

  -- `CheckGoSyntax`; `parse_error content path` is `parseGoError`.
  unfoldable pub check_go_syntax : Bytes → Bytes → Bytes → Bytes
  check_go_syntax old_content new_content path =
      if not (is_go path)
      then []
      else if not (is_empty (parse_error old_content path))
      then []
      else if not (is_empty (parse_error new_content path))
      then concat (
          warning_sign
          ∷ codes " Go syntax error introduced by this edit: "
          ∷ parse_error new_content path
          ∷ codes ". The file parsed before this edit but no longer does "
          ∷ em_dash
          ∷ codes " verify before building."
          ∷ [])
      else []

  -- `CheckStructureDelta`
  unfoldable pub check_structure_delta : Bytes → Bytes → Bytes → Bytes
  unfolding check_go_syntax check_balance_delta
  check_structure_delta old_content new_content path =
      if is_go path
      then check_go_syntax old_content new_content path
      else check_balance_delta old_content new_content path

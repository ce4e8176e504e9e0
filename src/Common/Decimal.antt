-- ===== src/Common/Decimal.antt =====
-- Numbers in decimal: `%d` and `%+d` of package fmt, and `strconv.Atoi` on 64 bits.
use Prim.Native.Nat.{ℕ, zero, suc, ◌+◌, ◌-◌, ◌*◌, ◌/◌, ◌%◌, ◌^◌}
use mathlib.Core.Bool.{Bool, true, false, ◌&&◌}
use mathlib.Core.List.{[], ◌∷◌, ◌++◌}
use mcp_filesystem_go_ultra.Common.{Bytes, ltb, leb, ◌==◌, if◌then◌else◌, is_empty}
use mcp_filesystem_go_ultra.Common.Int.{ℤ, pos, negsuc, ◌-ℤ◌}

-- The digits of `n`; `n + 1` rounds are enough, since each divides by ten.
unfoldable pub show_digits : ℕ → ℕ → Bytes
show_digits zero n = []
show_digits (suc fuel) n =
    let more = show_digits fuel (n / 10) in
    if ltb n 10 then (b'0' + n) ∷ [] else more ++ (b'0' + n % 10) ∷ []

unfoldable pub show_nat : ℕ → Bytes
unfolding show_digits
show_nat n = show_digits (n + 1) n

-- `%d`
unfoldable pub show_int : ℤ → Bytes
unfolding show_nat
show_int (pos n) = show_nat n
show_int (negsuc n) = b'-' ∷ show_nat (n + 1)

-- `%+d`
unfoldable pub show_signed : ℤ → Bytes
unfolding show_nat
show_signed (pos n) = b'+' ∷ show_nat n
show_signed (negsuc n) = b'-' ∷ show_nat (n + 1)

-- What the digits of `strconv.ParseUint` give: an overflow ends the loop at once.
pub data Digits : Type 0 where
  value : ℕ → Digits
  out_of_range : Digits
  bad_syntax : Digits

unfoldable pub parse_digits : Bytes → ℕ → Digits
parse_digits [] n = value n
parse_digits (c ∷ s) n =
    let m = n * 10 + (c - b'0') in
    let rest = parse_digits s m in
    if leb b'0' c && leb c b'9'
    then if ltb (2 ^ 64 - 1) m then out_of_range else rest
    else bad_syntax

-- `strconv.ParseInt` behind the sign: the number, and whether there is no error.
abbrev pub with_sign : Bool → Digits → ℤ × Bool
with_sign negative bad_syntax = (pos 0, false)
with_sign true out_of_range = (pos 0 -ℤ pos (2 ^ 63), false)
with_sign false out_of_range = (pos (2 ^ 63 - 1), false)
with_sign true (value n) =
    if ltb (2 ^ 63) n then (pos 0 -ℤ pos (2 ^ 63), false) else (pos 0 -ℤ pos n, true)
with_sign false (value n) = if leb (2 ^ 63) n then (pos (2 ^ 63 - 1), false) else (pos n, true)

abbrev pub unsigned_digits : Bytes → Digits
unsigned_digits s = if is_empty s then bad_syntax else parse_digits s 0

-- `strconv.Atoi`
unfoldable pub atoi : Bytes → ℤ × Bool
unfolding parse_digits
atoi [] = (pos 0, false)
atoi (c ∷ s) =
    if c == b'-'
    then with_sign true (unsigned_digits s)
    else if c == b'+'
    then with_sign false (unsigned_digits s)
    else with_sign false (unsigned_digits (c ∷ s))

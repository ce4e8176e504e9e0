-- ===== src/ReadRange.antt =====
-- core/read_dedup.go: `newBytesLineScanner` and `extractLineRangeFromBytes`. The last element of a
-- path is given. A scanner over bytes has no error.
pub mod Lines
mod Tests
use mcp_filesystem_go_ultra.Common.{
  ℕ, zero, suc, ◌+◌, ◌-◌, ◌*◌, ◌≤◌, ◌<◌, ◌≡◌, ◌≢◌, ◌↔◌, ◌⊎◌, inl, inr, refl, sym, ap, subst, ◌∙◌,
  Bool, true, false, not, ◌&&◌, ◌||◌, List, [], ◌∷◌, ◌++◌, map, Option, none, some, append-nil,
  append_assoc, Bytes, codes, bytes_eq, bytes_eq_refl, eq_of_bytes_eq, bytes_eq_of_eq, is_empty,
  length, get_elem?, get_or, set, length-append, lookup, insert, has_key, lookup-insert, All, ltb,
  leb, ◌==◌, if◌then◌else◌, Bool-cases, Option-cases, arith, Result, ok, err, ◌>>=◌, ◌>>◌,
  refuse_if, >>=-eq-ok,
}
use mcp_filesystem_go_ultra.Common.{newline, concat, min}
use mcp_filesystem_go_ultra.Common.Int.{ℤ, pos, pos_part, ltb_ℤ}
use mcp_filesystem_go_ultra.Common.Decimal.{show_int}
use mcp_filesystem_go_ultra.Whitespace.{carriage_return}
use mcp_filesystem_go_ultra.Render.{split_lines, em_dash}

pub data ReadError : Type 0 where
  start_too_low : ℤ → ReadError
  end_too_low : ℤ → ℤ → ReadError

-- `strings.TrimRight(line, "\r")`
abbrev pub trim_returns : Bytes → Bytes
trim_returns [] = []
trim_returns (c ∷ s) =
    let rest = trim_returns s in if is_empty rest && c == carriage_return then [] else c ∷ rest

-- `newBytesLineScanner`
unfoldable pub scan_lines : Bytes → List Bytes
unfolding split_lines
scan_lines content = map trim_returns (split_lines content)

-- A line more in the builder.
abbrev pub add_text : Bytes → Bytes → Bytes
add_text result line = (if is_empty result then [] else result ++ newline ∷ []) ++ line

-- The loop, with the number of lines scanned before.
unfoldable pub range_loop : ℕ → ℕ → ℕ → List Bytes → Bytes → Bytes
range_loop start stop n [] result = result
range_loop start stop n (l ∷ ls) result =
    if ltb (n + 1) start
    then range_loop start stop (n + 1) ls result
    else if leb (n + 1) stop
    then range_loop start stop (n + 1) ls (add_text result l)
    else range_loop start stop (n + 1) ls result

abbrev pub footer_hint : ℕ → ℕ → ℕ → Bytes
footer_hint start stop total =
    let next_start = stop + 1 in
    let next_end = min (next_start + (stop - start)) total in
    concat (
      codes " "
      ∷ em_dash
      ∷ codes " use start_line/end_line to read more, e.g. start_line="
      ∷ show_int (pos next_start)
      ∷ codes " end_line="
      ∷ show_int (pos next_end)
      ∷ [])

-- The footer: the hint stands where lines are left, and there the end is the one asked for.
unfoldable pub range_footer : ℕ → ℕ → ℕ → Bytes → Bytes
range_footer start stop total base =
    let actual = min stop total in
    concat (
      (newline ∷ newline ∷ codes "[Lines ")
      ∷ show_int (pos start)
      ∷ codes "-"
      ∷ show_int (pos actual)
      ∷ codes " of "
      ∷ show_int (pos total)
      ∷ codes " total lines in "
      ∷ base
      ∷ (if ltb actual total then footer_hint start stop total else [])
      ∷ codes "]"
      ∷ [])

-- `extractLineRangeFromBytes`
unfoldable pub extract_line_range : Bytes → Bytes → ℤ → ℤ → Result ReadError Bytes
unfolding scan_lines range_loop range_footer
extract_line_range content base start_line end_line = do
  refuse_if (ltb_ℤ start_line (pos 1)) (start_too_low start_line)
  refuse_if (ltb_ℤ end_line start_line) (end_too_low end_line start_line)
  let lines = scan_lines content
  ok (
      range_loop (pos_part start_line) (pos_part end_line) 0 lines []
      ++ range_footer (pos_part start_line) (pos_part end_line) (length lines) base)

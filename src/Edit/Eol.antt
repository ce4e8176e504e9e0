-- ===== src/Edit/Eol.antt =====
-- core/edit_operations.go: `normalizeLineEndings`, `detectEOL`, `restoreEOL` and
-- `normalizeLiteralEscapes`.
use mcp_filesystem_go_ultra.Common.{
  ℕ, ◌+◌, ◌-◌, not, ◌&&◌, [], ◌∷◌, Bytes, bytes_eq, ltb, ◌==◌, if◌then◌else◌,
}
use mcp_filesystem_go_ultra.Common.{newline}
use mcp_filesystem_go_ultra.Common.Search.{count_text, replace_all, contains}
use mcp_filesystem_go_ultra.Whitespace.{carriage_return, tab}

-- "\n", "\r" and "\r\n"
abbrev pub lf : Bytes
lf = newline ∷ []

abbrev pub cr : Bytes
cr = carriage_return ∷ []

abbrev pub crlf : Bytes
crlf = carriage_return ∷ newline ∷ []

unfoldable pub normalize_line_endings : Bytes → Bytes
normalize_line_endings s = replace_all (replace_all s crlf lf) cr lf

-- The `switch` of `detectEOL`, on the numbers of the three endings.
unfoldable pub choose_eol : ℕ → ℕ → ℕ → Bytes
choose_eol crlf_count lf_count cr_count =
    if ltb 0 crlf_count && (lf_count == 0 && cr_count == 0)
    then crlf
    else if ltb 0 lf_count && (crlf_count == 0 && cr_count == 0)
    then lf
    else if ltb 0 cr_count && (crlf_count == 0 && lf_count == 0)
    then cr
    else if (crlf_count + lf_count + cr_count) == 0
    then lf
    else lf

-- The numbers of "\r\n", and of "\n" and "\r" that are not part of one.
abbrev pub crlf_count : Bytes → ℕ
crlf_count s = count_text s crlf

abbrev pub lf_count : Bytes → ℕ
lf_count s = count_text s lf - crlf_count s

abbrev pub cr_count : Bytes → ℕ
cr_count s = count_text s cr - crlf_count s

unfoldable pub detect_eol : Bytes → Bytes
unfolding choose_eol
detect_eol content = choose_eol (crlf_count content) (lf_count content) (cr_count content)

unfoldable pub restore_eol : Bytes → Bytes → Bytes
restore_eol content eol = if bytes_eq eol lf then content else replace_all content lf eol

-- The two bytes of a literal `\n` and of a literal `\t`.
abbrev pub literal_newline : Bytes
literal_newline = 92 ∷ b'n' ∷ []

abbrev pub literal_tab : Bytes
literal_tab = 92 ∷ b't' ∷ []

unfoldable pub normalize_literal_escapes : Bytes → Bytes
normalize_literal_escapes s =
    if not (contains s literal_newline)
    then s
    else if contains s lf
    then s
    else replace_all (replace_all s literal_newline lf) literal_tab (tab ∷ [])

-- ===== src/Edit/Walk.antt =====
-- core/edit_operations.go: the replacement loop of the first and of the third strategy, on fuel: it
-- gives nothing when the fuel does not reach. The third strategy does not use the lines that it counts.
use mcp_filesystem_go_ultra.Common.{
  ℕ, zero, suc, ◌+◌, Bool, true, false, [], ◌++◌, Option, none, some, Bytes, length, if◌then◌else◌,
}
use mcp_filesystem_go_ultra.Common.{newline, count_byte, slice, drop, take}
use mcp_filesystem_go_ultra.Common.Search.{index_of, contains}
use mcp_filesystem_go_ultra.Edit.Eol.{lf}

-- The variables of the loop: what the builder holds, and where the bytes left begin.
pub record Walk : Type 0 where
  pub written : Bytes
  pub last : ℕ
  pub lines_affected : ℕ
  pub first_match : Bool
  pub end_offset : ℕ

abbrev pub begin_walk : Walk
begin_walk = record {
  written = [];
  last = 0;
  lines_affected = 0;
  first_match = true;
  end_offset = 0;
}

-- One match, `idx` bytes on.
unfoldable pub take_match : Bytes → Bytes → Bytes → ℕ → Walk → Walk
unfolding contains
take_match content old_text new_text idx w =
    let match_start = w.last + idx in
    let match_end = match_start + length old_text in
    let matched = slice match_start match_end content in
    record {
      written = w.written ++ (take idx (drop w.last content) ++ new_text);
      last = match_end;
      lines_affected =
          w.lines_affected + (if contains matched lf then count_byte newline matched else 1);
      first_match = false;
      end_offset = if w.first_match then match_end else w.end_offset;
    }

unfoldable pub walk : ℕ → Bytes → Bytes → Bytes → Walk → Option Walk
unfolding index_of take_match
walk zero content old_text new_text w = none
walk (suc fuel) content old_text new_text w = elim (index_of (drop w.last content) old_text) [
  | none ↦ some w
  | some idx ↦ walk fuel content old_text new_text (take_match content old_text new_text idx w)
]

-- What the builder holds in the end.
abbrev pub walked_text : Bytes → Walk → Bytes
walked_text content w = w.written ++ drop w.last content

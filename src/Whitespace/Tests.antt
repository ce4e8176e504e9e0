-- ===== src/Whitespace/Tests.antt =====
-- core/whitespace_matcher.go: some texts normalized and matched, and the theorems at them.
use mcp_filesystem_go_ultra.Common.{◌≡◌, refl, [], ◌∷◌, Bytes, codes}
use mcp_filesystem_go_ultra.Common.Int.{pos}
use mcp_filesystem_go_ultra.Whitespace.{
  normalize_for_tolerant_match, find_all_tolerant_matches, apply_tolerant_matches,
}
use mcp_filesystem_go_ultra.Whitespace.Normal.{normalize_twice}

-- "a", a tab, "b" and a CRLF.
abbrev tabbed : Bytes
tabbed = b'a' ∷ 9 ∷ b'b' ∷ 13 ∷ 10 ∷ []

tabbed_normalized :
    normalize_for_tolerant_match tabbed (pos 2)
    ≡ record { content = b'a' ∷ b' ' ∷ b' ' ∷ b'b' ∷ 10 ∷ []; byte_map = 0 ∷ 1 ∷ 1 ∷ 2 ∷ 4 ∷ [] }
unfolding normalize_for_tolerant_match
tabbed_normalized = refl

-- Four spaces and "b" stand for the tab and "b".
tabbed_replaced :
    apply_tolerant_matches tabbed (find_all_tolerant_matches tabbed (codes "    b")) (codes "c")
    ≡ (b'a' ∷ b'c' ∷ 13 ∷ 10 ∷ [], 1)
unfolding apply_tolerant_matches find_all_tolerant_matches
tabbed_replaced = refl

-- One tab is matched four times by one space.
tab_overlaps :
    find_all_tolerant_matches (9 ∷ []) (codes " ")
    ≡ record { start_orig = 0; end_orig = 1 }
      ∷ record { start_orig = 0; end_orig = 1 }
      ∷ record { start_orig = 0; end_orig = 1 }
      ∷ record { start_orig = 0; end_orig = 1 }
      ∷ []
unfolding find_all_tolerant_matches
tab_overlaps = refl

normalize_twice_example :
    (normalize_for_tolerant_match
      (normalize_for_tolerant_match tabbed (pos 2)).content
      (pos 4)).content
    ≡ (normalize_for_tolerant_match tabbed (pos 2)).content
normalize_twice_example = normalize_twice tabbed (pos 2) (pos 4)

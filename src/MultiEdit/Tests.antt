-- ===== src/MultiEdit/Tests.antt =====
-- core/edit_operations.go: some runs of `MultiEdit`, and the theorems at them.
use mcp_filesystem_go_ultra.Common.{
  ◌<◌, ◌≡◌, refl, false, List, [], ◌∷◌, ◌++◌, none, Bytes, codes, length,
}
use mcp_filesystem_go_ultra.Common.Search.{replace_from, count_from}
use mcp_filesystem_go_ultra.Render.{drop_phantom}
use mcp_filesystem_go_ultra.Edit.{Library}
use mcp_filesystem_go_ultra.Edit.Eol.{crlf, detect_eol, restore_eol}
use mcp_filesystem_go_ultra.MultiEdit.{
  MultiEditOperation, Verdict, rolled_back, written, content_to_write, multi_edit,
}
use mcp_filesystem_go_ultra.MultiEdit.Totals.{
  AreTotals, count_status, is_applied, is_failed, multi_edit_totals, multi_edit_writes,
}

abbrev plain_library : Library
plain_library = record { compile = λ p. none; proportion = λ a b c. 0 }

abbrev replacing : Bytes → Bytes → MultiEditOperation
replacing old new = record { old_text = old; new_text = new }

abbrev verdict : Bytes → List MultiEditOperation → Verdict
verdict content edits = (multi_edit plain_library 50 false false [] content edits).1

ambiguous_refused :
    verdict
      (codes "x x y")
      (replacing (codes "x") (codes "z") ∷ replacing (codes "y") (codes "w") ∷ [])
    ≡ rolled_back
unfolding multi_edit replace_from count_from drop_phantom
ambiguous_refused = refl

-- Two lines of Windows, twice: the guard counts no occurrence of the two lines with a line feed
-- between them, and both are replaced.
abbrev two_lines : Bytes
two_lines = codes "a" ++ (crlf ++ codes "b")

guard_passed_by :
    verdict
      (two_lines ++ (crlf ++ two_lines))
      (replacing (codes "a" ++ (10 ∷ codes "b")) (codes "c") ∷ [])
    ≡ written (codes "c" ++ (crlf ++ codes "c"))
unfolding multi_edit replace_from count_from drop_phantom
guard_passed_by = refl

abbrev edits : List MultiEditOperation
edits = replacing (codes "1") (codes "2") ∷ replacing (codes "y") (codes "z") ∷ []

multi_edit_totals_example :
    AreTotals (multi_edit plain_library 50 false false [] (codes "x=1;y") edits).0
    × (length (multi_edit plain_library 50 false false [] (codes "x=1;y") edits).0.edit_details
        ≡ length edits)
multi_edit_totals_example = multi_edit_totals plain_library 50 false false [] (codes "x=1;y") edits

multi_edit_writes_example :
    (false ≡ false)
    × (count_status is_failed
          (multi_edit plain_library 50 false false [] (codes "x=1;y") edits).0.edit_details
        ≡ 0)
    × (0
        < count_status is_applied
            (multi_edit plain_library 50 false false [] (codes "x=1;y") edits).0.edit_details)
    × (codes "x=2;z"
        ≡ restore_eol
            (content_to_write []
              (multi_edit plain_library 50 false false [] (codes "x=1;y") edits).0.current_content)
            (detect_eol (codes "x=1;y")))
unfolding multi_edit replace_from count_from drop_phantom
multi_edit_writes_example =
    multi_edit_writes plain_library 50 false false [] (codes "x=1;y") (codes "x=2;z") edits refl

-- The content that a hook gives is written in place of the edited one.
hook_overrides :
    (multi_edit plain_library 50 false false (codes "h") (codes "x=1;y") edits).1
    ≡ written (codes "h")
unfolding multi_edit replace_from count_from drop_phantom
hook_overrides = refl

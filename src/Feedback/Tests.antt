-- ===== src/Feedback/Tests.antt =====
-- core/feedback.go: some signals, and the theorems at them.
use mcp_filesystem_go_ultra.Common.{
  ◌≡◌, ◌↔◌, refl, true, false, List, [], ◌∷◌, codes, is_empty, lookup,
}
use mcp_filesystem_go_ultra.Feedback.{
  external_change, warn, ko, repeated_old_text, no_issue, new_session, warning, set_auto_occ_mode,
  check_auto_occ, check_edit_op, record_failed_old_text, is_fresh,
}
use mcp_filesystem_go_ultra.Feedback.Detect.{check_edit_new_text}
use mcp_filesystem_go_ultra.Feedback.Baseline.{
  Event, read_hash, write_hash, session_after, last_hash, IsChanged, external_change_iff,
}

-- A read, and a write of the session's own behind it.
abbrev history : List Event
history = write_hash (codes "f") (codes "h2") 20 ∷ read_hash (codes "f") (codes "h1") 10 ∷ []

own_write_is_fine :
    check_auto_occ warning (codes "f") (codes "h2") 30 (session_after history) ≡ no_issue
unfolding check_auto_occ session_after
own_write_is_fine = refl

unknown_mode_warns : set_auto_occ_mode (codes "loud") ≡ warning
unfolding set_auto_occ_mode
unknown_mode_warns = refl

third_failure :
    (check_edit_op (codes "f") (codes "x") false 0 (
      record_failed_old_text
        (codes "f")
        (codes "x")
        (record_failed_old_text (codes "f") (codes "x") new_session))).0
    ≡ record { status = ko; pattern = repeated_old_text; block_op = false }
unfolding check_edit_op record_failed_old_text
third_failure = refl

warned_once :
    (check_edit_op
      (codes "f")
      (codes "x")
      false
      0
      (check_edit_op (codes "f") (codes "x") false 0 new_session).1).0
    ≡ no_issue
unfolding check_edit_op
warned_once = refl

most_of_file_replaced : (check_edit_new_text 5000 6000).status ≡ warn
unfolding check_edit_new_text
most_of_file_replaced = refl

external_change_iff_example :
    ((check_auto_occ warning (codes "f") (codes "h3") 30 (session_after history)).pattern
      ≡ external_change)
    ↔ ((is_empty (codes "h3") ≡ false)
        × (is_fresh (lookup (codes "f") (session_after history).last_read) 30 ≡ true)
        × IsChanged warning (codes "h3") (last_hash (codes "f") history))
external_change_iff_example = external_change_iff warning (codes "f") (codes "h3") 30 history

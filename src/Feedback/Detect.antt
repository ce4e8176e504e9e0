-- ===== src/Feedback/Detect.antt =====
-- core/feedback.go: the detectors that look at sizes only, `CheckWriteOp`, `CheckEditNewText` and
-- `CheckEditRewrite`. A size is not negative.
use mcp_filesystem_go_ultra.Common.{ℕ, ◌-◌, ◌*◌, true, false, ◌&&◌, ◌||◌, ltb, ◌==◌, if◌then◌else◌}
use Prim.Native.Nat.{◌/◌}
use mcp_filesystem_go_ultra.Feedback.{
  FeedbackSignal, no_issue, warn, ko, truncation, inflation_loop, full_rewrite, large_new_text,
  accidental_rewrite,
}

unfoldable pub check_write_op : ℕ → ℕ → FeedbackSignal
check_write_op new_size existing_size =
    if existing_size == 0
    then no_issue
    else if ltb 0 new_size && ltb new_size (existing_size / 2)
    then record { status = ko; pattern = truncation; block_op = true }
    else if ltb 10240 existing_size && ltb (existing_size * 3) new_size
    then record { status = ko; pattern = inflation_loop; block_op = true }
    else if ltb 10240 existing_size && ltb 10240 new_size
    then record { status = warn; pattern = full_rewrite; block_op = false }
    else no_issue

unfoldable pub check_edit_new_text : ℕ → ℕ → FeedbackSignal
check_edit_new_text new_size file_size =
    if file_size == 0
    then no_issue
    else if ltb (file_size * 8 / 10) new_size && ltb 5120 file_size
    then record { status = warn; pattern = large_new_text; block_op = false }
    else no_issue

unfoldable pub check_edit_rewrite : ℕ → ℕ → ℕ → FeedbackSignal
check_edit_rewrite old_size new_size file_size =
    if (old_size == 0 || new_size == 0) || ltb file_size 1024
    then no_issue
    else if ltb new_size (old_size * 2)
    then no_issue
    else if ltb new_size 500
    then no_issue
    else if ltb new_size (file_size / 2)
    then no_issue
    else if ltb (file_size - old_size) (file_size / 2)
    then no_issue
    else record { status = ko; pattern = accidental_rewrite; block_op = true }

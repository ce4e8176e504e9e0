-- ===== src/MultiEdit.antt =====
-- core/edit_operations.go: `MultiEdit`, its loop over the edits and what it decides behind the loop.
-- What stands before the loop (the guards on the path, the hash, the context, the backup, the hook)
-- and the texts of the errors are left out; `hook_content` is the content that the hook before the
-- edits has given, which is empty where there is no hook or it gave none.
pub mod Totals
mod Tests
use mcp_filesystem_go_ultra.Common.{
  ℕ, zero, suc, ◌+◌, ◌-◌, ◌*◌, ◌≤◌, ◌<◌, ◌≡◌, ◌≢◌, ◌↔◌, ◌⊎◌, inl, inr, refl, sym, ap, subst, ◌∙◌,
  Bool, true, false, not, ◌&&◌, ◌||◌, List, [], ◌∷◌, ◌++◌, map, Option, none, some, append-nil,
  append_assoc, Bytes, codes, bytes_eq, bytes_eq_refl, eq_of_bytes_eq, bytes_eq_of_eq, is_empty,
  length, get_elem?, get_or, set, length-append, lookup, insert, has_key, lookup-insert, All, ltb,
  leb, ◌==◌, if◌then◌else◌, Bool-cases, Option-cases, arith, Result, ok, err, ◌>>=◌, ◌>>◌,
  refuse_if, >>=-eq-ok,
}
use mcp_filesystem_go_ultra.Common.{count_byte, newline}
use mcp_filesystem_go_ultra.Common.Search.{contains}
use mcp_filesystem_go_ultra.Edit.{EditResult, EditError, Confidence, high, medium, low, Library}
use mcp_filesystem_go_ultra.Edit.Eol.{
  normalize_line_endings, normalize_literal_escapes, detect_eol, restore_eol,
}
use mcp_filesystem_go_ultra.Edit.Lines.{count_occurrences_tolerant}
use mcp_filesystem_go_ultra.Edit.Cascade.{perform_intelligent_edit}

pub record MultiEditOperation : Type 0 where
  pub old_text : Bytes
  pub new_text : Bytes

-- `EditDetailStatus`
pub data EditStatus : Type 0 where
  applied : EditStatus
  already_present : EditStatus
  ambiguous : EditStatus
  failed_edit : EditStatus

pub record EditDetail : Type 0 where
  pub index : ℕ
  pub status : EditStatus

-- The result and the variables of the loop.
pub record MultiRun : Type 0 where
  pub current_content : Bytes
  pub successful_edits : ℕ
  pub skipped_edits : ℕ
  pub failed_edits : ℕ
  pub edit_details : List EditDetail
  pub match_confidence : Confidence
  pub total_replacements : ℕ
  pub total_lines_affected : ℕ
  pub total_lines_added : ℕ
  pub total_lines_removed : ℕ
  pub first_start_line : ℕ
  pub last_end_line : ℕ

abbrev pub begin_run : Bytes → MultiRun
begin_run content = record {
  current_content = content;
  successful_edits = 0;
  skipped_edits = 0;
  failed_edits = 0;
  edit_details = [];
  match_confidence = high;
  total_replacements = 0;
  total_lines_affected = 0;
  total_lines_added = 0;
  total_lines_removed = 0;
  first_start_line = 0;
  last_end_line = 0;
}

-- `if result.MatchConfidence == "high" { result.MatchConfidence = "medium" }`
abbrev pub lowered : Confidence → Confidence
lowered high = medium
lowered medium = medium
lowered low = low

abbrev pub add_detail : ℕ → EditStatus → MultiRun → List EditDetail
add_detail i status m = m.edit_details ++ record { index = i; status = status } ∷ []

abbrev pub fail_empty : ℕ → MultiRun → MultiRun
fail_empty i m = record m {
  failed_edits = m.failed_edits + 1;
  edit_details = add_detail i failed_edit m;
}

abbrev pub fail_with : EditStatus → ℕ → MultiRun → MultiRun
fail_with status i m = record m {
  failed_edits = m.failed_edits + 1;
  edit_details = add_detail i status m;
  match_confidence = lowered m.match_confidence;
}

abbrev pub skip_edit : ℕ → MultiRun → MultiRun
skip_edit i m = record m {
  skipped_edits = m.skipped_edits + 1;
  edit_details = add_detail i already_present m;
}

-- The confidence after an edit that was applied.
abbrev pub merged : Confidence → Confidence → Confidence
merged low overall = lowered overall
merged high overall = overall
merged medium overall = overall

-- The first start line and the last end line, where the edit has told its lines.
abbrev pub earliest : ℕ → ℕ → ℕ
earliest start first =
    if ltb 0 start then (if first == 0 || ltb start first then start else first) else first

abbrev pub latest : ℕ → ℕ → ℕ → ℕ
latest start stop last = if ltb 0 start && ltb last stop then stop else last

abbrev pub apply_edit : ℕ → MultiEditOperation → EditResult → MultiRun → MultiRun
apply_edit i edit r m = record {
  current_content = r.modified_content;
  successful_edits = m.successful_edits + 1;
  skipped_edits = m.skipped_edits;
  failed_edits = m.failed_edits;
  edit_details = add_detail i applied m;
  match_confidence = merged r.match_confidence m.match_confidence;
  total_replacements = m.total_replacements + r.replacement_count;
  total_lines_affected = m.total_lines_affected + r.lines_affected;
  total_lines_added =
      m.total_lines_added + (count_byte newline edit.new_text + 1) * r.replacement_count;
  total_lines_removed =
      m.total_lines_removed + (count_byte newline edit.old_text + 1) * r.replacement_count;
  first_start_line = earliest r.start_line m.first_start_line;
  last_end_line = latest r.start_line r.end_line m.last_end_line;
}

-- An edit that was not applied: a prior edit may have done it.
unfoldable pub settle_missing : Bytes → ℕ → MultiEditOperation → MultiRun → MultiRun
unfolding contains normalize_line_endings normalize_literal_escapes
settle_missing original i edit m =
    let current = normalize_line_endings m.current_content in
    let first = normalize_line_endings original in
    let new = normalize_line_endings edit.new_text in
    let old = normalize_line_endings edit.old_text in
    let converted_old = normalize_literal_escapes old in
    let converted_new = normalize_literal_escapes new in
    let old_in_original = contains first old || contains first converted_old in
    let old_absent = not (contains current old) && not (contains current converted_old) in
    let new_present =
      not (is_empty edit.new_text) && (contains current new || contains current converted_new) in
    if new_present && old_absent
    then (if old_in_original then skip_edit i m else fail_with ambiguous i m)
    else fail_with failed_edit i m

-- What follows `performIntelligentEdit`.
unfoldable pub settle_edit :
    Bytes → ℕ → MultiEditOperation → MultiRun → Result EditError EditResult → MultiRun
unfolding settle_missing
settle_edit original i edit m (err e) = settle_missing original i edit m
settle_edit original i edit m (ok r) =
    if r.replacement_count == 0 then settle_missing original i edit m else apply_edit i edit r m

module _ (library : Library) (fuel : ℕ) (tolerant : Bool) (original : Bytes) where
  -- One round of the loop.
  unfoldable pub edit_round : ℕ → MultiEditOperation → MultiRun → MultiRun
  unfolding count_occurrences_tolerant perform_intelligent_edit settle_edit
  edit_round i edit m =
      if is_empty edit.old_text
      then fail_empty i m
      else if ltb 1 (count_occurrences_tolerant m.current_content edit.old_text tolerant)
      then fail_with ambiguous i m
      else settle_edit original i edit m (
          perform_intelligent_edit library fuel m.current_content edit.old_text edit.new_text
            tolerant)

  unfoldable pub run_edits : ℕ → List MultiEditOperation → MultiRun → MultiRun
  unfolding edit_round
  run_edits i [] m = m
  run_edits i (edit ∷ edits) m = run_edits (i + 1) edits (edit_round i edit m)

-- What is done with the file.
pub data Verdict : Type 0 where
  none_successful : Verdict
  nothing_to_write : Verdict
  rolled_back : Verdict
  simulated : Bytes → Verdict
  written : Bytes → Verdict

-- The content that the hook has given, if any, else that behind the last edit.
abbrev pub content_to_write : Bytes → Bytes → Bytes
content_to_write [] current_content = current_content
content_to_write (c ∷ hook_content) current_content = c ∷ hook_content

-- What follows the loop.
unfoldable pub decide_write : Bool → Bytes → Bytes → MultiRun → Verdict
unfolding restore_eol detect_eol
decide_write dry_run hook_content original m =
    if m.successful_edits == 0 && m.skipped_edits == 0
    then none_successful
    else if m.successful_edits == 0
    then nothing_to_write
    else if ltb 0 m.failed_edits
    then rolled_back
    else if dry_run
    then simulated m.current_content
    else written
        (restore_eol (content_to_write hook_content m.current_content) (detect_eol original))

-- `MultiEdit`, from the loop on.
unfoldable pub multi_edit :
    Library → ℕ → Bool → Bool → Bytes → Bytes → List MultiEditOperation → MultiRun × Verdict
unfolding run_edits decide_write
multi_edit library fuel tolerant dry_run hook_content content edits =
    let m = run_edits library fuel tolerant content 0 edits (begin_run content) in
    (m, decide_write dry_run hook_content content m)

-- ===== src/MultiEdit/Totals.antt =====
-- core/edit_operations.go: the totals of a run of `MultiEdit`, and what it writes.
use mcp_filesystem_go_ultra.Common.{
  ℕ, suc, ◌+◌, ◌<◌, ◌≡◌, inl, inr, refl, sym, ap, subst, ◌∙◌, Bool, true, false, List, [], ◌∷◌,
  ◌++◌, Bytes, is_empty, length, length-append, ltb, ◌==◌, if◌then◌else◌, Bool-cases, arith, Result,
  ok, err,
}
use mcp_filesystem_go_ultra.Edit.{EditResult, EditError, Library}
use mcp_filesystem_go_ultra.Edit.Eol.{detect_eol, restore_eol}
use mcp_filesystem_go_ultra.Edit.Lines.{count_occurrences_tolerant}
use mcp_filesystem_go_ultra.Edit.Cascade.{perform_intelligent_edit}
use mcp_filesystem_go_ultra.MultiEdit.{
  MultiEditOperation, EditStatus, applied, already_present, ambiguous, failed_edit, EditDetail,
  MultiRun, begin_run, settle_missing, settle_edit, edit_round, run_edits, written, decide_write,
  content_to_write, multi_edit, fail_empty, fail_with, skip_edit, apply_edit,
}

-- How many details have a status among those that a test accepts.
abbrev pub count_status : (EditStatus → Bool) → List EditDetail → ℕ
count_status test [] = 0
count_status test (d ∷ ds) = (if test d.status then 1 else 0) + count_status test ds

abbrev pub is_applied : EditStatus → Bool
is_applied applied = true
is_applied other_status = false

abbrev pub is_skipped : EditStatus → Bool
is_skipped already_present = true
is_skipped other_status = false

abbrev pub is_failed : EditStatus → Bool
is_failed ambiguous = true
is_failed failed_edit = true
is_failed other_status = false

count_status-append :
    (test : EditStatus → Bool) (ds es : List EditDetail)
    → count_status test (ds ++ es) ≡ count_status test ds + count_status test es
count_status-append test [] es = omega arith
count_status-append test (d ∷ ds) es = omega (arith, count_status-append test ds es)

-- The three totals are those of the details.
pub AreTotals : MultiRun → Type 0
AreTotals m =
    (m.successful_edits ≡ count_status is_applied m.edit_details)
    × (m.skipped_edits ≡ count_status is_skipped m.edit_details)
    × (m.failed_edits ≡ count_status is_failed m.edit_details)

-- A run with `n` details.
Counts : ℕ → MultiRun → Type 0
Counts n m = AreTotals m × (length m.edit_details ≡ n)

-- A detail more counts where its status belongs.
detail-Counts :
    (n i : ℕ) (status : EditStatus) (m m' : MultiRun)
    → Counts n m
    → m'.edit_details ≡ m.edit_details ++ record { index = i; status = status } ∷ []
    → m'.successful_edits ≡ m.successful_edits + (if is_applied status then 1 else 0)
    → m'.skipped_edits ≡ m.skipped_edits + (if is_skipped status then 1 else 0)
    → m'.failed_edits ≡ m.failed_edits + (if is_failed status then 1 else 0)
    → Counts (n + 1) m'
unfolding Counts AreTotals
detail-Counts n i status m m' ((successful, skipped, failing), size) details a b c =
    let d : EditDetail = record { index = i; status = status } in
    let more = λ (test : EditStatus → Bool).
      ap (count_status test) details ∙ count_status-append test m.edit_details (d ∷ []) in
    let longer = ap length details ∙ length-append m.edit_details (d ∷ []) in
    (
      (
        omega (arith, successful, a, more is_applied),
        omega (arith, skipped, b, more is_skipped),
        omega (arith, failing, c, more is_failed),
      ),
      omega (arith, size, longer),
    )

fail_empty-Counts : (n i : ℕ) (m : MultiRun) → Counts n m → Counts (n + 1) (fail_empty i m)
fail_empty-Counts n i m c =
    detail-Counts n i failed_edit m (fail_empty i m) c refl (omega arith) (omega arith)
      (omega arith)

skip_edit-Counts : (n i : ℕ) (m : MultiRun) → Counts n m → Counts (n + 1) (skip_edit i m)
skip_edit-Counts n i m c =
    detail-Counts n i already_present m (skip_edit i m) c refl (omega arith) (omega arith)
      (omega arith)

apply_edit-Counts :
    (n i : ℕ) (edit : MultiEditOperation) (r : EditResult) (m : MultiRun)
    → Counts n m
    → Counts (n + 1) (apply_edit i edit r m)
apply_edit-Counts n i edit r m c =
    detail-Counts n i applied m (apply_edit i edit r m) c refl (omega arith) (omega arith)
      (omega arith)

ambiguous-Counts : (n i : ℕ) (m : MultiRun) → Counts n m → Counts (n + 1) (fail_with ambiguous i m)
ambiguous-Counts n i m c =
    detail-Counts n i ambiguous m (fail_with ambiguous i m) c refl (omega arith) (omega arith)
      (omega arith)

failed-Counts : (n i : ℕ) (m : MultiRun) → Counts n m → Counts (n + 1) (fail_with failed_edit i m)
failed-Counts n i m c =
    detail-Counts n i failed_edit m (fail_with failed_edit i m) c refl (omega arith) (omega arith)
      (omega arith)

if-Counts :
    (n : ℕ) (b : Bool) (m m' : MultiRun) → Counts n m → Counts n m' → Counts n (if b then m else m')
if-Counts n true m m' h k = h
if-Counts n false m m' h k = k

settle_missing-Counts :
    (original : Bytes) (n i : ℕ) (edit : MultiEditOperation) (m : MultiRun)
    → Counts n m
    → Counts (n + 1) (settle_missing original i edit m)
unfolding settle_missing
settle_missing-Counts original n i edit m c =
    if-Counts (n + 1) _ _ _
      (if-Counts (n + 1) _ _ _ (skip_edit-Counts n i m c) (ambiguous-Counts n i m c))
      (failed-Counts n i m c)

settle_edit-Counts :
    (original : Bytes) (n i : ℕ) (edit : MultiEditOperation) (m : MultiRun)
    (o : Result EditError EditResult)
    → Counts n m
    → Counts (n + 1) (settle_edit original i edit m o)
unfolding settle_edit
settle_edit-Counts original n i edit m (err e) c = settle_missing-Counts original n i edit m c
settle_edit-Counts original n i edit m (ok r) c =
    if-Counts (n + 1) (r.replacement_count == 0) _ _ (settle_missing-Counts original n i edit m c)
      (apply_edit-Counts n i edit r m c)

module _ (library : Library) (fuel : ℕ) (tolerant : Bool) (original : Bytes) where
  edit_round-Counts :
      (n i : ℕ) (edit : MultiEditOperation) (m : MultiRun)
      → Counts n m
      → Counts (n + 1) (edit_round library fuel tolerant original i edit m)
  unfolding edit_round
  edit_round-Counts n i edit m c =
      if-Counts (n + 1) (is_empty edit.old_text) _ _ (fail_empty-Counts n i m c) (
        if-Counts (n + 1)
          (ltb 1 (count_occurrences_tolerant m.current_content edit.old_text tolerant)) _ _
          (ambiguous-Counts n i m c)
          (settle_edit-Counts original n i edit m
            (perform_intelligent_edit library fuel m.current_content edit.old_text edit.new_text
              tolerant)
            c))

  run_edits-Counts :
      (n i : ℕ) (edits : List MultiEditOperation) (m : MultiRun)
      → Counts n m
      → Counts (n + length edits) (run_edits library fuel tolerant original i edits m)
  unfolding run_edits
  run_edits-Counts n i [] m c = subst (λ k. Counts k m) (omega arith) c
  run_edits-Counts n i (edit ∷ edits) m c =
      let next : n + 1 + length edits ≡ n + suc (length edits) = omega arith in
      subst
        (λ k. Counts k (
          run_edits library fuel tolerant original (i + 1) edits
            (edit_round library fuel tolerant original i edit m)))
        next
        (run_edits-Counts (n + 1) (i + 1) edits (edit_round library fuel tolerant original i edit m)
          (edit_round-Counts n i edit m c))

-- Every edit gets one detail, and the totals of applied, skipped and failed edits are those of the
-- details; an ambiguous edit counts as failed.
pub multi_edit_totals :
    (library : Library) (fuel : ℕ) (tolerant dry_run : Bool) (hook_content content : Bytes)
    (edits : List MultiEditOperation)
    → AreTotals (multi_edit library fuel tolerant dry_run hook_content content edits).0
      × (length (multi_edit library fuel tolerant dry_run hook_content content edits).0.edit_details
          ≡ length edits)
unfolding multi_edit Counts AreTotals
multi_edit_totals library fuel tolerant dry_run hook_content content edits =
    let (totals, size) =
      run_edits-Counts library fuel tolerant content 0 0 edits (begin_run content)
        ((refl, refl, refl), refl) in
    (totals, omega (arith, size))

written-inj : (a b : Bytes) → written a ≡ written b → b ≡ a
written-inj a b h = cc h

decide_write-written :
    (dry_run : Bool) (hook_content original text : Bytes) (m : MultiRun)
    → decide_write dry_run hook_content original m ≡ written text
    → (dry_run ≡ false)
      × (m.failed_edits ≡ 0)
      × (0 < m.successful_edits)
      × (text ≡ restore_eol (content_to_write hook_content m.current_content) (detect_eol original))
unfolding decide_write
decide_write-written dry_run hook_content original text m h =
    elim (Bool-cases (m.successful_edits == 0)) [
      | inl e ↦ elim (Bool-cases (m.skipped_edits == 0)) [
        | inl f ↦ absurd (cc (rw (e, f, decide_write) at h))
        | inr f ↦ absurd (cc (rw (e, f, decide_write) at h))
      ]
      | inr e ↦ elim (Bool-cases (ltb 0 m.failed_edits)) [
        | inl f ↦ absurd (cc (rw (e, f, decide_write) at h))
        | inr f ↦ elim (Bool-cases dry_run) [
          | inl d ↦ absurd (cc (rw (e, f, d, decide_write) at h))
          | inr d ↦ (
            d,
            ground (arith, f),
            ground (arith, e),
            written-inj _ text (rw (e, f, d, decide_write) at h),
          )
        ]
      ]
    ]

-- A text is written only where the run is no dry run, no edit has failed or was ambiguous and at
-- least one was applied; it is the content that the hook has given, or where it gave none that
-- after the last edit, with the line ending that the original had.
pub multi_edit_writes :
    (library : Library) (fuel : ℕ) (tolerant dry_run : Bool) (hook_content content text : Bytes)
    (edits : List MultiEditOperation)
    → (multi_edit library fuel tolerant dry_run hook_content content edits).1 ≡ written text
    → (dry_run ≡ false)
      × (count_status is_failed
            (multi_edit library fuel tolerant dry_run hook_content content edits).0.edit_details
          ≡ 0)
      × (0
          < count_status is_applied
              (multi_edit library fuel tolerant dry_run hook_content content edits).0.edit_details)
      × (text
          ≡ restore_eol
              (content_to_write hook_content
                (multi_edit library fuel tolerant dry_run hook_content content
                  edits).0.current_content)
              (detect_eol content))
unfolding multi_edit AreTotals
multi_edit_writes library fuel tolerant dry_run hook_content content text edits h =
    let m = (multi_edit library fuel tolerant dry_run hook_content content edits).0 in
    let ((successful, skipped, failing), size) =
      multi_edit_totals library fuel tolerant dry_run hook_content content edits in
    let (real, none_failed, some_applied, result) =
      decide_write-written dry_run hook_content content text m h in
    (real, sym failing ∙ none_failed, omega (arith, successful, some_applied), result)

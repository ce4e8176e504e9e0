-- ===== src/Lib.antt =====
-- mcp-filesystem-go-ultra: the pure core of the file system server, modelled and proved.
--
-- The server edits files for a client and reports what it did. Its tools compute a new content
-- from the old one, print the difference, warn where the edit unbalances a file, and run several
-- operations as a pipeline. These computations are modelled here. They are functions on contents
-- and on plain data; what they read from outside is a parameter.
--
-- Parts and files:
--   Common         lists, texts, maps, results, integers and decimals that the parts share. A
--                  Go string is the list of its bytes, a map is an association list, an `int` is
--                  an integer without bounds, and an error is a value of the part's error type.
--   LineRange      core/line_range.go: `ComputeLineRangeDeletion`, `ComputeLineRangeReplacement`,
--                  `countRemovedLines`. Their common guards are `check_range`.
--   Diff           core/diff.go: `diff` and `countChanges`. The table `dp` is a list of rows,
--                  filled from the last row and the last column on, as in the source.
--   Hunk           core/diff.go: `computeHunks`, `hasChangeAhead`, `trailingContext`. The
--                  variables of the loop are the record `HunkState`.
--   Render         core/diff.go: `splitLines`, `UnifiedDiffContext`, `DiffStats`, `RenderDiff`.
--   Structure      core/structure_check.go: `delimiterBalance`, with its variables in the record
--                  `Scan`, `CheckBalanceDelta`, `CheckGoSyntax`, `CheckStructureDelta`.
--   Pipeline       core/pipeline_types.go: the data, `PipelineContext`, `getInputFiles`; below
--                  it, Condition for core/pipeline_conditions.go (its theorems in Decide) and
--                  Template for core/pipeline_templates.go (its theorems in Resolve).
--   Validate       core/pipeline_types.go: `isValidStepID`, the two `Validate`,
--                  `validateActionParams`; Self is about conditions on the own step.
--   Scheduler      core/pipeline_scheduler.go: `BuildExecutionPlan`, `splitDestructiveLevels`,
--                  `GetDependencies`.
--   Executor       core/pipeline.go: `executeStep`, and `Execute` from the loop over the steps on,
--                  for a run that is not parallel; `hasDestructiveSteps`, `assessPipelineRisk`
--                  with the limits of core/config.go.
--   Whitespace     core/whitespace_matcher.go: `normalizeForTolerantMatch`,
--                  `findAllTolerantMatches`, `applyTolerantMatches`.
--   Edit           core/edit_operations.go: `performIntelligentEdit`, a definition for each of its
--                  strategies in Edit/Cascade, with the loops in Walk and the helpers in Eol,
--                  Lines and Indent; Exact, Stuck, Endings and Flexible hold the theorems.
--   MultiEdit      core/edit_operations.go: `MultiEdit`, from the loop over the edits on, with
--                  the content that the hook before it has given.
--   Batch          core/batch_operations.go: `ExecuteBatch` in Batch/Run, `validateOperations` in
--                  Check, `executeOperation` in Operation, `prepareRollback` and `rollback` in
--                  Undo. The state is a type of the caller's, and the calls to the system are the
--                  fields of the record `Disk`. Laws says what a call that succeeds does to
--                  the files; no call has to succeed. The theorems are in
--                  Atomic (with Restore, Rollback and Unchanged), Access and Accounts.
--   ReadRange      core/read_dedup.go: `extractLineRangeFromBytes` and its line scanner.
--   Feedback       core/feedback.go: the state of a session and its operations, `CheckAutoOCC` and
--                  `CheckEditOp`; Detect has the detectors on sizes. Baseline sees the state as a
--                  history of operations, Sizes has the bounds.
--
-- How they interact: Render prints the hunks of Hunk, which come from the edit script of Diff.
-- Validate uses the conditions of Pipeline/Condition; Scheduler reads the same steps, and orders
-- them by the references that Validate has checked; Executor runs them and evaluates their
-- conditions. Batch and MultiEdit edit with Edit; Batch extracts with LineRange; Edit uses the
-- matches of Whitespace. Structure, ReadRange and Feedback stand
-- alone.
--
-- Parameters: the separators of a path and the Go parser (Structure); the file system,
-- `NormalizePath` and the allowed paths (the record `Files` of Pipeline/Condition); what the
-- actions and the restoring of a backup do (the record `Engine` of Executor); regular expressions
-- and a proportion of floats (the record `Library` of Edit); the disk, the hooks and the engine's
-- search in a file (the record `Disk` of Batch). Of regular expressions Edit/Flexible asks that a
-- quoted text as a pattern matches that text only.
--
-- Fuel: the levels of a plan get one round more than there are steps, the search for matches one
-- round more than the normalized content has bytes, and the digits of a number one round more
-- than the number. Each round takes at least one step, one byte or one digit. The loops
-- of an edit have their fuel from the caller, and Edit/Stuck tells when it is enough; a batch gives
-- them a round for each byte of the file and one more. The way back from an index in normalized
-- text gets a round for each byte before it.
--
-- Not modelled: input and output, JSON, locks, time, the caches and the tools that register the
-- functions with the protocol; machine integers do not wrap around, since all numbers here count
-- the lines, bytes or steps of values in memory. Error values hold what the messages show.
pub mod Common
pub mod LineRange
pub mod Diff
pub mod Hunk
pub mod Render
pub mod Structure
pub mod Pipeline
pub mod Validate
pub mod Scheduler
pub mod Whitespace
pub mod Executor
pub mod Edit
pub mod Batch
pub mod Feedback
pub mod MultiEdit
pub mod ReadRange

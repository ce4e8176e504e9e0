-- ===== src/Feedback.antt =====
-- core/feedback.go: the signals, and the state of a session. The texts of the signals are left out;
-- a time is a number of nanoseconds, and the clock is given to the operations that read it. The
-- child Detect has the checks on sizes, Baseline and Sizes have the theorems.
pub mod Detect
pub mod Sizes
pub mod Baseline
mod Tests
use mcp_filesystem_go_ultra.Common.{
  ℕ, zero, suc, ◌+◌, ◌-◌, ◌*◌, ◌≤◌, ◌<◌, ◌≡◌, ◌≢◌, ◌↔◌, ◌⊎◌, inl, inr, refl, sym, ap, subst, ◌∙◌,
  Bool, true, false, not, ◌&&◌, ◌||◌, List, [], ◌∷◌, ◌++◌, map, Option, none, some, append-nil,
  append_assoc, Bytes, codes, bytes_eq, bytes_eq_refl, eq_of_bytes_eq, bytes_eq_of_eq, is_empty,
  length, get_elem?, get_or, set, length-append, lookup, insert, has_key, lookup-insert, All, ltb,
  leb, ◌==◌, if◌then◌else◌, Bool-cases, Option-cases, arith, Result, ok, err, ◌>>=◌, ◌>>◌,
  refuse_if, >>=-eq-ok,
}
use mcp_filesystem_go_ultra.Common.{erase, take}

-- `FeedbackStatus` and `PatternID`
pub data Status : Type 0 where
  fine : Status
  warn : Status
  ko : Status

pub data Pattern : Type 0 where
  no_pattern : Pattern
  truncation : Pattern
  inflation_loop : Pattern
  stale_read : Pattern
  full_rewrite : Pattern
  repeated_old_text : Pattern
  large_new_text : Pattern
  accidental_rewrite : Pattern
  external_change : Pattern

pub record FeedbackSignal : Type 0 where
  pub status : Status
  pub pattern : Pattern
  pub block_op : Bool

-- `OK`
abbrev pub no_issue : FeedbackSignal
no_issue = record { status = fine; pattern = no_pattern; block_op = false }

-- `sessionState`
pub record SessionState : Type 0 where
  pub failed_old_text : List (Bytes × List (Bytes × ℕ))
  pub last_read : List (Bytes × ℕ)
  pub known_hash : List (Bytes × Bytes)
  pub stale_warned : List (Bytes × Bool)

abbrev pub new_session : SessionState
new_session = record { failed_old_text = []; last_read = []; known_hash = []; stale_warned = [] }

-- `autoOCCMode`
pub data OccMode : Type 0 where
  off : OccMode
  warning : OccMode
  blocking : OccMode

-- `SetAutoOCCMode`
unfoldable pub set_auto_occ_mode : Bytes → OccMode
set_auto_occ_mode mode =
    if bytes_eq mode (codes "off")
    then off
    else if bytes_eq mode (codes "block")
    then blocking
    else warning

-- `RecordRead`
unfoldable pub record_read : Bytes → ℕ → SessionState → SessionState
record_read path now s = record s {
  last_read = insert path now s.last_read;
  stale_warned = erase path s.stale_warned;
}

-- `RecordReadHash`
unfoldable pub record_read_hash : Bytes → Bytes → ℕ → SessionState → SessionState
record_read_hash path [] now s = s
record_read_hash path (c ∷ hash) now s = record s {
  known_hash = insert path (c ∷ hash) s.known_hash;
  last_read = insert path now s.last_read;
  stale_warned = erase path s.stale_warned;
}

-- `RecordWriteHash`
unfoldable pub record_write_hash : Bytes → Bytes → ℕ → SessionState → SessionState
record_write_hash path [] now s = s
record_write_hash path (c ∷ hash) now s = record s {
  known_hash = insert path (c ∷ hash) s.known_hash;
  last_read = insert path now s.last_read;
}

-- `InvalidateKnownHash`
unfoldable pub invalidate_known_hash : Bytes → SessionState → SessionState
invalidate_known_hash path s = record s {
  known_hash = erase path s.known_hash;
  last_read = erase path s.last_read;
}

-- `refreshKnownHashPath`, for the path normalized and the hash of what is read.
unfoldable pub refresh_known_hash_path :
    Bytes → Bytes → Option Bytes → ℕ → SessionState → SessionState
unfolding record_write_hash invalidate_known_hash
refresh_known_hash_path [] normalized hash now s = s
refresh_known_hash_path (c ∷ path) normalized none now s = invalidate_known_hash normalized s
refresh_known_hash_path (c ∷ path) normalized (some hash) now s =
    record_write_hash normalized hash now s

-- `10*time.Minute`
abbrev pub stale_window : ℕ
stale_window = 600000000000

-- Whether a time is there and not too long ago.
abbrev pub is_fresh : Option ℕ → ℕ → Bool
is_fresh none now = false
is_fresh (some at) now = leb (now - at) stale_window

-- The comparison of `CheckAutoOCC`.
unfoldable pub compare_hashes : OccMode → Bytes → Option Bytes → FeedbackSignal
compare_hashes mode disk_hash none = no_issue
compare_hashes off disk_hash (some known) = no_issue
compare_hashes warning disk_hash (some known) =
    if bytes_eq known disk_hash
    then no_issue
    else record { status = warn; pattern = external_change; block_op = false }
compare_hashes blocking disk_hash (some known) =
    if bytes_eq known disk_hash
    then no_issue
    else record { status = warn; pattern = external_change; block_op = true }

-- `CheckAutoOCC`
unfoldable pub check_auto_occ : OccMode → Bytes → Bytes → ℕ → SessionState → FeedbackSignal
unfolding compare_hashes
check_auto_occ mode path disk_hash now s =
    if is_empty disk_hash
    then no_issue
    else if is_fresh (lookup path s.last_read) now
    then compare_hashes mode disk_hash (lookup path s.known_hash)
    else no_issue

-- The key of an old text: its first 60 bytes.
abbrev pub text_key : Bytes → Bytes
text_key old_text = take 60 old_text

-- A map that is not there counts nothing.
abbrev pub counts_of : Option (List (Bytes × ℕ)) → List (Bytes × ℕ)
counts_of none = []
counts_of (some counts) = counts

abbrev pub count_of : Option ℕ → ℕ
count_of none = 0
count_of (some n) = n

-- The failures of an old text on a path.
unfoldable pub fail_count : Bytes → Bytes → SessionState → ℕ
fail_count path old_text s =
    count_of (lookup (text_key old_text) (counts_of (lookup path s.failed_old_text)))

-- `RecordFailedOldText`
unfoldable pub record_failed_old_text : Bytes → Bytes → SessionState → SessionState
unfolding fail_count
record_failed_old_text path old_text s = record s {
  failed_old_text =
      insert path
        (insert (text_key old_text) (fail_count path old_text s + 1)
          (counts_of (lookup path s.failed_old_text)))
        s.failed_old_text;
}

-- `ResetFailedOldText`
unfoldable pub reset_failed_old_text : Bytes → Bytes → SessionState → SessionState
reset_failed_old_text path old_text s = elim (lookup path s.failed_old_text) [
  | none ↦ s
  | some counts ↦ record s {
    failed_old_text = insert path (erase (text_key old_text) counts) s.failed_old_text;
  }
]

-- The warning of a stale read, once for each file.
unfoldable pub warn_stale : Bytes → SessionState → FeedbackSignal × SessionState
warn_stale path s = elim (lookup path s.stale_warned) [
  | none ↦ (
    record { status = warn; pattern = stale_read; block_op = false },
    record s { stale_warned = insert path true s.stale_warned },
  )
  | some warned ↦ if warned then (no_issue, s) else (
    record { status = warn; pattern = stale_read; block_op = false },
    record s { stale_warned = insert path true s.stale_warned },
  )
]

-- `CheckEditOp`
unfoldable pub check_edit_op :
    Bytes → Bytes → Bool → ℕ → SessionState → FeedbackSignal × SessionState
unfolding fail_count warn_stale
check_edit_op path old_text hash_provided now s =
    if leb 2 (fail_count path old_text s)
    then (record { status = ko; pattern = repeated_old_text; block_op = false }, s)
    else if is_fresh (lookup path s.last_read) now
    then (no_issue, s)
    else if hash_provided
    then (no_issue, s)
    else warn_stale path s

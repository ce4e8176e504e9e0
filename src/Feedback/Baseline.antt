-- ===== src/Feedback/Baseline.antt =====
-- core/feedback.go: the baseline of the automatic check, that is, what the session has recorded of
-- a path, seen from the history of its operations, of which the latest stands first.
use mcp_filesystem_go_ultra.Common.{
  ℕ, ◌≡◌, ◌≢◌, ◌↔◌, inl, inr, refl, sym, ap, subst, ◌∙◌, Bool, true, false, List, [], ◌∷◌, Option,
  none, some, Bytes, bytes_eq, eq_of_bytes_eq, bytes_eq_of_eq, is_empty, lookup, insert,
  lookup-insert, leb, if◌then◌else◌, Bool-cases, Option-cases,
}
use mcp_filesystem_go_ultra.Common.{erase, lookup-erase}
use mcp_filesystem_go_ultra.Feedback.{
  no_issue, warn, external_change, SessionState, new_session, OccMode, off, warning, blocking,
  record_read, record_read_hash, record_write_hash, invalidate_known_hash, is_fresh, compare_hashes,
  check_auto_occ, record_failed_old_text, reset_failed_old_text, check_edit_op, warn_stale,
  fail_count, refresh_known_hash_path,
}

-- The operations that change the state of a session, with their times.
pub data Event : Type 0 where
  read : Bytes → ℕ → Event
  read_hash : Bytes → Bytes → ℕ → Event
  write_hash : Bytes → Bytes → ℕ → Event
  invalidate : Bytes → Event
  refresh : Bytes → Bytes → Option Bytes → ℕ → Event
  failed_text : Bytes → Bytes → Event
  reset_text : Bytes → Bytes → Event
  checked : Bytes → Bytes → Bool → ℕ → Event

unfoldable pub apply_event : Event → SessionState → SessionState
unfolding record_read record_read_hash record_write_hash invalidate_known_hash
    refresh_known_hash_path
apply_event (read path now) s = record_read path now s
apply_event (read_hash path hash now) s = record_read_hash path hash now s
apply_event (write_hash path hash now) s = record_write_hash path hash now s
apply_event (invalidate path) s = invalidate_known_hash path s
apply_event (refresh path normalized hash now) s =
    refresh_known_hash_path path normalized hash now s
apply_event (failed_text path old_text) s = record_failed_old_text path old_text s
apply_event (reset_text path old_text) s = reset_failed_old_text path old_text s
apply_event (checked path old_text hash_provided now) s =
    (check_edit_op path old_text hash_provided now s).1

-- The state after a history.
unfoldable pub session_after : List Event → SessionState
unfolding apply_event
session_after [] = new_session
session_after (e ∷ history) = apply_event e (session_after history)

-- What an event says of the hash of a path: nothing, that there is none, or which it is.
pub data Said : Type 0 where
  nothing : Said
  gone : Said
  is : Bytes → Said

abbrev said_hash : Bytes → Bytes → Bytes → Said
said_hash p path [] = nothing
said_hash p path (c ∷ hash) = if bytes_eq path p then is (c ∷ hash) else nothing

abbrev pub said_of : Bytes → Event → Said
said_of p (read path now) = nothing
said_of p (read_hash path hash now) = said_hash p path hash
said_of p (write_hash path hash now) = said_hash p path hash
said_of p (invalidate path) = if bytes_eq path p then gone else nothing
said_of p (refresh [] normalized hash now) = nothing
said_of p (refresh (c ∷ path) normalized none now) = if bytes_eq normalized p then gone else nothing
said_of p (refresh (c ∷ path) normalized (some hash) now) = said_hash p normalized hash
said_of p (failed_text path old_text) = nothing
said_of p (reset_text path old_text) = nothing
said_of p (checked path old_text hash_provided now) = nothing

-- The latest event that says anything of it decides.
abbrev pub decide_by : Said → Option Bytes → Option Bytes
decide_by nothing before = before
decide_by gone before = none
decide_by (is hash) before = some hash

abbrev pub last_hash : Bytes → List Event → Option Bytes
last_hash p [] = none
last_hash p (e ∷ history) = decide_by (said_of p e) (last_hash p history)

record-decides :
    (p path hash : Bytes) (m : List (Bytes × Bytes))
    → lookup p (insert path hash m)
      ≡ decide_by (if bytes_eq path p then is hash else nothing) (lookup p m)
record-decides p path hash m = elim (Bool-cases (bytes_eq path p)) [
  | inl e ↦ lookup-insert path p hash m ∙ rw e refl
  | inr e ↦ lookup-insert path p hash m ∙ rw e refl
]

erase-decides :
    (p path : Bytes) (m : List (Bytes × Bytes))
    → lookup p (erase path m) ≡ decide_by (if bytes_eq path p then gone else nothing) (lookup p m)
erase-decides p path m = elim (Bool-cases (bytes_eq path p)) [
  | inl e ↦ lookup-erase path p m ∙ rw e refl
  | inr e ↦ lookup-erase path p m ∙ rw e refl
]

reset-known :
    (path old_text : Bytes) (s : SessionState)
    → (reset_failed_old_text path old_text s).known_hash ≡ s.known_hash
unfolding reset_failed_old_text
reset-known path old_text s = elim (Option-cases (lookup path s.failed_old_text)) [
  | inl e ↦ rw (e, reset_failed_old_text) refl
  | inr (counts, e) ↦ rw (e, reset_failed_old_text) refl
]

warn_stale-known :
    (path : Bytes) (s : SessionState) → (warn_stale path s).1.known_hash ≡ s.known_hash
unfolding warn_stale
warn_stale-known path s = elim (Option-cases (lookup path s.stale_warned)) [
  | inl e ↦ rw (e, warn_stale) refl
  | inr (warned, e) ↦ elim (Bool-cases warned) [
    | inl w ↦ rw (e, warn_stale, w) refl
    | inr w ↦ rw (e, warn_stale, w) refl
  ]
]

check_edit_op-known :
    (path old_text : Bytes) (hash_provided : Bool) (now : ℕ) (s : SessionState)
    → (check_edit_op path old_text hash_provided now s).1.known_hash ≡ s.known_hash
unfolding check_edit_op
check_edit_op-known path old_text hash_provided now s =
    elim (Bool-cases (leb 2 (fail_count path old_text s))) [
      | inl e ↦ rw (e, check_edit_op) refl
      | inr e ↦ elim (Bool-cases (is_fresh (lookup path s.last_read) now)) [
        | inl f ↦ rw (e, f, check_edit_op) refl
        | inr f ↦ elim (Bool-cases hash_provided) [
          | inl h ↦ rw (e, f, h, check_edit_op) refl
          | inr h ↦ rw (e, f, h, check_edit_op) (warn_stale-known path s)
        ]
      ]
    ]

-- One event changes what is known of a path as it says.
known-apply_event :
    (p : Bytes) (e : Event) (s : SessionState)
    → lookup p (apply_event e s).known_hash ≡ decide_by (said_of p e) (lookup p s.known_hash)
unfolding apply_event record_read record_read_hash record_write_hash invalidate_known_hash
    refresh_known_hash_path record_failed_old_text
known-apply_event p (read path now) s = refl
known-apply_event p (read_hash path [] now) s = refl
known-apply_event p (read_hash path (c ∷ hash) now) s =
    record-decides p path (c ∷ hash) s.known_hash
known-apply_event p (write_hash path [] now) s = refl
known-apply_event p (write_hash path (c ∷ hash) now) s =
    record-decides p path (c ∷ hash) s.known_hash
known-apply_event p (invalidate path) s = erase-decides p path s.known_hash
known-apply_event p (refresh [] normalized hash now) s = refl
known-apply_event p (refresh (d ∷ path) normalized none now) s =
    erase-decides p normalized s.known_hash
known-apply_event p (refresh (d ∷ path) normalized (some []) now) s = refl
known-apply_event p (refresh (d ∷ path) normalized (some (c ∷ hash)) now) s =
    record-decides p normalized (c ∷ hash) s.known_hash
known-apply_event p (failed_text path old_text) s = refl
known-apply_event p (reset_text path old_text) s =
    ap (λ m. lookup p m) (reset-known path old_text s)
known-apply_event p (checked path old_text hash_provided now) s =
    ap (λ m. lookup p m) (check_edit_op-known path old_text hash_provided now s)

known-session_after :
    (p : Bytes) (history : List Event)
    → lookup p (session_after history).known_hash ≡ last_hash p history
unfolding session_after
known-session_after p [] = refl
known-session_after p (e ∷ history) =
    known-apply_event p e (session_after history)
    ∙ ap (decide_by (said_of p e)) (known-session_after p history)

some-inj : (a b : Bytes) → some a ≡ some b → b ≡ a
some-inj a b h = cc h

-- When two hashes are compared and differ.
pub IsChanged : OccMode → Bytes → Option Bytes → Type 0
IsChanged mode disk_hash o =
    (mode ≢ off) × ((known : Bytes) × (o ≡ some known) × (known ≢ disk_hash))

differ_iff :
    (block : Bool) (known disk_hash : Bytes)
    → ((if bytes_eq known disk_hash
          then no_issue
          else record { status = warn; pattern = external_change; block_op = block }).pattern
        ≡ external_change)
      ↔ (known ≢ disk_hash)
differ_iff block known disk_hash = elim (Bool-cases (bytes_eq known disk_hash)) [
  | inl e ↦
      rw e ((λ h. absurd (cc h)), (λ apart. absurd (apart (eq_of_bytes_eq known disk_hash e))))
  | inr e ↦ rw e ((λ h same. cc (e, bytes_eq_of_eq known disk_hash same)), (λ apart. refl))
]

compare_hashes-IsChanged :
    (mode : OccMode) (disk_hash : Bytes) (o : Option Bytes)
    → ((compare_hashes mode disk_hash o).pattern ≡ external_change) ↔ IsChanged mode disk_hash o
unfolding compare_hashes IsChanged
compare_hashes-IsChanged mode disk_hash none = ((λ h. absurd (cc h)), (λ c. absurd (cc (c.1.1))))
compare_hashes-IsChanged off disk_hash (some known) =
    ((λ h. absurd (cc h)), (λ c. absurd (c.0 refl)))
compare_hashes-IsChanged warning disk_hash (some known) = (
  (λ h. ((λ e. cc e), (known, refl, (differ_iff false known disk_hash).0 h))),
  (λ c. (differ_iff false known disk_hash).1 (λ same. c.1.2 (some-inj known c.1.0 c.1.1 ∙ same))),
)
compare_hashes-IsChanged blocking disk_hash (some known) = (
  (λ h. ((λ e. cc e), (known, refl, (differ_iff true known disk_hash).0 h))),
  (λ c. (differ_iff true known disk_hash).1 (λ same. c.1.2 (some-inj known c.1.0 c.1.1 ∙ same))),
)

-- An external change is signalled exactly when the check is on, the hash on disk is known, the path
-- was seen not too long ago, and the latest hash that the history of the session has for the path
-- is another.
pub external_change_iff :
    (mode : OccMode) (path disk_hash : Bytes) (now : ℕ) (history : List Event)
    → ((check_auto_occ mode path disk_hash now (session_after history)).pattern ≡ external_change)
      ↔ ((is_empty disk_hash ≡ false)
          × (is_fresh (lookup path (session_after history).last_read) now ≡ true)
          × IsChanged mode disk_hash (last_hash path history))
unfolding check_auto_occ
external_change_iff mode path disk_hash now history =
    let s = session_after history in
    elim (Bool-cases (is_empty disk_hash)) [
      | inl e ↦ rw (e, check_auto_occ) ((λ h. absurd (cc h)), (λ c. absurd (cc (c.0))))
      | inr e ↦ elim (Bool-cases (is_fresh (lookup path s.last_read) now)) [
        | inr f ↦ rw (e, f, check_auto_occ) ((λ h. absurd (cc h)), (λ c. absurd (cc (c.1))))
        | inl f ↦
            let (there, back) =
              compare_hashes-IsChanged mode disk_hash (lookup path s.known_hash) in
            let known = known-session_after path history in
            rw (e, f, check_auto_occ)
              (
                (λ h. (refl, refl, subst (IsChanged mode disk_hash) known (there h))),
                (λ c. back (subst (IsChanged mode disk_hash) (sym known) c.2)),
              )
      ]
    ]

-- ===== src/Scheduler/Rounds.antt =====
-- core/pipeline_scheduler.go: the invariant of Kahn's algorithm, round by round.
use mcp_filesystem_go_ultra.Common.{
  ℕ, zero, suc, ◌+◌, ◌-◌, ◌≤◌, ◌<◌, ◌≡◌, refl, sym, ap, subst, ◌∙◌, Bool, true, false, List, [],
  ◌∷◌, ◌++◌, append-nil, append_assoc, length, get_or, All, ◌==◌, if◌then◌else◌, arith,
}
use native.Mathlib.Nat.{zero-add}
use mcp_filesystem_go_ultra.Common.{dec_lt}
use mcp_filesystem_go_ultra.Scheduler.{
  mem_nat, dependents, zero_counts, lengths, Round, release, release_all, process_queue,
}
use mcp_filesystem_go_ultra.Scheduler.Counting.{
  count, count-append, row, missing, missing-snoc, missing-nil, AreSets, count-dependents,
  release_at, row-outside,
}

-- Many dependents are released.
release_all_at :
    (ds : List ℕ) (i : ℕ) (r : Round)
    → All (λ d. d < length r.dep_count) ds
    → count i ds ≤ 1
    → (length (release_all ds r).dep_count ≡ length r.dep_count)
      × (get_or (release_all ds r).dep_count i 0 ≡ get_or r.dep_count i 0 - count i ds)
      × (count i (release_all ds r).next_queue
          ≡ count i r.next_queue
            + (if count i ds == 0 then 0 else if get_or r.dep_count i 0 - 1 == 0 then 1 else 0))
unfolding release_all
release_all_at [] i r bound once = (refl, omega arith, omega arith)
release_all_at (d ∷ ds) i r bound once =
    let (size, counts, queued) = release_at d i r bound.0 in
    let later =
      release_all_at ds i (release d r) (subst (λ n. All (λ d. d < n) ds) (sym size) bound.1)
        (omega arith) in
    ground (arith, release_at d i r bound.0, later)

dependents-bound :
    (i : ℕ) (deps : List (List ℕ)) (idx : ℕ)
    → All (λ j. j < i + length deps) (dependents i deps idx)
unfolding dependents
dependents-bound i [] idx = tt
dependents-bound i (d ∷ ds) idx =
    let e : i + 1 + length ds ≡ i + suc (length ds) = omega arith in
    let later =
      subst (λ n. All (λ j. j < n) (dependents (i + 1) ds idx)) e
        (dependents-bound (i + 1) ds idx) in
    by_test (mem_nat idx d) (dependents (i + 1) ds idx) later
  where
    by_test :
        (b : Bool) (l : List ℕ)
        → All (λ j. j < i + suc (length ds)) l
        → All (λ j. j < i + suc (length ds)) (if b then i ∷ l else l)
    by_test true l h = (omega arith, h)
    by_test false l h = h

-- Between two steps of a round: `done` are visited, `queue` is what is left of the level, `next`
-- is the next level so far, and `c` are the counts.
pub record Kahn (deps : List (List ℕ)) (done queue next c : List ℕ) : Type 0 where
  pub counted : length c ≡ length deps
  pub exact : (i : ℕ) → i < length deps → get_or c i 0 ≡ missing done (row deps i)
  pub standing :
      (i : ℕ)
      → i < length deps
      → count i done + count i queue + count i next
        ≡ (if missing done (row deps i) == 0 then 1 else 0)
  pub outside : (i : ℕ) → length deps ≤ i → count i done + count i queue + count i next ≡ 0

-- What is in the queue is a step that is not visited.
queued_is_new :
    (deps : List (List ℕ)) (done queue next c : List ℕ) (idx : ℕ)
    → Kahn deps done (idx ∷ queue) next c
    → (idx < length deps) × (count idx done ≡ 0)
queued_is_new deps done queue next c idx k = elim (dec_lt idx (length deps)) [
  | yes lt ↦ (lt, let s = k.standing idx lt in ground arith)
  | no ge ↦ absurd (let s = k.outside idx (omega arith) in ground arith)
]

-- The numbers of one step: `m` dependencies missing before and `m'` after, `b` of them `idx`.
standing_step :
    (m m' b q d n n' x : ℕ)
    → m ≡ m' + b
    → b ≤ 1
    → n' ≡ n + (if b == 0 then 0 else if m - 1 == 0 then 1 else 0)
    → d + (x + q) + n ≡ (if m == 0 then 1 else 0)
    → d + (x + 0) + q + n' ≡ (if m' == 0 then 1 else 0)
standing_step m m' b q d n n' x = ground arith

outside_step :
    (q d n b n' size old idx i : ℕ)
    → idx < size
    → size ≤ i
    → b ≡ 0
    → n' ≡ n + (if b == 0 then 0 else if old - 1 == 0 then 1 else 0)
    → d + ((if idx == i then 1 else 0) + q) + n ≡ 0
    → d + ((if idx == i then 1 else 0) + 0) + q + n' ≡ 0
outside_step q d n b n' size old idx i lt ge e h s = ground arith

module _ (deps : List (List ℕ)) (sets : AreSets deps) where
  process_one :
      (done queue next c : List ℕ) (idx : ℕ)
      → Kahn deps done (idx ∷ queue) next c
      → let r = release_all (dependents 0 deps idx) (record { dep_count = c; next_queue = next }) in
        Kahn deps (done ++ idx ∷ []) queue r.next_queue r.dep_count
  process_one done queue next c idx k =
      let r : Round = record { dep_count = c; next_queue = next } in
      let ds = dependents 0 deps idx in
      let (idx_lt, fresh) = queued_is_new deps done queue next c idx k in
      let bound : All (λ j. j < length c) ds =
        subst (λ n. All (λ j. j < n) ds) (zero-add (length deps) ∙ sym k.counted)
          (dependents-bound 0 deps idx) in
      let once : (i : ℕ) → count i ds ≤ 1 =
        λ i. subst (λ n. n ≤ 1) (sym (count-dependents deps idx i sets)) (sets i idx) in
      let at : (i : ℕ)
          → (length (release_all ds r).dep_count ≡ length c)
            × (get_or (release_all ds r).dep_count i 0 ≡ get_or c i 0 - count i ds)
            × (count i (release_all ds r).next_queue
                ≡ count i next
                  + (if count i ds == 0 then 0 else if get_or c i 0 - 1 == 0 then 1 else 0)) =
        λ i. release_all_at ds i r bound (once i) in
      record {
        counted = (at 0).0 ∙ k.counted;
        exact = λ i lt. omega (
          arith,
          (at i).1,
          k.exact i lt,
          missing-snoc done idx (row deps i) fresh,
          count-dependents deps idx i sets,
        );
        standing = λ i lt. rw (count-append i done (idx ∷ [])) (
            standing_step (missing done (row deps i)) (missing (done ++ idx ∷ []) (row deps i))
              (count idx (row deps i)) (count i queue) (count i done) (count i next)
              (count i (release_all ds r).next_queue) (if idx == i then 1 else 0)
              (missing-snoc done idx (row deps i) fresh) (sets i idx)
              (rw (← count-dependents deps idx i sets, ← k.exact i lt) ((at i).2))
              (k.standing i lt));
        outside = λ i ge.
            let none_of_row : count i ds ≡ 0 =
              count-dependents deps idx i sets ∙ ap (count idx) (row-outside deps i ge) in
            rw (count-append i done (idx ∷ [])) (
              outside_step (count i queue) (count i done) (count i next) (count i ds) _ _
                (get_or c i 0) idx i idx_lt ge none_of_row ((at i).2) (k.outside i ge));
      }

  -- A round visits the queue, and leaves the next one.
  pub process_queue-Kahn :
      (done queue next c : List ℕ)
      → Kahn deps done queue next c
      → let r = process_queue deps queue (record { dep_count = c; next_queue = next }) in
        Kahn deps (done ++ queue) [] r.next_queue r.dep_count
  unfolding process_queue
  process_queue-Kahn done [] next c k = rw (append-nil done) k
  process_queue-Kahn done (idx ∷ queue) next c k =
      let r = release_all (dependents 0 deps idx) (record { dep_count = c; next_queue = next }) in
      rw (← append_assoc done (idx ∷ []) queue) (
        process_queue-Kahn (done ++ idx ∷ []) queue r.next_queue r.dep_count
          (process_one done queue next c idx k))

  -- The next queue is the queue of the next round.
  pub Kahn-next : (done next c : List ℕ) → Kahn deps done [] next c → Kahn deps done next [] c
  Kahn-next done next c k = record {
    counted = k.counted;
    exact = k.exact;
    standing = λ i lt. omega (arith, k.standing i lt);
    outside = λ i ge. omega (arith, k.outside i ge);
  }

get_or-lengths : (deps : List (List ℕ)) (i : ℕ) → get_or (lengths deps) i 0 ≡ length (row deps i)
get_or-lengths [] i = refl
get_or-lengths (d ∷ deps) zero = refl
get_or-lengths (d ∷ deps) (suc i) = get_or-lengths deps i

length-lengths : (deps : List (List ℕ)) → length (lengths deps) ≡ length deps
length-lengths [] = refl
length-lengths (d ∷ deps) = ap suc (length-lengths deps)

zero_counts-below : (k j : ℕ) (c : List ℕ) → j < k → count j (zero_counts k c) ≡ 0
unfolding zero_counts
zero_counts-below k j [] h = refl
zero_counts-below k j (n ∷ ns) h = ground (arith, zero_counts-below (k + 1) j ns)

zero_counts-from :
    (k j : ℕ) (c : List ℕ)
    → j < length c
    → count (k + j) (zero_counts k c) ≡ (if get_or c j 0 == 0 then 1 else 0)
unfolding zero_counts
zero_counts-from k j [] h = absurd (omega arith)
zero_counts-from k zero (n ∷ ns) h = ground (arith, zero_counts-below (k + 1) (k + 0) ns)
zero_counts-from k (suc j) (n ∷ ns) h =
    let e : k + suc j ≡ k + 1 + j = omega arith in
    rw e (ground (arith, zero_counts-from (k + 1) j ns))

zero_counts-beyond : (k j : ℕ) (c : List ℕ) → k + length c ≤ j → count j (zero_counts k c) ≡ 0
unfolding zero_counts
zero_counts-beyond k j [] h = refl
zero_counts-beyond k j (n ∷ ns) h = ground (arith, zero_counts-beyond (k + 1) j ns)

-- Before the first round.
pub start-Kahn :
    (deps : List (List ℕ)) → Kahn deps [] (zero_counts 0 (lengths deps)) [] (lengths deps)
start-Kahn deps =
    let size = length-lengths deps in
    let initial : (i : ℕ) → get_or (lengths deps) i 0 ≡ missing [] (row deps i) =
      λ i. get_or-lengths deps i ∙ sym (missing-nil (row deps i)) in
    record {
      counted = size;
      exact = λ i lt. initial i;
      standing = λ i lt.
          start_step _ _ _
            (ap (λ k. count k (zero_counts 0 (lengths deps))) (sym (zero-add i))
              ∙ zero_counts-from 0 i (lengths deps) (omega arith))
            (initial i);
      outside = λ i ge. omega (arith, zero_counts-beyond 0 i (lengths deps) (omega arith));
    }
  where
    start_step :
        (q c m : ℕ) → q ≡ (if c == 0 then 1 else 0) → c ≡ m → 0 + q + 0 ≡ (if m == 0 then 1 else 0)
    start_step q c m h e = ground arith

-- ===== src/Scheduler/Levels.antt =====
-- core/pipeline_scheduler.go: the loop over the levels, and orders in which steps may run.
use mcp_filesystem_go_ultra.Common.{
  ℕ, zero, suc, ◌+◌, ◌≤◌, ◌<◌, ◌≡◌, refl, sym, ap, ◌∙◌, List, [], ◌∷◌, ◌++◌, Option, some,
  append-nil, append_assoc, length, length-append, All, arith,
}
use mcp_filesystem_go_ultra.Common.{concat, dec_lt}
use mcp_filesystem_go_ultra.Scheduler.{process_queue, run_levels}
use mcp_filesystem_go_ultra.Scheduler.Counting.{count, count-append, row, AreSets, done_of_missing}
use mcp_filesystem_go_ultra.Scheduler.Rounds.{Kahn, process_queue-Kahn, Kahn-next}
use mcp_filesystem_go_ultra.Scheduler.Pigeonhole.{length-le}

-- Each dependency of the step is done.
abbrev pub IsReady : List (List ℕ) → List ℕ → ℕ → Type 0
IsReady deps done i = All (λ d. 0 < count d done) (row deps i)

-- The levels may run in this order: when a level begins, all that its steps need is done.
abbrev pub AreOrdered : List (List ℕ) → List ℕ → List (List ℕ) → Type 0
AreOrdered deps done [] = Unit
AreOrdered deps done (level ∷ levels) =
    All (IsReady deps done) level × AreOrdered deps (done ++ level) levels

All-of_count : {P : ℕ → Type 0} (l : List ℕ) → ((i : ℕ) → 0 < count i l → P i) → All P l
All-of_count [] h = tt
All-of_count (x ∷ l) h = (h x (ground arith), All-of_count l (λ i lt. h i (omega arith)))

queue-IsReady :
    (deps : List (List ℕ)) (done queue next c : List ℕ)
    → Kahn deps done queue next c
    → All (IsReady deps done) queue
queue-IsReady deps done queue next c k = All-of_count {P = IsReady deps done} queue λ i here.
    elim (dec_lt i (length deps)) [
      | yes lt ↦ done_of_missing done (row deps i) (let s = k.standing i lt in ground arith)
      | no ge ↦ absurd (let s = k.outside i (omega arith) in omega arith)
    ]

done_bound :
    (deps : List (List ℕ)) (done queue next c : List ℕ)
    → Kahn deps done queue next c
    → length done + length queue ≤ length deps
done_bound deps done queue next c k = omega (
  arith,
  length-append done queue,
  length-le (length deps) (done ++ queue)
      (λ i ge. omega (arith, count-append i done queue, k.outside i ge))
      (λ i lt. let s = k.standing i lt in let a = count-append i done queue in ground arith),
)

-- What the loop returns: the levels in order, the number of their steps, and the invariant with
-- nothing left in the queue.
pub record Outcome (deps : List (List ℕ)) (done : List ℕ) (result : Option (List (List ℕ) × ℕ))
    : Type 0 where
  pub levels : List (List ℕ)
  pub final : List ℕ
  pub returned : result ≡ some (levels, length (concat levels))
  pub ordered : AreOrdered deps done levels
  pub finished : Kahn deps (done ++ concat levels) [] [] final

run_step :
    (fuel : ℕ) (deps : List (List ℕ)) (q : ℕ) (queue c : List ℕ) (levels : List (List ℕ))
    (visited : ℕ)
    → let r = process_queue deps (q ∷ queue) (record { dep_count = c; next_queue = [] }) in
      run_levels fuel deps r.next_queue r.dep_count ≡ some (levels, visited)
      → run_levels (suc fuel) deps (q ∷ queue) c
        ≡ some ((q ∷ queue) ∷ levels, length (q ∷ queue) + visited)
unfolding run_levels
run_step fuel deps q queue c levels visited e = rw (e, run_levels)

module _ (deps : List (List ℕ)) (sets : AreSets deps) where
  pub run_levels-Outcome :
      (fuel : ℕ) (done queue c : List ℕ)
      → Kahn deps done queue [] c
      → length deps < fuel + length done
      → Outcome deps done (run_levels fuel deps queue c)
  unfolding run_levels
  run_levels-Outcome fuel done [] c k enough = record {
    levels = [];
    final = c;
    returned = refl;
    ordered = tt;
    finished = rw (append-nil done) k;
  }
  run_levels-Outcome zero done (q ∷ queue) c k enough =
      absurd (omega (arith, done_bound deps done (q ∷ queue) [] c k))
  run_levels-Outcome (suc fuel) done (q ∷ queue) c k enough =
      let level = q ∷ queue in
      let r = process_queue deps level (record { dep_count = c; next_queue = [] }) in
      let k' =
        Kahn-next deps sets (done ++ level) r.next_queue r.dep_count
          (process_queue-Kahn deps sets done level [] c k) in
      let later =
        run_levels-Outcome fuel (done ++ level) r.next_queue r.dep_count k'
          (omega (arith, length-append done level)) in
      record {
        levels = level ∷ later.levels;
        final = later.final;
        returned =
            run_step fuel deps q queue c later.levels (length (concat later.levels)) later.returned
            ∙ ap (λ n. some (level ∷ later.levels, n))
                (sym (length-append level (concat later.levels)));
        ordered = (queue-IsReady deps done level [] c k, later.ordered);
        finished = rw (← append_assoc done level (concat later.levels)) later.finished;
      }

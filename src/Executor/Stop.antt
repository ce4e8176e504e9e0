-- ===== src/Executor/Stop.antt =====
-- core/pipeline.go: where a sequential run stops, what it reports, and when it rolls back.
use mcp_filesystem_go_ultra.Common.{
  ℕ, suc, ◌+◌, ◌<◌, ◌≡◌, ◌≢◌, ◌↔◌, ◌⊎◌, inl, inr, refl, sym, ap, subst, ◌∙◌, Bool, true, false, not,
  ◌&&◌, List, [], ◌∷◌, ◌++◌, Option, none, some, Bytes, is_empty, length, length-append, Bool-cases,
  arith,
}
use mcp_filesystem_go_ultra.Pipeline.{PipelineStep, StepResult, PipelineContext}
use mcp_filesystem_go_ultra.Executor.{
  Options, Acted, Engine, execute_step, Progress, failed, record_step, count_step, run_steps,
  failed_at_step, rolled_back_at_step, rollback, stopped_result, stop_with, stop, final_success,
  finish, start_progress, conclude, execute_sequential,
}
use mcp_filesystem_go_ultra.Executor.Account.{
  sum_edits, count_success, all_succeed, count_success-snoc, all_succeed-snoc, count_success-all,
  execute_step-failed, Accounts, run_steps-Accounts,
}

module _ {W : Type 0} (engine : Engine W) (options : Options) where
  -- What the loop leaves where it stops at the first failure.
  abbrev Outcome : ℕ → Progress W → Option ℕ → Type 0
  Outcome total q none = (length q.results ≡ total) × (all_succeed q.results ≡ true)
  Outcome total q (some k) =
      (front : List StepResult) × (r : StepResult) × (q.results ≡ front ++ r ∷ [])
      × (all_succeed front ≡ true)
      × (r.success ≡ false)
      × (length front ≡ k)

  run_steps-Outcome :
      options.stop_on_error ≡ true
      → (i : ℕ) (steps : List PipelineStep) (p : Progress W) → length p.results ≡ i
      → all_succeed p.results ≡ true
      → Outcome
          (i + length steps)
          (run_steps engine options i steps p).0
          (run_steps engine options i steps p).1
  unfolding run_steps record_step count_step
  run_steps-Outcome stops i [] p len good = (omega arith, good)
  run_steps-Outcome stops i (step ∷ steps) p len good =
      let a : Acted W = execute_step engine step p.context options p.world in
      let fails = execute_step-failed engine options step p.context p.world in
      elim (Bool-cases (failed a && options.stop_on_error)) [
        | inl bad ↦
            rw (bad, run_steps) (p.results, a.result, refl, good, (ground (arith, fails, bad)), len)
        | inr fine ↦
            rw (fine, run_steps)
              (let counts : i + 1 + length steps ≡ i + suc (length steps) = omega arith in
                let next : Progress W × Option ℕ =
                  run_steps engine options (i + 1) steps (count_step a (record_step step a p)) in
                subst (λ n. Outcome n next.0 next.1) counts
                  (run_steps-Outcome stops (i + 1) steps (count_step a (record_step step a p))
                    (omega (arith, length-append p.results (a.result ∷ [])))
                    (ground
                      (arith, all_succeed-snoc p.results a.result, fails, fine, stops, good))))
      ]

  run_steps_whole :
      options.stop_on_error ≡ false
      → (i : ℕ) (steps : List PipelineStep) (p : Progress W)
      → ((run_steps engine options i steps p).1 ≡ none)
        × (length (run_steps engine options i steps p).0.results ≡ length p.results + length steps)
  unfolding run_steps record_step count_step
  run_steps_whole goes i [] p = (refl, omega arith)
  run_steps_whole goes i (step ∷ steps) p =
      let a : Acted W = execute_step engine step p.context options p.world in
      let on : (failed a && options.stop_on_error) ≡ false = ground (arith, goes) in
      let (ends, len) = run_steps_whole goes (i + 1) steps (count_step a (record_step step a p)) in
      rw (on, run_steps) (ends, omega (arith, len, length-append p.results (a.result ∷ [])))

  stop_with-result :
      (b : Bool) (total : ℕ) (backup_id : Bytes) (q : Progress W) (k : ℕ)
      → let e = stop_with b engine total backup_id q k in
        (e.result.results ≡ q.results)
        × (e.result.total_edits ≡ q.total_edits)
        × (e.result.completed_steps ≡ k)
        × (e.result.success ≡ false)
        × ((e.error ≡ some (failed_at_step (k + 1)))
            ⊎ (e.error ≡ some (rolled_back_at_step (k + 1))))
  unfolding stop_with stopped_result
  stop_with-result true total backup_id q k = (
    refl,
    refl,
    refl,
    refl,
    elim (Bool-cases (rollback engine backup_id q.world).1) [
      | inl restored ↦ inr (rw restored refl)
      | inr lost ↦ inl (rw lost refl)
    ],
  )
  stop_with-result false total backup_id q k = (refl, refl, refl, refl, inl refl)

  stop_with-rollback :
      (b : Bool) (total : ℕ) (backup_id : Bytes) (q : Progress W) (k : ℕ)
      → let e = stop_with b engine total backup_id q k in
        e.result.rollback_performed ≡ true
        → (b ≡ true)
          × (e.world ≡ (rollback engine backup_id q.world).0)
          × ((rollback engine backup_id q.world).1 ≡ true)
  unfolding stop_with stopped_result
  stop_with-rollback true total backup_id q k h = (refl, refl, h)
  stop_with-rollback false total backup_id q k h = absurd (ground (arith, h))

  rollback-restore :
      (backup_id : Bytes) (w : W)
      → is_empty backup_id ≡ false
      → rollback engine backup_id w ≡ engine.restore backup_id w
  unfolding rollback
  rollback-restore backup_id w full = rw full refl

  module _ (steps : List PipelineStep) (ctx : PipelineContext) (backup_id : Bytes) (w : W) where
    -- The loop's end.
    last : Progress W × Option ℕ
    last = run_steps engine options 0 steps (start_progress ctx w)

    last-Accounts : Accounts engine options last.0
    unfolding last sum_edits count_success all_succeed
    last-Accounts =
        run_steps-Accounts engine options 0 steps _
          (record { edits = refl; completed = refl; success = refl })

    last-Outcome : options.stop_on_error ≡ true → Outcome (length steps) last.0 last.1
    unfolding last all_succeed
    last-Outcome stops =
        let counts : 0 + length steps ≡ length steps = omega arith in
        subst (λ n. Outcome n last.0 last.1) counts
          (run_steps-Outcome stops 0 steps (start_progress ctx w) refl refl)

    conclude-stopped :
        options.stop_on_error ≡ true
        → (q : Progress W) (at : Option ℕ) → Accounts engine options q
        → Outcome (length steps) q at
        → let e = conclude engine options (length steps) backup_id q at in
          ((e.error ≡ none)
            × (e.result.success ≡ true)
            × (length e.result.results ≡ length steps)
            × (all_succeed e.result.results ≡ true))
          ⊎ ((front : List StepResult) × (r : StepResult) × (e.result.results ≡ front ++ r ∷ [])
              × (all_succeed front ≡ true)
              × (r.success ≡ false)
              × (e.result.success ≡ false)
              × (e.result.completed_steps ≡ length front)
              × ((e.error ≡ some (failed_at_step (length front + 1)))
                  ⊎ (e.error ≡ some (rolled_back_at_step (length front + 1)))))
    unfolding conclude finish final_success stop
    conclude-stopped stops q none acc (len, good) =
        inl (refl, (ground (arith, stops, acc.success, good)), len, good)
    conclude-stopped stops q (some k) acc (front, r, parts, good, bad, len) =
        let (same, _, at_k, fails, error) =
          stop_with-result (not (is_empty backup_id) && not options.dry_run) (length steps)
            backup_id q k in
        inr (front, r, same ∙ parts, good, bad, fails, at_k ∙ sym len, rw len error)

    -- With `StopOnError` the run either executes every step, all succeed, and it reports success;
    -- or it ends at the first step that fails: the results are those of the steps before, which
    -- all succeeded and are the completed steps, and the failed one, and the error names it.
    pub stop_at_first_failure :
        options.stop_on_error ≡ true
        → let e = execute_sequential engine options steps ctx backup_id w in
          ((e.error ≡ none)
            × (e.result.success ≡ true)
            × (length e.result.results ≡ length steps)
            × (all_succeed e.result.results ≡ true))
          ⊎ ((front : List StepResult) × (r : StepResult) × (e.result.results ≡ front ++ r ∷ [])
              × (all_succeed front ≡ true)
              × (r.success ≡ false)
              × (e.result.success ≡ false)
              × (e.result.completed_steps ≡ length front)
              × ((e.error ≡ some (failed_at_step (length front + 1)))
                  ⊎ (e.error ≡ some (rolled_back_at_step (length front + 1)))))
    unfolding execute_sequential last all_succeed
    stop_at_first_failure stops =
        conclude-stopped stops last.0 last.1 last-Accounts (last-Outcome stops)

    -- Without `StopOnError` every step is executed and there is no error; the run reports success
    -- exactly when all steps succeeded or at least one did.
    pub run_to_the_end :
        options.stop_on_error ≡ false
        → let e = execute_sequential engine options steps ctx backup_id w in
          (e.error ≡ none)
          × (length e.result.results ≡ length steps)
          × ((e.result.success ≡ true)
              ↔ ((all_succeed e.result.results ≡ true) ⊎ (0 < count_success e.result.results)))
    unfolding execute_sequential conclude finish final_success last
    run_to_the_end goes =
        let (ends, len) = run_steps_whole goes 0 steps (start_progress ctx w) in
        let acc : Accounts engine options last.0 = last-Accounts in
        rw ends (refl, omega (arith, len), ground (arith, goes, acc.completed, acc.success))

    conclude-rollback :
        (q : Progress W) (at : Option ℕ)
        → let e = conclude engine options (length steps) backup_id q at in
          e.result.rollback_performed ≡ true
          → ((k : ℕ) × (at ≡ some k))
            × (backup_id ≢ [])
            × (options.dry_run ≡ false)
            × (e.world ≡ (engine.restore backup_id q.world).0)
            × ((engine.restore backup_id q.world).1 ≡ true)
    unfolding conclude finish stop
    conclude-rollback q none h = absurd (ground (arith, h))
    conclude-rollback q (some k) h =
        let (on, world, restored) =
          stop_with-rollback (not (is_empty backup_id) && not options.dry_run) (length steps)
            backup_id q k h in
        let full : is_empty backup_id ≡ false = ground (arith, on) in
        let same : rollback engine backup_id q.world ≡ engine.restore backup_id q.world =
          rollback-restore backup_id q.world full in
        (
          (k, refl),
          (λ e. ground (arith, full, e)),
          (ground (arith, on)),
          world ∙ ap (λ x. x.0) same,
          ap (λ x. x.1) (sym same) ∙ restored,
        )

    -- A rollback is reported only where the run was to stop on an error, was no dry run and had a
    -- backup; the state is then what restoring that backup has left, and restoring it succeeded.
    pub rollback_reported :
        let e = execute_sequential engine options steps ctx backup_id w in
        e.result.rollback_performed ≡ true
        → (options.stop_on_error ≡ true)
          × (options.dry_run ≡ false)
          × (backup_id ≢ [])
          × ((before : W) × (engine.restore backup_id before ≡ (e.world, true)))
    unfolding execute_sequential last
    rollback_reported h =
        let ((k, at), full, wet, world, restored) = conclude-rollback last.0 last.1 h in
        let final : W = (execute_sequential engine options steps ctx backup_id w).world in
        (
          elim (Bool-cases options.stop_on_error) [
            | inl stops ↦ stops
            | inr goes ↦ absurd (cc (at, (run_steps_whole goes 0 steps (start_progress ctx w)).0))
          ],
          wet,
          full,
          (
            last.0.world,
            ap (λ x. (x, (engine.restore backup_id last.0.world).1)) (sym world)
                ∙ ap (λ x. (final, x)) restored,
          ),
        )

    conclude-Accounts :
        (q : Progress W) (at : Option ℕ)
        → Accounts engine options q
        → ((k : ℕ) → at ≡ some k → count_success q.results ≡ k)
        → let r = (conclude engine options (length steps) backup_id q at).result in
          (r.total_edits ≡ sum_edits r.results) × (r.completed_steps ≡ count_success r.results)
    unfolding conclude finish stop
    conclude-Accounts q none acc here = (acc.edits, acc.completed)
    conclude-Accounts q (some k) acc here =
        let (same, edits, at_k, _, _) =
          stop_with-result (not (is_empty backup_id) && not options.dry_run) (length steps)
            backup_id q k in
        (
          edits ∙ acc.edits ∙ ap sum_edits (sym same),
          at_k ∙ sym (here k refl) ∙ ap count_success (sym same),
        )

    Outcome-count :
        (total : ℕ) (q : Progress W) (k : ℕ)
        → Outcome total q (some k)
        → count_success q.results ≡ k
    Outcome-count total q k (front, r, parts, good, bad, len) =
        rw parts
          (ground (arith, count_success-snoc front r, count_success-all front good, bad, len))

    -- However the run ends, the total of edits is the sum over the results, and the number of
    -- completed steps is the number of results that are a success.
    pub execution_accounts :
        let r = (execute_sequential engine options steps ctx backup_id w).result in
        (r.total_edits ≡ sum_edits r.results) × (r.completed_steps ≡ count_success r.results)
    unfolding execute_sequential last all_succeed
    execution_accounts = conclude-Accounts last.0 last.1 last-Accounts (λ k at.
        elim (Bool-cases options.stop_on_error) [
          | inl stops ↦
              Outcome-count (length steps) last.0 k
                (subst (λ o. Outcome (length steps) last.0 o) at (last-Outcome stops))
          | inr goes ↦ absurd (cc (at, (run_steps_whole goes 0 steps (start_progress ctx w)).0))
        ])

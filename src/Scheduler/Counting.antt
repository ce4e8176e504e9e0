-- ===== src/Scheduler/Counting.antt =====
-- core/pipeline_scheduler.go: counting, for the proofs about Kahn's algorithm. A set of steps is
-- a list, and a step's standing in it is the number of times that it occurs.
use mcp_filesystem_go_ultra.Common.{
  ℕ, zero, suc, ◌+◌, ◌-◌, ◌≤◌, ◌<◌, ◌≡◌, refl, sym, ap, ◌∙◌, List, [], ◌∷◌, ◌++◌, length, get_or,
  set, All, ◌==◌, if◌then◌else◌, arith,
}
use native.Mathlib.Nat.{zero-add}
use mcp_filesystem_go_ultra.Common.{length-set, ℕ_discrete}
use mcp_filesystem_go_ultra.Scheduler.{mem_nat, dependents, Round, release}

abbrev pub count : ℕ → List ℕ → ℕ
count a [] = 0
count a (x ∷ xs) = (if x == a then 1 else 0) + count a xs

pub count-append :
    (i : ℕ) (done level : List ℕ) → count i (done ++ level) ≡ count i done + count i level
count-append i [] level = omega arith
count-append i (idx ∷ done) level = omega (arith, count-append i done level)

-- The dependencies of a step.
abbrev pub row : List (List ℕ) → ℕ → List ℕ
row deps i = get_or deps i []

-- The dependencies that are not done.
abbrev pub missing : List ℕ → List ℕ → ℕ
missing done [] = 0
missing done (d ∷ ds) = (if count d done == 0 then 1 else 0) + missing done ds

-- A step that gets done is no longer missing.
pub missing-snoc :
    (done : List ℕ) (idx : ℕ) (ds : List ℕ)
    → count idx done ≡ 0
    → missing done ds ≡ missing (done ++ idx ∷ []) ds + count idx ds
missing-snoc done idx [] h = omega arith
missing-snoc done idx (d ∷ ds) h =
    let later = missing-snoc done idx ds h in
    let moved = count-append d done (idx ∷ []) in
    elim (ℕ_discrete d idx) [
      | yes e ↦ rw e (ground (arith, missing-snoc done idx ds h, count-append idx done (idx ∷ [])))
      | no n ↦ ground (arith, missing-snoc done idx ds h, count-append d done (idx ∷ []))
    ]

pub missing-nil : (ds : List ℕ) → missing [] ds ≡ length ds
missing-nil [] = refl
missing-nil (d ∷ ds) = omega (arith, missing-nil ds)

-- Nothing is missing: each dependency is done.
pub done_of_missing : (done ds : List ℕ) → missing done ds ≡ 0 → All (λ d. 0 < count d done) ds
done_of_missing done [] h = tt
done_of_missing done (d ∷ ds) h = (ground arith, done_of_missing done ds (ground arith))

pub missing_of_done : (done ds : List ℕ) → All (λ d. 0 < count d done) ds → missing done ds ≡ 0
missing_of_done done [] h = refl
missing_of_done done (d ∷ ds) h = ground (arith, missing_of_done done ds h.1)

-- Rows without repetition.
abbrev pub AreSets : List (List ℕ) → Type 0
AreSets deps = (i a : ℕ) → count a (row deps i) ≤ 1

count-mem : (a : ℕ) (ds : List ℕ) → count a ds ≤ 1 → count a ds ≡ (if mem_nat a ds then 1 else 0)
count-mem a [] h = refl
count-mem a (d ∷ ds) h = ground (arith, count-mem a ds)

dependents-below :
    (i j : ℕ) (deps : List (List ℕ)) (idx : ℕ) → j < i → count j (dependents i deps idx) ≡ 0
unfolding dependents
dependents-below i j [] idx h = refl
dependents-below i j (d ∷ ds) idx h = ground (arith, dependents-below (i + 1) j ds idx)

dependents-from :
    (i j : ℕ) (deps : List (List ℕ)) (idx : ℕ)
    → count (i + j) (dependents i deps idx) ≡ (if mem_nat idx (row deps j) then 1 else 0)
unfolding dependents
dependents-from i j [] idx = refl
dependents-from i zero (d ∷ ds) idx = ground (arith, dependents-below (i + 1) (i + 0) ds idx)
dependents-from i (suc j) (d ∷ ds) idx =
    let e : i + suc j ≡ i + 1 + j = omega arith in
    rw e (ground (arith, dependents-from (i + 1) j ds idx))

-- A step occurs among the dependents of `idx` as often as `idx` among its dependencies.
pub count-dependents :
    (deps : List (List ℕ)) (idx i : ℕ)
    → AreSets deps
    → count i (dependents 0 deps idx) ≡ count idx (row deps i)
count-dependents deps idx i sets =
    ap (λ k. count k (dependents 0 deps idx)) (sym (zero-add i))
    ∙ dependents-from 0 i deps idx
    ∙ sym (count-mem idx (row deps i) (sets i idx))

get_or-set :
    (c : List ℕ) (j i v : ℕ)
    → j < length c
    → get_or (set c j v) i 0 ≡ (if j == i then v else get_or c i 0)
get_or-set [] j i v h = absurd (omega arith)
get_or-set (x ∷ c) zero zero v h = refl
get_or-set (x ∷ c) zero (suc i) v h = ground arith
get_or-set (x ∷ c) (suc j) zero v h = ground arith
get_or-set (x ∷ c) (suc j) (suc i) v h = ground (arith, get_or-set c j i v)

-- One dependent is released.
pub release_at :
    (dep i : ℕ) (r : Round)
    → dep < length r.dep_count
    → (length (release dep r).dep_count ≡ length r.dep_count)
      × (get_or (release dep r).dep_count i 0
          ≡ get_or r.dep_count i 0 - (if dep == i then 1 else 0))
      × (count i (release dep r).next_queue
          ≡ count i r.next_queue
            + (if dep == i then if get_or r.dep_count i 0 - 1 == 0 then 1 else 0 else 0))
unfolding release
release_at dep i r h =
    let left = get_or r.dep_count dep 0 - 1 in
    (
      length-set r.dep_count dep left,
      get_or-set r.dep_count dep i left h
          ∙ elim (ℕ_discrete dep i) [ yes e ↦ rw e (ground arith) | no n ↦ ground arith ],
      elim (ℕ_discrete dep i) [
        | yes e ↦ rw e (ground (arith, count-append i r.next_queue (i ∷ [])))
        | no n ↦ ground (arith, count-append i r.next_queue (dep ∷ []))
      ],
    )

pub row-outside : (deps : List (List ℕ)) (i : ℕ) → length deps ≤ i → row deps i ≡ []
row-outside [] i h = refl
row-outside (d ∷ deps) zero h = absurd (omega arith)
row-outside (d ∷ deps) (suc i) h = row-outside deps i (omega arith)

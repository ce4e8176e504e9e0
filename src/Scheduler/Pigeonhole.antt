-- ===== src/Scheduler/Pigeonhole.antt =====
-- core/pipeline_scheduler.go: how many steps a list without repetition can hold.
use mcp_filesystem_go_ultra.Common.{
  ℕ, zero, suc, ◌+◌, ◌≤◌, ◌<◌, ◌≡◌, refl, sym, ◌∙◌, List, [], ◌∷◌, length, ltb, if◌then◌else◌,
  arith,
}
use mcp_filesystem_go_ultra.Common.{ℕ_discrete}
use mcp_filesystem_go_ultra.Scheduler.Counting.{count}

-- The occurrences in a list of the numbers below `n`.
total : ℕ → List ℕ → ℕ
total zero l = 0
total (suc n) l = count n l + total n l

total-cons : (n x : ℕ) (l : List ℕ) → total n (x ∷ l) ≡ (if ltb x n then 1 else 0) + total n l
unfolding total
total-cons zero x l = ground arith
total-cons (suc n) x l = ground (arith, total-cons n x l)

total-nil : (n : ℕ) → total n [] ≡ 0
unfolding total
total-nil zero = refl
total-nil (suc n) = omega (arith, total-nil n)

total-length : (n : ℕ) (l : List ℕ) → ((i : ℕ) → n ≤ i → count i l ≡ 0) → total n l ≡ length l
total-length n [] h = total-nil n
total-length n (x ∷ l) h =
    let tail : (i : ℕ) → n ≤ i → count i l ≡ 0 = λ i ge. omega (arith, h i ge) in
    ground (arith, total-cons n x l, total-length n l tail, h x)

total-le : (n : ℕ) (l : List ℕ) → ((i : ℕ) → i < n → count i l ≤ 1) → total n l ≤ n
unfolding total
total-le zero l h = omega arith
total-le (suc n) l h = omega (arith, h n (omega arith), total-le n l (λ i lt. h i (omega arith)))

total-full :
    (n : ℕ) (l : List ℕ)
    → ((i : ℕ) → i < n → count i l ≤ 1)
    → total n l ≡ n
    → (i : ℕ) → i < n
    → count i l ≡ 1
unfolding total
total-full zero l h e i lt = absurd (omega arith)
total-full (suc n) l h e i lt =
    let last = h n (omega arith) in
    let rest : (i : ℕ) → i < n → count i l ≤ 1 = λ k k_lt. h k (omega arith) in
    let rest_le = total-le n l rest in
    elim (ℕ_discrete i n) [
      | yes same ↦ rw same (omega arith)
      | no other ↦ total-full n l rest (omega arith) i (omega arith)
    ]

total_each : (n : ℕ) (l : List ℕ) → ((i : ℕ) → i < n → count i l ≡ 1) → total n l ≡ n
unfolding total
total_each zero l h = refl
total_each (suc n) l h =
    omega (arith, h n (omega arith), total_each n l (λ i lt. h i (omega arith)))

-- A list of numbers below `n` without repetition has `n` entries at most, and has `n` exactly
-- when each number stands in it.
module _ (n : ℕ) (l : List ℕ) (inside : (i : ℕ) → n ≤ i → count i l ≡ 0) where
  pub length-le : ((i : ℕ) → i < n → count i l ≤ 1) → length l ≤ n
  length-le once = omega (arith, total-length n l inside, total-le n l once)

  pub each_of_length :
      ((i : ℕ) → i < n → count i l ≤ 1) → length l ≡ n → (i : ℕ) → i < n → count i l ≡ 1
  each_of_length once e = total-full n l once (total-length n l inside ∙ e)

  pub length_of_each : ((i : ℕ) → i < n → count i l ≡ 1) → length l ≡ n
  length_of_each each = sym (total-length n l inside) ∙ total_each n l each

-- ===== src/Scheduler/Split.antt =====
-- core/pipeline_scheduler.go: what `splitDestructiveLevels` keeps and what it separates.
use mathlib.Core.List.{Perm, perm_middle}
use mathlib.Core.List.Perm
use mcp_filesystem_go_ultra.Common.{
  ℕ, ◌≤◌, ◌≡◌, ◌⊎◌, inl, inr, refl, ap, Bool, true, false, not, List, [], ◌∷◌, ◌++◌, append-nil,
  is_empty, length, All, leb, if◌then◌else◌, Bool-cases, arith,
}
use mcp_filesystem_go_ultra.Common.{concat, concat-append, All-append}
use mcp_filesystem_go_ultra.Scheduler.{select, singletons, split_level, split_destructive_levels}

concat-singletons : (level : List ℕ) → concat (singletons level) ≡ level
concat-singletons [] = refl
concat-singletons (idx ∷ level) = ap (λ t. idx ∷ t) (concat-singletons level)

-- Steps that pass a test behind those that do not are all the steps.
select-perm :
    (test : ℕ → Bool) (level : List ℕ)
    → Perm (select (λ idx. not (test idx)) level ++ select test level) level
unfolding select
select-perm test [] = Perm.refl []
select-perm test (idx ∷ level) = elim (Bool-cases (test idx)) [
  | inl t ↦
      rw (t, select)
        (Perm.trans (perm_middle (select (λ i. not (test i)) level) (select test level))
          (Perm.cons idx (select-perm test level)))
  | inr t ↦ rw (t, select) (Perm.cons idx (select-perm test level))
]

parts_perm :
    (destructive read_only level : List ℕ)
    → Perm (read_only ++ destructive) level
    → Perm
        (concat (
          if is_empty destructive
          then level ∷ []
          else if is_empty read_only
          then singletons destructive
          else read_only ∷ singletons destructive))
        level
parts_perm [] r level p = rw append-nil (Perm.refl level)
parts_perm (d ∷ ds) [] level p = rw (concat-singletons ds) p
parts_perm (d ∷ ds) (r ∷ rs) level p = rw (concat-singletons ds) p

split_level-perm : (test : ℕ → Bool) (level : List ℕ) → Perm (concat (split_level test level)) level
unfolding split_level
split_level-perm test level = small_perm (leb (length level) 1) _ level (
    parts_perm (select test level) (select (λ idx. not (test idx)) level) level
      (select-perm test level))
  where
    small_perm :
        (b : Bool) (levels : List (List ℕ)) (level : List ℕ)
        → Perm (concat levels) level
        → Perm (concat (if b then level ∷ [] else levels)) level
    small_perm true levels level p = rw append-nil (Perm.refl level)
    small_perm false levels level p = p

-- The split levels hold the same steps as the levels, each as often.
pub split-perm :
    (test : ℕ → Bool) (levels : List (List ℕ))
    → Perm (concat (split_destructive_levels test levels)) (concat levels)
unfolding split_destructive_levels
split-perm test [] = Perm.refl []
split-perm test (level ∷ levels) =
    rw concat-append (Perm.append (split_level-perm test level) (split-perm test levels))

-- A level may run in parallel: it has one step at most, or none of its steps passes the test.
abbrev pub IsSafeLevel : (ℕ → Bool) → List ℕ → Type 0
IsSafeLevel test level = (length level ≤ 1) ⊎ All (λ idx. test idx ≡ false) level

singletons-safe : (test : ℕ → Bool) (level : List ℕ) → All (IsSafeLevel test) (singletons level)
singletons-safe test [] = tt
singletons-safe test (idx ∷ level) = (inl (omega arith), singletons-safe test level)

select-not-safe :
    (test : ℕ → Bool) (level : List ℕ)
    → All (λ idx. test idx ≡ false) (select (λ idx. not (test idx)) level)
unfolding select
select-not-safe test [] = tt
select-not-safe test (idx ∷ level) = elim (Bool-cases (test idx)) [
  | inl t ↦ rw (t, select) (select-not-safe test level)
  | inr t ↦ rw (t, select) (t, select-not-safe test level)
]

none_selected :
    (test : ℕ → Bool) (level : List ℕ)
    → select test level ≡ []
    → All (λ idx. test idx ≡ false) level
unfolding select
none_selected test [] e = tt
none_selected test (idx ∷ level) e = elim (Bool-cases (test idx)) [
  | inl t ↦ cc (rw (t, select) at e)
  | inr t ↦ (t, none_selected test level (rw (t, select) at e))
]

split_level-safe :
    (test : ℕ → Bool) (level : List ℕ) → All (IsSafeLevel test) (split_level test level)
unfolding split_level
split_level-safe test level =
    by_parts (leb (length level) 1) (select test level) (select (λ idx. not (test idx)) level) level
      (λ e. ground arith) (none_selected test level) (select-not-safe test level)
  where
    by_parts :
        (b : Bool) (ds rs level : List ℕ)
        → (b ≡ true → length level ≤ 1)
        → (ds ≡ [] → All (λ idx. test idx ≡ false) level)
        → All (λ idx. test idx ≡ false) rs
        → All (IsSafeLevel test) (
            if b
            then level ∷ []
            else if is_empty ds
            then level ∷ []
            else if is_empty rs
            then singletons ds
            else rs ∷ singletons ds)
    by_parts true ds rs level small none_left safe = (inl (small refl), tt)
    by_parts false [] rs level small none_left safe = (inr (none_left refl), tt)
    by_parts false (d ∷ ds) [] level small none_left safe = singletons-safe test (d ∷ ds)
    by_parts false (d ∷ ds) (r ∷ rs) level small none_left safe =
        (inr safe, singletons-safe test (d ∷ ds))

-- After the split no level runs a destructive step beside another step.
pub split-safe :
    (test : ℕ → Bool) (levels : List (List ℕ))
    → All (IsSafeLevel test) (split_destructive_levels test levels)
unfolding split_destructive_levels
split-safe test [] = tt
split-safe test (level ∷ levels) =
    All-append (IsSafeLevel test) (split_level test level) (split_destructive_levels test levels)
      (split_level-safe test level) (split-safe test levels)

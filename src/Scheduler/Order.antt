-- ===== src/Scheduler/Order.antt =====
-- core/pipeline_scheduler.go: the order of the steps and the split of the levels.
use mcp_filesystem_go_ultra.Common.{
  ℕ, ◌+◌, ◌≤◌, ◌<◌, ◌≡◌, refl, ap, ◌∙◌, Bool, true, false, not, List, [], ◌∷◌, ◌++◌, append-nil,
  append_assoc, is_empty, length, All, leb, if◌then◌else◌, arith,
}
use mcp_filesystem_go_ultra.Common.{concat, concat-append}
use mcp_filesystem_go_ultra.Scheduler.{select, singletons, split_level, split_destructive_levels}
use mcp_filesystem_go_ultra.Scheduler.Counting.{count, count-append, row}
use mcp_filesystem_go_ultra.Scheduler.Levels.{IsReady, AreOrdered}

-- More steps done leave an order as it is.
IsReady-mono :
    (deps : List (List ℕ)) (done done' : List ℕ)
    → ((d : ℕ) → count d done ≤ count d done')
    → (l : List ℕ) → All (IsReady deps done) l
    → All (IsReady deps done') l
IsReady-mono deps done done' more [] h = tt
IsReady-mono deps done done' more (i ∷ l) h =
    (each (row deps i) h.0, IsReady-mono deps done done' more l h.1)
  where
    each : (ds : List ℕ) → All (λ d. 0 < count d done) ds → All (λ d. 0 < count d done') ds
    each [] h = tt
    each (d ∷ ds) h = (omega (arith, h.0, more d), each ds h.1)

pub AreOrdered-mono :
    (deps : List (List ℕ)) (done done' : List ℕ)
    → ((d : ℕ) → count d done ≤ count d done')
    → (levels : List (List ℕ)) → AreOrdered deps done levels
    → AreOrdered deps done' levels
AreOrdered-mono deps done done' more [] h = tt
AreOrdered-mono deps done done' more (l ∷ levels) h = (
  IsReady-mono deps done done' more l h.0,
  AreOrdered-mono deps (done ++ l) (done' ++ l)
      (λ d. omega (arith, count-append d done l, count-append d done' l, more d)) levels h.1,
)

-- Levels that are all ready may run one after another before the rest.
AreOrdered-parts :
    (deps : List (List ℕ)) (done : List ℕ) (parts levels : List (List ℕ))
    → All (All (IsReady deps done)) parts
    → AreOrdered deps (done ++ concat parts) levels
    → AreOrdered deps done (parts ++ levels)
AreOrdered-parts deps done [] levels ready h = rw append-nil at h
AreOrdered-parts deps done (p ∷ parts) levels ready h =
    let more : (d : ℕ) → count d done ≤ count d (done ++ p) =
      λ d. omega (arith, count-append d done p) in
    (
      ready.0,
      AreOrdered-parts deps (done ++ p) parts levels (all_mono more parts ready.1)
          (rw (← append_assoc done p (concat parts)) at h),
    )
  where
    all_mono :
        ((d : ℕ) → count d done ≤ count d (done ++ p))
        → (parts : List (List ℕ)) → All (All (IsReady deps done)) parts
        → All (All (IsReady deps (done ++ p))) parts
    all_mono more [] h = tt
    all_mono more (q ∷ qs) h = (IsReady-mono deps done (done ++ p) more q h.0, all_mono more qs h.1)

-- The split of a level keeps its steps.
count-singletons : (a : ℕ) (l : List ℕ) → count a (concat (singletons l)) ≡ count a l
count-singletons a [] = refl
count-singletons a (x ∷ l) = omega (arith, count-singletons a l)

count-select :
    (test : ℕ → Bool) (a : ℕ) (l : List ℕ)
    → count a (select (λ i. not (test i)) l) + count a (select test l) ≡ count a l
unfolding select
count-select test a [] = refl
count-select test a (x ∷ l) = ground (arith, count-select test a l)

count_parts :
    (a : ℕ) (b : Bool) (ds rs l : List ℕ)
    → count a rs + count a ds ≡ count a l
    → count a (
        concat (
          if b
          then l ∷ []
          else if is_empty ds
          then l ∷ []
          else if is_empty rs
          then singletons ds
          else rs ∷ singletons ds))
      ≡ count a l
count_parts a true ds rs l h = ap (count a) (append-nil l)
count_parts a false [] rs l h = ap (count a) (append-nil l)
count_parts a false (d ∷ ds) [] l h = omega (arith, count-singletons a ds)
count_parts a false (d ∷ ds) (r ∷ rs) l h =
    count-append a (r ∷ rs) (concat (singletons (d ∷ ds))) ∙ omega (arith, count-singletons a ds)

count-split_level :
    (test : ℕ → Bool) (a : ℕ) (l : List ℕ) → count a (concat (split_level test l)) ≡ count a l
unfolding split_level
count-split_level test a l = count_parts a (leb (length l) 1) _ _ l (count-select test a l)

All-select : (P : ℕ → Type 0) (test : ℕ → Bool) (l : List ℕ) → All P l → All P (select test l)
unfolding select
All-select P test [] h = tt
All-select P test (x ∷ l) h = by_test (test x) (All-select P test l h.1)
  where
    by_test :
        (b : Bool) → All P (select test l) → All P (if b then x ∷ select test l else select test l)
    by_test true k = (h.0, k)
    by_test false k = k

All-singletons : (P : ℕ → Type 0) (l : List ℕ) → All P l → All (All P) (singletons l)
All-singletons P [] h = tt
All-singletons P (x ∷ l) h = ((h.0, tt), All-singletons P l h.1)

All-split_level :
    (P : ℕ → Type 0) (test : ℕ → Bool) (l : List ℕ) → All P l → All (All P) (split_level test l)
unfolding split_level
All-split_level P test l h =
    by_parts (leb (length l) 1) (select test l) (select (λ i. not (test i)) l)
      (All-select P test l h) (All-select P (λ i. not (test i)) l h)
  where
    by_parts :
        (b : Bool) (ds rs : List ℕ)
        → All P ds
        → All P rs
        → All (All P) (
            if b
            then l ∷ []
            else if is_empty ds
            then l ∷ []
            else if is_empty rs
            then singletons ds
            else rs ∷ singletons ds)
    by_parts true ds rs hd hr = (h, tt)
    by_parts false [] rs hd hr = (h, tt)
    by_parts false (d ∷ ds) [] hd hr = All-singletons P (d ∷ ds) hd
    by_parts false (d ∷ ds) (r ∷ rs) hd hr = (hr, All-singletons P (d ∷ ds) hd)

pub split-AreOrdered :
    (deps : List (List ℕ)) (test : ℕ → Bool) (done : List ℕ) (levels : List (List ℕ))
    → AreOrdered deps done levels
    → AreOrdered deps done (split_destructive_levels test levels)
unfolding split_destructive_levels
split-AreOrdered deps test done [] h = tt
split-AreOrdered deps test done (l ∷ levels) h =
    let parts = split_level test l in
    let later = split-AreOrdered deps test (done ++ l) levels h.1 in
    AreOrdered-parts deps done parts (split_destructive_levels test levels)
      (All-split_level (IsReady deps done) test l h.0)
      (AreOrdered-mono deps (done ++ l) (done ++ concat parts)
        (λ d. omega (
          arith,
          count-append d done l,
          count-append d done (concat parts),
          count-split_level test d l,
        ))
        (split_destructive_levels test levels) later)

pub count-split :
    (test : ℕ → Bool) (a : ℕ) (levels : List (List ℕ))
    → count a (concat (split_destructive_levels test levels)) ≡ count a (concat levels)
unfolding split_destructive_levels
count-split test a [] = refl
count-split test a (l ∷ levels) =
    rw (concat-append (split_level test l) (split_destructive_levels test levels)) (
      omega (
        arith,
        count-append a (concat (split_level test l))
            (concat (split_destructive_levels test levels)),
        count-append a l (concat levels),
        count-split_level test a l,
        count-split test a levels,
      ))

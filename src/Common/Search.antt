-- ===== src/Common/Search.antt =====
-- Go's `strings.Index`, `Contains`, `Count`, `ReplaceAll`, `Split`, `Join` and the trimming of
-- blanks, on lists of bytes. `Count` and `ReplaceAll` are given a text that is not empty: they walk
-- the bytes, and `skip` is the number of bytes left of an occurrence that was taken.
use Prim.Native.Nat.{ℕ, zero, suc, ◌+◌, ◌-◌, ◌≤◌}
use mathlib.Core.Path.{◌≡◌, refl, ap, subst, ◌∙◌}
use mathlib.Core.Logic.{inl, inr}
use mathlib.Core.Bool.{Bool, true, false, ◌&&◌, ◌||◌}
use mathlib.Core.Option.{Option, none, some}
use mathlib.Core.List.{[], ◌∷◌, ◌++◌}
use native.Mathlib.Omega.{arith}
use mcp_filesystem_go_ultra.Common.Tests.{◌==◌, if◌then◌else◌, Bool-cases, Option-cases}
use mcp_filesystem_go_ultra.Common.Lists.{length, take, drop}
use mcp_filesystem_go_ultra.Common.Text.{Bytes, is_empty}

-- `strings.HasPrefix(s, p)`
abbrev pub has_prefix : Bytes → Bytes → Bool
has_prefix [] s = true
has_prefix (c ∷ p) [] = false
has_prefix (c ∷ p) (d ∷ s) = c == d && has_prefix p s

-- `strings.Index(s, p)`, with `none` for -1.
unfoldable pub index_of : Bytes → Bytes → Option ℕ
index_of [] p = if is_empty p then some 0 else none
index_of (c ∷ s) p =
    let later = index_of s p in
    if has_prefix p (c ∷ s) then some 0 else elim later [ none ↦ none | some i ↦ some (i + 1) ]

-- `strings.Contains(s, p)`
unfoldable pub contains : Bytes → Bytes → Bool
contains [] p = is_empty p
contains (c ∷ s) p = has_prefix p (c ∷ s) || contains s p

unfoldable pub count_from : Bytes → ℕ → Bytes → ℕ
count_from p skip [] = 0
count_from p (suc skip) (c ∷ s) = count_from p skip s
count_from p zero (c ∷ s) = elim (has_prefix p (c ∷ s)) [
  | true ↦ suc (count_from p (length p - 1) s)
  | false ↦ count_from p 0 s
]

-- `strings.Count(s, p)`
abbrev pub count_text : Bytes → Bytes → ℕ
count_text s p = count_from p 0 s

unfoldable pub replace_from : Bytes → Bytes → ℕ → Bytes → Bytes
replace_from old new skip [] = []
replace_from old new (suc skip) (c ∷ s) = replace_from old new skip s
replace_from old new zero (c ∷ s) = elim (has_prefix old (c ∷ s)) [
  | true ↦ new ++ replace_from old new (length old - 1) s
  | false ↦ c ∷ replace_from old new 0 s
]

-- `strings.ReplaceAll(s, old, new)`
abbrev pub replace_all : Bytes → Bytes → Bytes → Bytes
replace_all s old new = replace_from old new 0 s

pub count_from-drop :
    (p : Bytes) (skip : ℕ) (s : Bytes) → count_from p skip s ≡ count_text (drop skip s) p
unfolding count_from
count_from-drop p zero s = refl
count_from-drop p (suc skip) [] = refl
count_from-drop p (suc skip) (c ∷ s) = count_from-drop p skip s

pub replace_from-drop :
    (old new : Bytes) (skip : ℕ) (s : Bytes)
    → replace_from old new skip s ≡ replace_all (drop skip s) old new
unfolding replace_from
replace_from-drop old new zero s = refl
replace_from-drop old new (suc skip) [] = refl
replace_from-drop old new (suc skip) (c ∷ s) = replace_from-drop old new skip s

pub count-step :
    (c : ℕ) (s old : Bytes)
    → count_text (c ∷ s) old ≡ (
        if has_prefix old (c ∷ s)
        then suc (count_text (drop (length old - 1) s) old)
        else count_text s old)
unfolding count_from
count-step c s old = elim (Bool-cases (has_prefix old (c ∷ s))) [
  | inl e ↦ rw (e, count_from) (ap suc (count_from-drop old (length old - 1) s))
  | inr e ↦ rw (e, count_from) refl
]

pub replace-step :
    (c : ℕ) (s old new : Bytes)
    → replace_all (c ∷ s) old new ≡ (
        if has_prefix old (c ∷ s)
        then new ++ replace_all (drop (length old - 1) s) old new
        else c ∷ replace_all s old new)
unfolding replace_from
replace-step c s old new = elim (Bool-cases (has_prefix old (c ∷ s))) [
  | inl e ↦ rw (e, replace_from) (ap (λ t. new ++ t) (replace_from-drop old new (length old - 1) s))
  | inr e ↦ rw (e, replace_from) refl
]

index-step :
    (c : ℕ) (s p : Bytes)
    → has_prefix p (c ∷ s) ≡ false
    → index_of (c ∷ s) p ≡ elim (index_of s p) [ none ↦ none | some i ↦ some (i + 1) ]
unfolding index_of
index-step c s p e = rw e refl

pub length-has_prefix : (p s : Bytes) → has_prefix p s ≡ true → length p ≤ length s
length-has_prefix [] s h = omega arith
length-has_prefix (c ∷ p) [] h = absurd (cc h)
length-has_prefix (c ∷ p) (d ∷ s) h = ground (arith, length-has_prefix p s)

-- A text that is not found is not replaced, and is counted 0 times.
pub replace-absent :
    (s old new : Bytes)
    → index_of s old ≡ none
    → (replace_all s old new ≡ s) × (count_text s old ≡ 0)
unfolding index_of replace_from count_from
replace-absent [] old new h = (refl, refl)
replace-absent (c ∷ s) old new h = elim (Bool-cases (has_prefix old (c ∷ s))) [
  | inl e ↦ absurd (cc (rw e at h))
  | inr e ↦
      let later : index_of s old ≡ none = ground (arith, e, h) in
      let (same, zero_times) = replace-absent s old new later in
      (
        ground (arith, replace-step c s old new, same, e),
        ground (arith, count-step c s old, zero_times, e),
      )
]

-- At an occurrence the text is cut: what stands before it, the new text, and the rest.
abbrev pub Cut : Bytes → Bytes → Bytes → ℕ → Type 0
Cut s old new i =
    (replace_all s old new ≡ take i s ++ (new ++ replace_all (drop (i + length old) s) old new))
    × (count_text s old ≡ suc (count_text (drop (i + length old) s) old))
    × (i + length old ≤ length s)

pub replace-found :
    (s old new : Bytes) (i : ℕ) → is_empty old ≡ false → index_of s old ≡ some i → Cut s old new i
unfolding index_of
replace-found [] old new i full h = absurd (ground (arith, full, h))
replace-found (c ∷ s) [] new i full h = absurd (cc full)
replace-found (c ∷ s) (o ∷ p) new i full h =
    let old : Bytes = o ∷ p in
    elim (Bool-cases (has_prefix old (c ∷ s))) [
      | inl e ↦
          let at : 0 ≡ i = ground (arith, h, e) in
          let short : length old - 1 ≡ length p = omega arith in
          let none_before : suc (length p) ≡ 0 + length old = omega arith in
          let at_0 : Cut (c ∷ s) old new 0 =
            subst
              (λ k.
                (replace_all (c ∷ s) old new ≡ new ++ replace_all (drop k (c ∷ s)) old new)
                × (count_text (c ∷ s) old ≡ suc (count_text (drop k (c ∷ s)) old))
                × (k ≤ length (c ∷ s)))
              none_before
              (
                rw (replace-step c s old new, e, short) refl,
                rw (count-step c s old, e, short) refl,
                omega (arith, length-has_prefix old (c ∷ s) e),
              ) in
          subst (Cut (c ∷ s) old new) at at_0
      | inr e ↦ elim (Option-cases (index_of s old)) [
        | inl gone ↦ absurd (cc (rw (index-step c s old e, gone) at h))
        | inr (j, found) ↦
            let at : suc j ≡ i = ground (arith, rw (index-step c s old e, found) at h) in
            let (text, times, within) = replace-found s old new j refl found in
            let next : suc (j + length old) ≡ suc j + length old = omega arith in
            let at_suc : Cut (c ∷ s) old new (suc j) =
              subst
                (λ k.
                  (replace_all (c ∷ s) old new
                    ≡ take (suc j) (c ∷ s) ++ (new ++ replace_all (drop k (c ∷ s)) old new))
                  × (count_text (c ∷ s) old ≡ suc (count_text (drop k (c ∷ s)) old))
                  × (k ≤ length (c ∷ s)))
                next
                (
                  rw (replace-step c s old new, e) (ap (λ t. c ∷ t) text),
                  rw (count-step c s old, e) times,
                  omega (arith, within),
                ) in
            subst (Cut (c ∷ s) old new) at at_suc
      ]
    ]

contains-step : (c : ℕ) (s p : Bytes) → contains (c ∷ s) p ≡ (has_prefix p (c ∷ s) || contains s p)
unfolding contains
contains-step c s p = refl

pub index_of-contains : (s p : Bytes) → contains s p ≡ true → (i : ℕ) × (index_of s p ≡ some i)
unfolding index_of contains
index_of-contains [] p h = (0, rw h refl)
index_of-contains (c ∷ s) p h = elim (Bool-cases (has_prefix p (c ∷ s))) [
  | inl e ↦ (0, ground (arith, e))
  | inr e ↦
      let (i, found) = index_of-contains s p (ground (arith, h, e)) in
      (i + 1, index-step c s p e ∙ rw found refl)
]

pub index_of_not_contains : (s p : Bytes) → contains s p ≡ false → index_of s p ≡ none
unfolding index_of contains
index_of_not_contains [] p h = rw h refl
index_of_not_contains (c ∷ s) p h =
    let (e, later) : (has_prefix p (c ∷ s) ≡ false) × (contains s p ≡ false) =
      (ground (arith, h), ground (arith, h)) in
    index-step c s p e ∙ rw (index_of_not_contains s p later) refl

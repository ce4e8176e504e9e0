-- ===== src/LineRange/Partition.antt =====
-- core/line_range.go: how the lines of a text relate to the text, for the proofs about ranges.
use mcp_filesystem_go_ultra.Common.{
  ℕ, zero, suc, ◌<◌, ◌≡◌, ◌≢◌, ◌⊎◌, inl, inr, refl, sym, ap, ◌∙◌, List, [], ◌∷◌, ◌++◌, append-nil,
  append_assoc, Bytes, newline, length, take, drop, concat, All, ne-==_false, ℕ_discrete, arith,
}
use mcp_filesystem_go_ultra.LineRange.{push_byte, split_after, drop_last_empty, lines_of}

-- A line that ends with the only newline that it holds.
abbrev pub IsFull : Bytes → Type 0
IsFull [] = ⊥
IsFull (c ∷ []) = c ≡ newline
IsFull (c ∷ d ∷ l) = (c ≢ newline) × IsFull (d ∷ l)

-- A line that holds something, and a newline at its end at most.
abbrev pub IsLine : Bytes → Type 0
IsLine [] = ⊥
IsLine (c ∷ []) = Unit
IsLine (c ∷ d ∷ l) = (c ≢ newline) × IsLine (d ∷ l)

-- Every line is full, but perhaps the last one.
abbrev pub AreLines : List Bytes → Type 0
AreLines [] = Unit
AreLines (l ∷ []) = IsLine l
AreLines (l ∷ m ∷ ls) = IsFull l × AreLines (m ∷ ls)

IsFull-IsLine : (l : Bytes) → IsFull l → IsLine l
IsFull-IsLine [] h = absurd h
IsFull-IsLine (c ∷ []) h = tt
IsFull-IsLine (c ∷ d ∷ l) h = (h.0, IsFull-IsLine (d ∷ l) h.1)

AreLines-cons : (l : Bytes) (ls : List Bytes) → IsFull l → AreLines ls → AreLines (l ∷ ls)
AreLines-cons l [] f h = IsFull-IsLine l f
AreLines-cons l (m ∷ ls) f h = (f, h)

AreLines-tail : (l : Bytes) (ls : List Bytes) → AreLines (l ∷ ls) → AreLines ls
AreLines-tail l [] h = tt
AreLines-tail l (m ∷ ls) h = h.1

pub AreLines-drop : (n : ℕ) (ls : List Bytes) → AreLines ls → AreLines (drop n ls)
AreLines-drop zero ls h = h
AreLines-drop (suc n) [] h = tt
AreLines-drop (suc n) (l ∷ ls) h = AreLines-drop n ls (AreLines-tail l ls h)

pub AreLines-take : (n : ℕ) (ls : List Bytes) → AreLines ls → AreLines (take n ls)
AreLines-take zero ls h = tt
AreLines-take (suc n) [] h = tt
AreLines-take (suc zero) (l ∷ []) h = h
AreLines-take (suc (suc n)) (l ∷ []) h = h
AreLines-take (suc zero) (l ∷ m ∷ ls) h = IsFull-IsLine l h.0
AreLines-take (suc (suc n)) (l ∷ m ∷ ls) h = (h.0, AreLines-take (suc n) (m ∷ ls) h.1)

-- The lines before a line that is there are all full.
pub IsFull-take : (n : ℕ) (ls : List Bytes) → n < length ls → AreLines ls → All IsFull (take n ls)
IsFull-take zero ls lt h = tt
IsFull-take (suc n) [] lt h = absurd (omega arith)
IsFull-take (suc n) (l ∷ []) lt h = absurd (omega arith)
IsFull-take (suc n) (l ∷ m ∷ ls) lt h = (h.0, IsFull-take n (m ∷ ls) (omega arith) h.1)

concat-push_byte : (c : ℕ) (ls : List Bytes) → concat (push_byte c ls) ≡ c ∷ concat ls
concat-push_byte c [] = refl
concat-push_byte c (l ∷ ls) = refl

concat-split_after : (s : Bytes) → concat (split_after s) ≡ s
unfolding split_after
concat-split_after [] = refl
concat-split_after (c ∷ s) =
    ground (arith, concat-split_after s, concat-push_byte c (split_after s))

concat-drop_last_empty : (ls : List Bytes) → concat (drop_last_empty ls) ≡ concat ls
unfolding drop_last_empty
concat-drop_last_empty [] = refl
concat-drop_last_empty ([] ∷ []) = refl
concat-drop_last_empty ((c ∷ l) ∷ []) = refl
concat-drop_last_empty (l ∷ m ∷ ls) = rw (concat-drop_last_empty (m ∷ ls))

-- The lines of a text spell the text.
pub concat-lines_of : (s : Bytes) → concat (lines_of s) ≡ s
unfolding lines_of
concat-lines_of s = concat-drop_last_empty (split_after s) ∙ concat-split_after s

-- What `split_after` returns: full lines, and a last part without a newline, empty or not.
abbrev Lacks : Bytes → Type 0
Lacks = All (λ c. c ≢ newline)

abbrev AreParts : List Bytes → Type 0
AreParts [] = ⊥
AreParts (l ∷ []) = Lacks l
AreParts (l ∷ m ∷ ls) = IsFull l × AreParts (m ∷ ls)

IsFull-cons : (c : ℕ) (l : Bytes) → c ≢ newline → IsFull l → IsFull (c ∷ l)
IsFull-cons c [] n h = absurd h
IsFull-cons c (d ∷ l) n h = (n, h)

AreParts-push_byte :
    (c : ℕ) (ls : List Bytes) → c ≢ newline → AreParts ls → AreParts (push_byte c ls)
AreParts-push_byte c [] n h = absurd h
AreParts-push_byte c (l ∷ []) n h = (n, h)
AreParts-push_byte c (l ∷ m ∷ ls) n h = (IsFull-cons c l n h.0, h.1)

AreParts-cons : (l : Bytes) (ls : List Bytes) → IsFull l → AreParts ls → AreParts (l ∷ ls)
AreParts-cons l [] f h = absurd h
AreParts-cons l (m ∷ ls) f h = (f, h)

split_after-AreParts : (s : Bytes) → AreParts (split_after s)
unfolding split_after
split_after-AreParts [] = tt
split_after-AreParts (c ∷ s) = elim (ℕ_discrete c newline) [
  | yes e ↦ rw (e) (AreParts-cons (newline ∷ []) (split_after s) refl (split_after-AreParts s))
  | no n ↦
      rw (ne-==_false c newline n) (AreParts-push_byte c (split_after s) n (split_after-AreParts s))
]

Lacks-IsLine : (c : ℕ) (l : Bytes) → Lacks (c ∷ l) → IsLine (c ∷ l)
Lacks-IsLine c [] h = tt
Lacks-IsLine c (d ∷ l) h = (h.0, Lacks-IsLine d l h.1)

drop_last_empty-AreLines : (ls : List Bytes) → AreParts ls → AreLines (drop_last_empty ls)
unfolding drop_last_empty
drop_last_empty-AreLines [] h = tt
drop_last_empty-AreLines ([] ∷ []) h = tt
drop_last_empty-AreLines ((c ∷ l) ∷ []) h = Lacks-IsLine c l h
drop_last_empty-AreLines (l ∷ m ∷ ls) h =
    AreLines-cons l (drop_last_empty (m ∷ ls)) h.0 (drop_last_empty-AreLines (m ∷ ls) h.1)

pub lines_of-AreLines : (s : Bytes) → AreLines (lines_of s)
unfolding lines_of
lines_of-AreLines s = drop_last_empty-AreLines (split_after s) (split_after-AreParts s)

-- A full line in front of a text is split off whole.
split_after-IsFull : (l s : Bytes) → IsFull l → split_after (l ++ s) ≡ l ∷ split_after s
unfolding split_after
split_after-IsFull [] s h = absurd h
split_after-IsFull (c ∷ []) s h = rw h
split_after-IsFull (c ∷ d ∷ l) s h =
    rw (ne-==_false c newline h.0, split_after-IsFull (d ∷ l) s h.1) refl

drop_last_empty-cons :
    (l : Bytes) (ls : List Bytes) → AreParts ls → drop_last_empty (l ∷ ls) ≡ l ∷ drop_last_empty ls
unfolding drop_last_empty
drop_last_empty-cons l [] h = absurd h
drop_last_empty-cons l (m ∷ ls) h = refl

lines_of-IsFull : (l s : Bytes) → IsFull l → lines_of (l ++ s) ≡ l ∷ lines_of s
unfolding lines_of
lines_of-IsFull l s h =
    rw (split_after-IsFull l s h) (drop_last_empty-cons l (split_after s) (split_after-AreParts s))

-- Full lines in front of a text are its first lines.
pub lines_of-concat-append :
    (ls : List Bytes) (s : Bytes) → All IsFull ls → lines_of (concat ls ++ s) ≡ ls ++ lines_of s
lines_of-concat-append [] s h = refl
lines_of-concat-append (l ∷ ls) s h =
    rw (append_assoc l (concat ls) s, lines_of-IsFull l (concat ls ++ s) h.0)
      (ap (λ t. l ∷ t) (lines_of-concat-append ls s h.1))

IsLine-cases : (l : Bytes) → IsLine l → IsFull l ⊎ Lacks l
IsLine-cases [] h = absurd h
IsLine-cases (c ∷ []) h = elim (ℕ_discrete c newline) [ yes e ↦ inl e | no n ↦ inr (n, tt) ]
IsLine-cases (c ∷ d ∷ l) h = elim (IsLine-cases (d ∷ l) h.1) [
  | inl full ↦ inl (h.0, full)
  | inr bare ↦ inr (h.0, bare)
]

split_after-Lacks : (l : Bytes) → Lacks l → split_after l ≡ l ∷ []
unfolding split_after
split_after-Lacks [] h = refl
split_after-Lacks (c ∷ l) h = rw (ne-==_false c newline h.0, split_after-Lacks l h.1) refl

lines_of-IsLine : (l : Bytes) → IsLine l → lines_of l ≡ l ∷ []
unfolding lines_of drop_last_empty
lines_of-IsLine [] h = absurd h
lines_of-IsLine (c ∷ l) h = elim (IsLine-cases (c ∷ l) h) [
  | inl full ↦
      ap lines_of (sym (append-nil (c ∷ l)))
      ∙ lines_of-IsFull (c ∷ l) [] full
      ∙ unfold split_after in refl
  | inr bare ↦ rw (split_after-Lacks (c ∷ l) bare)
]

-- The text that lines spell has these lines.
pub lines_of-concat : (ls : List Bytes) → AreLines ls → lines_of (concat ls) ≡ ls
lines_of-concat [] h = unfold lines_of split_after drop_last_empty in refl
lines_of-concat (l ∷ []) h = ap lines_of (append-nil l) ∙ lines_of-IsLine l h
lines_of-concat (l ∷ m ∷ ls) h =
    lines_of-IsFull l (concat (m ∷ ls)) h.0 ∙ ap (λ t. l ∷ t) (lines_of-concat (m ∷ ls) h.1)

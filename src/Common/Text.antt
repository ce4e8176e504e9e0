-- ===== src/Common/Text.antt =====
-- Strings as lists of bytes, with the tests of Go's `strings` that the code uses.
use Prim.Native.Nat.{ℕ, ◌+◌}
use Prim.Native.Char.{code}
use Prim.Native.String.{String}
use mathlib.Core.Path.{◌≡◌, refl}
use mathlib.Core.Bool.{Bool, true, false, ◌&&◌}
use mathlib.Core.List.{List, [], ◌∷◌, ◌++◌}
use native.Mathlib.Omega.{arith}
use mcp_filesystem_go_ultra.Common.Tests.{◌==◌, if◌then◌else◌}

abbrev pub Bytes : Type 0
Bytes = List ℕ

-- The code points of a literal; these are its bytes when the text is ASCII.
abbrev pub codes : String → Bytes
codes String.[] = []
codes (String.◌∷◌ c s) = code c ∷ codes s

-- `a == b` on strings.
abbrev pub bytes_eq : Bytes → Bytes → Bool
bytes_eq [] [] = true
bytes_eq [] (y ∷ ys) = false
bytes_eq (x ∷ xs) [] = false
bytes_eq (x ∷ xs) (y ∷ ys) = (x == y) && bytes_eq xs ys

pub bytes_eq_refl : (a : Bytes) → bytes_eq a a ≡ true
bytes_eq_refl [] = refl
bytes_eq_refl (x ∷ xs) = ground (arith, bytes_eq_refl xs)

pub eq_of_bytes_eq : (a b : Bytes) → bytes_eq a b ≡ true → a ≡ b
eq_of_bytes_eq [] [] h = refl
eq_of_bytes_eq [] (y ∷ ys) h = cc
eq_of_bytes_eq (x ∷ xs) [] h = cc
eq_of_bytes_eq (x ∷ xs) (y ∷ ys) h = ground (arith, eq_of_bytes_eq xs ys)

pub bytes_eq_of_eq : (a b : Bytes) → a ≡ b → bytes_eq a b ≡ true
bytes_eq_of_eq a b e = ground (arith, bytes_eq_refl a)

-- `s == ""`
abbrev pub is_empty {ℓ} : {A : Type ℓ} → List A → Bool
is_empty [] = true
is_empty (c ∷ s) = false

-- `strings.HasSuffix(s, "\n")`, for any one byte.
abbrev pub ends_with : ℕ → Bytes → Bool
ends_with b [] = false
ends_with b (c ∷ []) = c == b
ends_with b (c ∷ d ∷ s) = ends_with b (d ∷ s)

-- `strings.Count(s, "\n")`, for any one byte.
abbrev pub count_byte : ℕ → Bytes → ℕ
count_byte b [] = 0
count_byte b (c ∷ s) = (if c == b then 1 else 0) + count_byte b s

pub count_byte-append :
    (b : ℕ) (s t : Bytes) → count_byte b (s ++ t) ≡ count_byte b s + count_byte b t
count_byte-append b [] t = omega arith
count_byte-append b (c ∷ s) t = omega (arith, count_byte-append b s t)

abbrev pub newline : ℕ
newline = b'\n'

-- ===== src/Common/Maps.antt =====
-- A Go map with string keys as an association list.
use mathlib.Core.Path.{◌≡◌, refl}
use mathlib.Core.Bool.{Bool, true, false}
use mathlib.Core.Option.{Option, none, some}
use mathlib.Core.List.{List, [], ◌∷◌}
use native.Mathlib.Omega.{arith}
use mcp_filesystem_go_ultra.Common.Tests.{if◌then◌else◌}
use mcp_filesystem_go_ultra.Common.Text.{Bytes, bytes_eq, bytes_eq_refl, eq_of_bytes_eq}

module _ {ℓ} {V : Type ℓ} where
  -- `v, ok := m[k]`
  abbrev pub lookup : Bytes → List (Bytes × V) → Option V
  lookup k [] = none
  lookup k ((j, v) ∷ m) = if bytes_eq j k then some v else lookup k m

  -- `m[k] = v`
  abbrev pub insert : Bytes → V → List (Bytes × V) → List (Bytes × V)
  insert k v [] = (k, v) ∷ []
  insert k v ((j, w) ∷ m) = if bytes_eq j k then (k, v) ∷ m else (j, w) ∷ insert k v m

  -- `_, ok := m[k]`
  abbrev pub has_key : Bytes → List (Bytes × V) → Bool
  has_key k m = elim (lookup k m) [ none ↦ false | some v ↦ true ]

  pub lookup-insert :
      (k j : Bytes) (v : V) (m : List (Bytes × V))
      → lookup j (insert k v m) ≡ (if bytes_eq k j then some v else lookup j m)
  lookup-insert k j v [] = refl
  lookup-insert k j v ((i, w) ∷ m) = ground (
    arith,
    eq_of_bytes_eq i k,
    eq_of_bytes_eq i j,
    eq_of_bytes_eq k j,
    bytes_eq_refl j,
    bytes_eq_refl k,
    lookup-insert k j v m,
  )

  -- `delete(m, k)`
  abbrev pub erase : Bytes → List (Bytes × V) → List (Bytes × V)
  erase k [] = []
  erase k ((j, w) ∷ m) = let rest = erase k m in if bytes_eq j k then rest else (j, w) ∷ rest

  pub lookup-erase :
      (k j : Bytes) (m : List (Bytes × V))
      → lookup j (erase k m) ≡ (if bytes_eq k j then none else lookup j m)
  lookup-erase k j [] = ground arith
  lookup-erase k j ((i, w) ∷ m) = ground (
    arith,
    eq_of_bytes_eq i k,
    eq_of_bytes_eq i j,
    eq_of_bytes_eq k j,
    bytes_eq_refl j,
    bytes_eq_refl k,
    lookup-erase k j m,
  )

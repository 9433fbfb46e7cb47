-- ===== src/Prelude/Tables.antt =====
-- A table of the database: its rows, each under its primary key. The order means nothing.
use Prim.Native.String.{String}
use mathlib.Core.Path.{◌≡◌, refl}
use mathlib.Core.Bool.{Bool}
use mathlib.Core.Option.{Option, none, some}
use mathlib.Core.List.{List, [], ◌∷◌}
use native.Mathlib.Omega.{arith}
use text.Mathlib.Text.{◌==◌}
use text.Mathlib.TextEquality.{eq_iff}
use talent_flow_ai_backend.Prelude.Tests.{if◌then◌else◌}

abbrev pub Table {ℓ} : Type ℓ → Type ℓ
Table Row = List (String × Row)

module _ {ℓ} {Row : Type ℓ} where
  unfoldable pub lookup : String → Table Row → Option Row
  lookup k [] = none
  lookup k ((j, r) ∷ t) = if j == k then some r else lookup k t

  unfoldable pub insert : String → Row → Table Row → Table Row
  insert k r [] = (k, r) ∷ []
  insert k r ((j, q) ∷ t) = if j == k then (k, r) ∷ t else (j, q) ∷ insert k r t

  unfoldable pub without : String → Table Row → Table Row
  without k [] = []
  without k ((j, q) ∷ t) = let rest = without k t in if j == k then rest else (j, q) ∷ rest

  pub lookup-insert :
      (k j : String) (r : Row) (t : Table Row)
      → lookup j (insert k r t) ≡ (if k == j then some r else lookup j t)
  unfolding lookup insert
  lookup-insert k j r [] = refl
  lookup-insert k j r ((i, q) ∷ t) =
      ground (arith, eq_iff k j, eq_iff i k, eq_iff i j, lookup-insert k j r t)

  pub lookup-without :
      (k j : String) (t : Table Row)
      → lookup j (without k t) ≡ (if k == j then none else lookup j t)
  unfolding lookup without
  lookup-without k j [] = ground arith
  lookup-without k j ((i, q) ∷ t) =
      ground (arith, eq_iff k j, eq_iff i k, eq_iff i j, lookup-without k j t)

module _ {ℓ} {Row : Type ℓ} (f : String → Bool) where
  -- The rows under the keys that pass a test.
  unfoldable pub restrict : Table Row → Table Row
  restrict [] = []
  restrict ((j, q) ∷ t) = let rest = restrict t in if f j then (j, q) ∷ rest else rest

  pub lookup-restrict :
      (i : String) (t : Table Row) → lookup i (restrict t) ≡ (if f i then lookup i t else none)
  unfolding lookup restrict
  lookup-restrict i [] = ground arith
  lookup-restrict i ((j, q) ∷ t) = ground (arith, eq_iff j i, lookup-restrict i t)

-- ===== src/Base/Maps.antt =====
-- Go's `map[string]V` as an association list. A map is read through `lookup`; the order of the
-- entries stands for the order in which one `range` over the map visits them.
use Prim.Native.String.{String}
use mathlib.Core.Path.{◌≡◌, refl}
use mathlib.Core.Option.{Option, none, some}
use mathlib.Core.List.{List, [], ◌∷◌, ◌++◌}
use native.Mathlib.Omega.{arith}
use text.Mathlib.Text.{◌==◌}
use text.Mathlib.TextEquality.{eq_iff}
use onepanel.Base.Tests.{if◌then◌else◌}

abbrev pub Map {ℓ} : Type ℓ → Type ℓ
Map V = List (String × V)

module _ {ℓ} {V : Type ℓ} where
  -- v, ok := m[k]
  unfoldable pub lookup : String → Map V → Option V
  lookup key [] = none
  lookup key ((at, found) ∷ rest) = if at == key then some found else lookup key rest

  -- m[k] = v
  unfoldable pub insert : String → V → Map V → Map V
  insert key new [] = (key, new) ∷ []
  insert key new ((at, old) ∷ rest) =
      if at == key then (key, new) ∷ rest else (at, old) ∷ insert key new rest

  -- delete(m, k)
  unfoldable pub delete : String → Map V → Map V
  delete k [] = []
  delete k ((j, w) ∷ m) = let rest = delete k m in if j == k then rest else (j, w) ∷ rest

  pub lookup-insert :
      (key at : String) (new : V) (m : Map V)
      → lookup at (insert key new m) ≡ (if key == at then some new else lookup at m)
  unfolding lookup insert
  lookup-insert key at new [] = refl
  lookup-insert key at new ((i, old) ∷ m) =
      ground (arith, eq_iff i at, eq_iff key at, eq_iff i key, lookup-insert key at new m)

  pub lookup-delete :
      (key at : String) (m : Map V)
      → lookup at (delete key m) ≡ (if key == at then none else lookup at m)
  unfolding lookup delete
  lookup-delete key at [] = ground arith
  lookup-delete key at ((i, old) ∷ m) =
      ground (arith, eq_iff i at, eq_iff key at, eq_iff i key, lookup-delete key at m)

  pub lookup-append :
      (k : String) (m n : Map V)
      → lookup k (m ++ n) ≡ elim (lookup k m) [ none ↦ lookup k n | some v ↦ some v ]
  unfolding lookup
  lookup-append k [] n = refl
  lookup-append k ((i, w) ∷ m) n = ground (arith, lookup-append k m n)

pub ruleset map_laws = (lookup-insert, lookup-delete)

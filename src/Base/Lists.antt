-- ===== src/Base/Lists.antt =====
-- Lists measured by native numbers, and predicates on them by recursion.
use Prim.Native.Nat.{ℕ, suc, ◌+◌}
use mathlib.Core.Path.{◌≡◌, refl}
use mathlib.Core.Bool.{Bool, true, false, ◌||◌}
use mathlib.Core.List.{List, [], ◌∷◌, ◌++◌, map}
use native.Mathlib.Omega.{arith}

module _ {ℓ} {A : Type ℓ} where
  abbrev pub length : List A → ℕ
  length [] = 0
  length (x ∷ xs) = suc (length xs)

  pub length-append : (xs ys : List A) → length (xs ++ ys) ≡ length xs + length ys
  length-append [] ys = omega arith
  length-append (x ∷ xs) ys = omega (arith, length-append xs ys)

  abbrev pub is_nil : List A → Bool
  is_nil [] = true
  is_nil (_ ∷ _) = false

  -- `for _, x := range xs { if p(x) { … true } }`
  abbrev pub any : (A → Bool) → List A → Bool
  any p [] = false
  any p (x ∷ xs) = p x || any p xs

  -- the sublist on which a test holds, by an `append` in a loop
  abbrev pub keep : (A → Bool) → List A → List A
  keep p [] = []
  keep p (x ∷ xs) = let rest = keep p xs in elim (p x) [ true ↦ x ∷ rest | false ↦ rest ]

module _ {ℓ κ} {A : Type ℓ} where
  abbrev pub All : (A → Type κ) → List A → Type κ
  All P [] = Unit
  All P (x ∷ xs) = P x × All P xs

  pub All-append :
      (Q : A → Type κ) (left right : List A) → All Q left → All Q right → All Q (left ++ right)
  All-append Q [] right h k = k
  All-append Q (x ∷ left) right h k = (h.0, All-append Q left right h.1 k)

pub map-map-id {ℓ κ} :
    {A : Type ℓ} {B : Type κ} (f : A → B) (g : B → A)
    → ((a : A) → g (f a) ≡ a)
    → (xs : List A) → map g (map f xs) ≡ xs
map-map-id f g h [] = refl
map-map-id f g h (x ∷ xs) = cc (h x, map-map-id f g h xs)

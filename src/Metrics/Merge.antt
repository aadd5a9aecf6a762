-- ===== src/Metrics/Merge.antt =====
-- What the metrics have under each name after a merge.
use onepanel.Base.{
  String, true, false, ◌≡◌, refl, ap, sym, ◌∙◌, Option, none, some, List, [], ◌∷◌, ◌++◌, ◌==◌, any,
  map, arith, eq_iff, if◌then◌else◌, Bool-cases, inl, inr,
}
use mathlib.Core.List.{append-nil, append_assoc}
use onepanel.Metrics.{Metric, is_found, update_metric, add, merge}

module _ {V : Type 0} where
  -- the value and the format of the first metric of a name
  abbrev pub first_of : String → List (Metric V) → Option (V × String)
  first_of n [] = none
  first_of n (x ∷ m) = if x.name == n then some (x.value, x.format) else first_of n m

  -- those of the last metric of a name
  abbrev pub last_of : String → List (Metric V) → Option (V × String)
  last_of n [] = none
  last_of n (x ∷ m) =
      let rest = last_of n m in
      elim rest [ some y ↦ some y | none ↦ if x.name == n then some (x.value, x.format) else none ]

  first_of-append :
      (n : String) (x : Metric V) (m : List (Metric V))
      → first_of n (m ++ x ∷ []) ≡ elim (first_of n m) [
        | some y ↦ some y
        | none ↦ if x.name == n then some (x.value, x.format) else none
      ]
  first_of-append n x [] = refl
  first_of-append n x (y ∷ m) = ground (arith, first_of-append n x m)

  first_of-map :
      (n : String) (x : Metric V) (m : List (Metric V))
      → first_of n (map (update_metric x true) m) ≡ elim (first_of n m) [
        | none ↦ none
        | some y ↦ if x.name == n then some (x.value, x.format) else some y
      ]
  unfolding update_metric
  first_of-map n x [] = refl
  first_of-map n x (y ∷ m) =
      ground (arith, eq_iff y.name x.name, eq_iff y.name n, eq_iff x.name n, first_of-map n x m)

  any-found :
      (x : Metric V) (m : List (Metric V))
      → any (is_found x true) m ≡ elim (first_of x.name m) [ none ↦ false | some _ ↦ true ]
  any-found x [] = refl
  any-found x (y ∷ m) = ground (arith, any-found x m)

  first_of-add :
      (n : String) (x : Metric V) (m : List (Metric V))
      → first_of n (add m x true) ≡ (if x.name == n then some (x.value, x.format) else first_of n m)
  unfolding add
  first_of-add n x m = elim (Bool-cases (x.name == n)) [
    | inl e ↦
        let same : first_of x.name m ≡ first_of n m =
          ap (λ k. first_of k m) ((eq_iff x.name n).0 e) in
        ground (
          arith,
          same,
          any-found x m,
          first_of-map n x m,
          first_of-append n x (map (update_metric x true) m),
        )
    | inr e ↦ ground (
      arith,
      any-found x m,
      first_of-map n x m,
      first_of-append n x (map (update_metric x true) m),
    )
  ]

  -- A merge that overrides gives each name the last value and format that the input has for it, and leaves
  -- the names that the input does not have as they were.
  pub first_of-merge :
      (n : String) (m input : List (Metric V))
      → first_of n (merge m input true)
        ≡ elim (last_of n input) [ some y ↦ some y | none ↦ first_of n m ]
  unfolding merge
  first_of-merge n m [] = refl
  first_of-merge n m (x ∷ input) =
      ground (arith, first_of-merge n (add m x true) input, first_of-add n x m)

  not_found : (x : Metric V) (m : List (Metric V)) → any (is_found x false) m ≡ false
  not_found x [] = refl
  not_found x (y ∷ m) = ground (arith, not_found x m)

  update_none : (x : Metric V) (m : List (Metric V)) → map (update_metric x false) m ≡ m
  unfolding update_metric
  update_none x [] = refl
  update_none x (y ∷ m) = ground (arith, update_none x m)

  -- A merge that does not override appends the whole input, also the metrics of names that are there.
  pub merge-append : (m input : List (Metric V)) → merge m input false ≡ m ++ input
  unfolding merge add
  merge-append m [] = sym (append-nil m)
  merge-append m (x ∷ input) =
      rw (not_found x m, update_none x m)
        (merge-append (m ++ x ∷ []) input ∙ append_assoc m (x ∷ []) input)

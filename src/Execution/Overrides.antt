-- ===== src/Execution/Overrides.antt =====
-- The values of the parameters after the options were merged in.
use onepanel.Base.{
  String, true, false, ◌==◌, ◌≡◌, refl, Option, none, some, List, [], ◌∷◌, ◌++◌, Result, ok, err,
  panic, ◌>>=◌, if◌then◌else◌, arith, eq_iff, >>=-eq-ok,
}
use onepanel.Params.{Parameter, named}
use onepanel.Execution.Submitted.{passed, is_passed, not_passed, merge_parameters}

-- the value of the first parameter of a name
unfoldable pub first_value : String → List Parameter → Option (Option String)
first_value name [] = none
first_value name (p ∷ ps) =
    let rest = first_value name ps in if p.name == name then some p.value else rest

abbrev pub or_first : Option (Option String) → Option (Option String) → Option (Option String)
or_first (some v) d = some v
or_first none d = d

first_value-append :
    (name : String) (ps qs : List Parameter)
    → first_value name (ps ++ qs) ≡ or_first (first_value name ps) (first_value name qs)
unfolding first_value
first_value-append name [] qs = refl
first_value-append name (p ∷ ps) qs = ground (arith, first_value-append name ps qs)

first_value-passed :
    (name : String) (options ps : List Parameter)
    → passed options ≡ ok ps
    → first_value name ps ≡ first_value name options
unfolding passed first_value
first_value-passed name [] ps e = ground arith
first_value-passed name (p ∷ options) ps e =
    step p.value (passed options) refl (first_value-passed name options) e
  where
    step :
        (v : Option String) (r : Result (List Parameter))
        → p.value ≡ v
        → ((qs : List Parameter) → r ≡ ok qs → first_value name qs ≡ first_value name options)
        → elim v [ none ↦ err panic | some x ↦ r >>= λ qs. ok (named p.name (some x) ∷ qs) ] ≡ ok ps
        → first_value name ps ≡ first_value name (p ∷ options)
    step none r h k e' = absurd (ground arith)
    step (some x) (err y) h k e' = absurd (ground arith)
    step (some x) (ok qs) h k e' =
        let same : named p.name (some x) ∷ qs ≡ ps = ground arith in
        rw (← same) (ground (arith, k qs refl, h))

first_value-not_passed :
    (name : String) (options ps : List Parameter)
    → first_value name (not_passed options ps)
      ≡ (if is_passed options name then none else first_value name ps)
unfolding first_value not_passed
first_value-not_passed name options [] = ground arith
first_value-not_passed name options (p ∷ ps) =
    ground (arith, first_value-not_passed name options ps, eq_iff p.name name)

first_value-is_passed :
    (name : String) (options : List Parameter)
    → is_passed options name ≡ elim (first_value name options) [ none ↦ false | some v ↦ true ]
unfolding first_value
first_value-is_passed name [] = refl
first_value-is_passed name (p ∷ options) = ground (arith, first_value-is_passed name options)

-- When the options' parameters are merged into a workflow's, a name has the value of the options' first
-- parameter of that name, and without one the value of the workflow's first parameter of that name.
pub first_value-merge_parameters :
    (name : String) (options parameters merged : List Parameter)
    → merge_parameters options parameters ≡ ok merged
    → first_value name merged ≡ or_first (first_value name options) (first_value name parameters)
unfolding merge_parameters
first_value-merge_parameters name options parameters merged e =
    let (ps, h, k) =
      >>=-eq-ok (passed options) (λ ps. ok (ps ++ not_passed options parameters)) e in
    let same : ps ++ not_passed options parameters ≡ merged = ground arith in
    rw
      (
        ← same,
        first_value-append name ps (not_passed options parameters),
        first_value-passed name options ps h,
        first_value-not_passed name options parameters,
        first_value-is_passed name options,
      )
      (settled (first_value name options))
  where
    settled :
        (v : Option (Option String))
        → or_first v
            (if elim v [ none ↦ false | some x ↦ true ] then none else first_value name parameters)
          ≡ or_first v (first_value name parameters)
    settled none = refl
    settled (some v) = refl

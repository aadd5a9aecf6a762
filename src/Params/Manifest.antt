-- ===== src/Params/Manifest.antt =====
-- What the parser of a manifest's parameters accepts, and what it returns.
use mathlib.Core.Logic.{inl, inr}
use onepanel.Base.{
  String, ◌≡◌, refl, ◌⊎◌, ◌↔◌, Option, none, some, List, [], ◌∷◌, map, arith, eq_iff, ◌==◌, All,
  Result, ok, ◌>>◌, check, lookup, insert, lookup-insert, Option-cases, ◌≢◌, Map, if◌then◌else◌,
  >>=-eq-ok,
}
use onepanel.Params.{
  Parameter, is_valid_parameter, visibility_error, or_public, is_valid_parameters,
  default_parameter, parse_parameters_from_manifest, map_from, map_parameters_by_name,
}

-- the visibility is absent or one of the four words
abbrev pub IsVisibility : Option String → Type 0
IsVisibility none = Unit
IsVisibility (some v) = (v ≡ "public") ⊎ (v ≡ "protected") ⊎ (v ≡ "internal") ⊎ (v ≡ "private")

visibility_error_sound : (o : Option String) → visibility_error o ≡ none → IsVisibility o
unfolding visibility_error
visibility_error_sound none h = tt
visibility_error_sound (some v) h =
    ground (arith, eq_iff v "public", eq_iff v "protected", eq_iff v "internal", eq_iff v "private")

visibility_error_complete : (o : Option String) → IsVisibility o → visibility_error o ≡ none
unfolding visibility_error
visibility_error_complete none h = refl
visibility_error_complete (some v) h =
    ground (arith, eq_iff v "public", eq_iff v "protected", eq_iff v "internal", eq_iff v "private")

abbrev pub Valid : Parameter → Type 0
Valid p = IsVisibility p.visibility

is_valid_parameters_sound : (ps : List Parameter) → is_valid_parameters ps ≡ none → All Valid ps
unfolding is_valid_parameters is_valid_parameter
is_valid_parameters_sound [] h = tt
is_valid_parameters_sound (p ∷ ps) h = elim (Option-cases (visibility_error p.visibility)) [
  | inl e ↦ (
    visibility_error_sound p.visibility e,
    is_valid_parameters_sound ps (rw (e, is_valid_parameters) at h),
  )
  | inr (x, e) ↦ absurd (ground arith)
]

is_valid_parameters_complete : (ps : List Parameter) → All Valid ps → is_valid_parameters ps ≡ none
unfolding is_valid_parameters is_valid_parameter
is_valid_parameters_complete [] h = refl
is_valid_parameters_complete (p ∷ ps) h =
    ground (arith, visibility_error_complete p.visibility, is_valid_parameters_complete ps)

-- A list of parameters is accepted exactly when the visibility of each is absent or one of
-- `public`, `protected`, `internal` and `private`.
pub is_valid_parameters_iff : (ps : List Parameter) → (is_valid_parameters ps ≡ none) ↔ All Valid ps
is_valid_parameters_iff ps = (is_valid_parameters_sound ps, is_valid_parameters_complete ps)

-- what a parameter that the parser returns owes to the decoded one
pub record IsDefaulted (p q : Parameter) : Type 0 where
  pub same_name : q.name ≡ p.name
  pub same_type : q.type ≡ p.type
  pub shown : (v : String) × (q.visibility ≡ some v) × IsVisibility (some v)
  pub pool_value : p.type ≡ "select.nodepool" → q.value ≡ some "default"
  pub pool_options : p.type ≡ "select.nodepool" → q.options ≡ some []
  pub other_value : p.type ≢ "select.nodepool" → q.value ≡ p.value
  pub other_options : p.type ≢ "select.nodepool" → q.options ≡ p.options

abbrev pub AllDefaulted : List Parameter → List Parameter → Type 0
AllDefaulted [] [] = Unit
AllDefaulted [] (_ ∷ _) = ⊥
AllDefaulted (_ ∷ _) [] = ⊥
AllDefaulted (p ∷ ps) (q ∷ qs) = IsDefaulted p q × AllDefaulted ps qs

or_public-shown :
    (o : Option String)
    → IsVisibility (or_public o)
    → (v : String) × (or_public o ≡ some v) × IsVisibility (some v)
or_public-shown none h = ("public", refl, h)
or_public-shown (some v) h = (v, refl, h)

visibility-default : (p : Parameter) → (default_parameter p).visibility ≡ or_public p.visibility
unfolding default_parameter
visibility-default p = ground arith

default_parameter-IsDefaulted :
    (p : Parameter) → Valid (default_parameter p) → IsDefaulted p (default_parameter p)
unfolding default_parameter
default_parameter-IsDefaulted p h = record {
  same_name = ground arith;
  same_type = ground arith;
  shown = rw visibility-default (or_public-shown p.visibility (rw visibility-default at h));
  pool_value = ground (arith, eq_iff p.type "select.nodepool");
  pool_options = ground (arith, eq_iff p.type "select.nodepool");
  other_value = ground (arith, eq_iff p.type "select.nodepool");
  other_options = ground (arith, eq_iff p.type "select.nodepool");
}

defaults-AllDefaulted :
    (ps : List Parameter)
    → All Valid (map default_parameter ps)
    → AllDefaulted ps (map default_parameter ps)
defaults-AllDefaulted [] h = tt
defaults-AllDefaulted (p ∷ ps) h =
    (default_parameter-IsDefaulted p h.0, defaults-AllDefaulted ps h.1)

-- When the parser accepts a manifest, the manifest was decoded, and the result has the decoded
-- parameters one by one: the same name and type, a visibility that is one of the four words, value
-- `default` and no options for a node pool, and the decoded value and options for all others.
pub parse_parameters_from_manifest-AllDefaulted :
    (unmarshal : String → Result (List Parameter)) (manifest : String) (ps : List Parameter)
    → parse_parameters_from_manifest unmarshal manifest ≡ ok ps
    → (decoded : List Parameter) × (unmarshal manifest ≡ ok decoded) × AllDefaulted decoded ps
unfolding parse_parameters_from_manifest
parse_parameters_from_manifest-AllDefaulted unmarshal manifest ps h =
    let (decoded, p, q) = >>=-eq-ok (unmarshal manifest) _ h in
    let (valid, same) = accepted (map default_parameter decoded) q in
    (decoded, p, rw same at (defaults-AllDefaulted decoded (is_valid_parameters_sound _ valid)))
  where
    accepted :
        (qs : List Parameter)
        → (check (is_valid_parameters qs) >> ok qs) ≡ ok ps
        → (is_valid_parameters qs ≡ none) × (qs ≡ ps)
    accepted qs e = ground arith

-- the last parameter of a name
abbrev pub last_named : String → List Parameter → Option Parameter
last_named k [] = none
last_named k (p ∷ ps) =
    let rest = last_named k ps in
    elim rest [ some q ↦ some q | none ↦ if p.name == k then some p else none ]

lookup-map_from :
    (k : String) (m : Map Parameter) (ps : List Parameter)
    → lookup k (map_from m ps) ≡ elim (last_named k ps) [ some q ↦ some q | none ↦ lookup k m ]
unfolding map_from
lookup-map_from k m [] = refl
lookup-map_from k m (p ∷ ps) =
    ground (arith, lookup-map_from k (insert p.name p m) ps, lookup-insert p.name k p m)

-- The map from names to parameters holds, for every name, the last parameter of that name, and
-- nothing for a name that no parameter has.
pub lookup-map_parameters_by_name :
    (k : String) (ps : List Parameter) → lookup k (map_parameters_by_name ps) ≡ last_named k ps
unfolding map_parameters_by_name
lookup-map_parameters_by_name k ps = ground (arith, lookup-map_from k [] ps, lookup-nil k)
  where
    lookup-nil : (j : String) → lookup {V = Parameter} j [] ≡ none
    lookup-nil j = unfold lookup in refl

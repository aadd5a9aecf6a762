-- ===== src/Params/Merge.antt =====
-- What a merge of workspace parameters gives for each name.
use onepanel.Base.{
  String, ◌≡◌, refl, Bool, false, List, [], ◌∷◌, ◌++◌, map, arith, eq_iff, ◌==◌, if◌then◌else◌,
  Bool-cases, inl, inr,
}
use onepanel.Params.{
  Parameter, has_name, get_parameter_value, copy, keep_missing, merge_workspace_parameters,
}

get-append :
    (k : String) (ps qs : List Parameter)
    → get_parameter_value k (ps ++ qs)
      ≡ (if has_name k ps then get_parameter_value k ps else get_parameter_value k qs)
unfolding get_parameter_value
get-append k [] qs = refl
get-append k (p ∷ ps) qs = ground (arith, get-append k ps qs)

get-copy :
    (k : String) (ps : List Parameter)
    → get_parameter_value k (map copy ps) ≡ get_parameter_value k ps
unfolding get_parameter_value copy
get-copy k [] = refl
get-copy k (p ∷ ps) = ground (arith, get-copy k ps)

has_name-copy : (k : String) (ps : List Parameter) → has_name k (map copy ps) ≡ has_name k ps
unfolding copy
has_name-copy k [] = refl
has_name-copy k (p ∷ ps) = ground (arith, has_name-copy k ps)

get-keep_missing :
    (k : String) (new ps : List Parameter)
    → has_name k new ≡ false
    → get_parameter_value k (keep_missing new ps) ≡ get_parameter_value k ps
unfolding get_parameter_value keep_missing copy
get-keep_missing k new [] h = refl
get-keep_missing k new (p ∷ ps) h = elim (Bool-cases (p.name == k)) [
  | inl e ↦
      let same : p.name ≡ k = (eq_iff p.name k).0 e in
      let missing : has_name p.name new ≡ false = rw same h in rw (missing, e)
  | inr e ↦ ground (arith, get-keep_missing k new ps h)
]

-- For every name, the merged list gives the value of the new parameters if they have the name, and
-- that of the existing ones otherwise, whatever the value of `override`.
pub get_parameter_value-merge_workspace_parameters :
    (k : String) (existing new : List Parameter) (override : Bool)
    → get_parameter_value k (merge_workspace_parameters existing new override)
      ≡ (if has_name k new then get_parameter_value k new else get_parameter_value k existing)
unfolding merge_workspace_parameters
get_parameter_value-merge_workspace_parameters k existing new override = ground (
  arith,
  get-append k (map copy new) (keep_missing new existing),
  get-copy k new,
  has_name-copy k new,
  get-keep_missing k new existing,
)

-- ===== src/Params/Tests.antt =====
-- Parameters at concrete lists.
use onepanel.Base.{String, false, ◌≡◌, refl, some, List, [], ◌∷◌, Result, ok}
use onepanel.Params.{
  Parameter, named, parse_parameters_from_manifest, merge_workspace_parameters, get_parameter_value,
  default_parameter,
}
use onepanel.Params.Manifest.{AllDefaulted, parse_parameters_from_manifest-AllDefaulted}
use onepanel.Params.Merge.{get_parameter_value-merge_workspace_parameters}

abbrev pool : Parameter
pool = record (named "sys-node-pool" (some "big")) { type = "select.nodepool" }

abbrev hidden : Parameter
hidden = record (named "a" (some "2")) { visibility = some "internal" }

abbrev existing : List Parameter
existing = named "a" (some "1") ∷ named "b" (some "3") ∷ []

abbrev unmarshal : String → Result (List Parameter)
unmarshal _ = ok (pool ∷ hidden ∷ [])

parse_parameters_from_manifest-AllDefaulted_example :
    (decoded : List Parameter) × (unmarshal "m" ≡ ok decoded)
    × AllDefaulted decoded (default_parameter pool ∷ default_parameter hidden ∷ [])
parse_parameters_from_manifest-AllDefaulted_example =
    parse_parameters_from_manifest-AllDefaulted unmarshal "m"
      (default_parameter pool ∷ default_parameter hidden ∷ [])
      (unfold parse_parameters_from_manifest in refl)

get_parameter_value-merge_workspace_parameters_example :
    get_parameter_value "a" (merge_workspace_parameters existing (hidden ∷ []) false) ≡ some "2"
unfolding get_parameter_value
get_parameter_value-merge_workspace_parameters_example =
    get_parameter_value-merge_workspace_parameters "a" existing (hidden ∷ []) false

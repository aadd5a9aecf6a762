-- ===== src/Converter/RoundTrip.antt =====
-- What a conversion to the API and back keeps.
use onepanel.Base.{
  String, false, ◌≡◌, refl, ap, ◌∙◌, Option, none, some, List, [], ◌∷◌, ◌==◌, map, arith, eq_iff,
  Bool-cases, inl, inr,
}
use onepanel.Params.{ParameterOption}
use onepanel.Metrics.{Metric, add, merge}
use onepanel.Metrics.Merge.{merge-append}
use onepanel.Converter.{
  ApiParameter, text_of, pointer_of, option_to_api, api_option_to_internal, convert_options,
  parameter_to_api, api_parameter_to_internal, metrics_to_api, add_all, api_metrics_to_core,
}

text-pointer : (s : String) → text_of (pointer_of s) ≡ s
text-pointer s = elim (Bool-cases (s == "")) [
  | inl e ↦ ground (arith, eq_iff s "")
  | inr e ↦ ground arith
]

map-options : (os : List ParameterOption) → map option_to_api (map api_option_to_internal os) ≡ os
map-options [] = refl
map-options (o ∷ os) = ap (λ xs. o ∷ xs) (map-options os)

options-convert :
    (o : Option (List ParameterOption))
    → convert_options option_to_api (convert_options api_option_to_internal o) ≡ o
options-convert none = refl
options-convert (some os) = ap some (map-options os)

-- A parameter of the API that is converted and converted back keeps everything but its visibility, which is
-- lost.
pub parameter_to_api-api_parameter_to_internal :
    (p : ApiParameter)
    → parameter_to_api (api_parameter_to_internal p) ≡ record p { visibility = "" }
unfolding parameter_to_api api_parameter_to_internal
parameter_to_api-api_parameter_to_internal p =
    rw
      (
        text-pointer p.value,
        text-pointer p.display_name,
        text-pointer p.hint,
        options-convert p.options,
      )
      refl

module _ {V : Type 0} where
  add_all-merge : (result ms : List (Metric V)) → add_all result ms ≡ merge result ms false
  unfolding add_all merge
  add_all-merge result [] = refl
  add_all-merge result (m ∷ ms) = add_all-merge (add result m false) ms

  map-metrics : (ms : List (Metric V)) → metrics_to_api ms ≡ ms
  unfolding metrics_to_api
  map-metrics [] = refl
  map-metrics (m ∷ ms) = ap (λ xs. m ∷ xs) (map-metrics ms)

  -- The metrics of a request come back as they were given, in their order, also when names repeat.
  pub metrics_to_api-api_metrics_to_core :
      (ms : List (Metric V)) → metrics_to_api (api_metrics_to_core ms) ≡ ms
  unfolding api_metrics_to_core
  metrics_to_api-api_metrics_to_core ms =
      map-metrics (add_all [] ms) ∙ add_all-merge [] ms ∙ merge-append [] ms

-- ===== src/Converter.antt =====
-- server/converter/converter.go: the parameters, options, labels and metrics of the API's messages. A nil
-- slice is `none`.
pub mod RoundTrip
pub mod Tests
use onepanel.Base.{
  String, Bool, false, Option, none, some, List, [], ◌∷◌, map, ◌==◌, Map, insert, if◌then◌else◌,
}
use onepanel.Params.{Parameter, ParameterOption}
use onepanel.Metrics.{Metric, add}

-- `api.Parameter`; its options have the fields of `ParameterOption`
pub record ApiParameter : Type 0 where
  pub name : String
  pub value : String
  pub type : String
  pub required : Bool
  pub display_name : String
  pub hint : String
  pub visibility : String
  pub options : Option (List ParameterOption)

-- `if x != nil { y = *x }`
abbrev pub text_of : Option String → String
text_of none = ""
text_of (some s) = s

-- `if y != "" { x = &y }`
abbrev pub pointer_of : String → Option String
pointer_of s = if s == "" then none else some s

-- ParameterOptionToAPI and APIParameterOptionToInternal
abbrev pub option_to_api : ParameterOption → ParameterOption
option_to_api o = record { name = o.name; value = o.value }

abbrev pub api_option_to_internal : ParameterOption → ParameterOption
api_option_to_internal o = record { name = o.name; value = o.value }

abbrev pub convert_options :
    (ParameterOption → ParameterOption)
    → Option (List ParameterOption)
    → Option (List ParameterOption)
convert_options f none = none
convert_options f (some os) = some (map f os)

-- ParameterToAPI
unfoldable pub parameter_to_api : Parameter → ApiParameter
parameter_to_api p = record {
  name = p.name;
  value = text_of p.value;
  type = p.type;
  required = p.required;
  display_name = text_of p.display_name;
  hint = text_of p.hint;
  visibility = text_of p.visibility;
  options = convert_options option_to_api p.options;
}

-- ParametersToAPI
unfoldable pub parameters_to_api : List Parameter → List ApiParameter
unfolding parameter_to_api
parameters_to_api = map parameter_to_api

-- APIParameterToInternal, which does not read the visibility
unfoldable pub api_parameter_to_internal : ApiParameter → Parameter
api_parameter_to_internal p = record {
  name = p.name;
  value = pointer_of p.value;
  visibility = none;
  type = p.type;
  display_name = pointer_of p.display_name;
  hint = pointer_of p.hint;
  options = convert_options api_option_to_internal p.options;
  required = p.required;
}

module _ {V : Type 0} where
  -- MetricsToAPI; `api.Metric` has the fields of a metric
  unfoldable pub metrics_to_api : List (Metric V) → List (Metric V)
  metrics_to_api = map (λ m. record { name = m.name; value = m.value; format = m.format })

  -- APIMetricsToCore
  add_all : List (Metric V) → List (Metric V) → List (Metric V)
  unfolding add
  add_all result [] = result
  add_all result (m ∷ ms) =
      add_all (add result (record { name = m.name; value = m.value; format = m.format }) false) ms

  unfoldable pub api_metrics_to_core : List (Metric V) → List (Metric V)
  unfolding add_all
  api_metrics_to_core ms = add_all [] ms

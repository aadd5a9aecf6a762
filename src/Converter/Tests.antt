-- ===== src/Converter/Tests.antt =====
-- Conversions and metrics at concrete values.
use onepanel.Base.{ℕ, true, ◌≡◌, some, [], ◌∷◌}
use onepanel.Metrics.{Metric, merge}
use onepanel.Metrics.Merge.{first_of, first_of-merge}
use onepanel.Converter.{ApiParameter, parameter_to_api, api_parameter_to_internal}
use onepanel.Converter.RoundTrip.{parameter_to_api-api_parameter_to_internal}

abbrev accuracy : ℕ → Metric ℕ
accuracy n = record { name = "accuracy"; value = n; format = "%" }

abbrev parameter : ApiParameter
parameter = record {
  name = "a";
  value = "";
  type = "select.select";
  required = true;
  display_name = "A";
  hint = "";
  visibility = "internal";
  options = some (record { name = "One"; value = "1" } ∷ []);
}

first_of-merge_example :
    first_of "accuracy" (merge (accuracy 1 ∷ []) (accuracy 2 ∷ accuracy 3 ∷ []) true)
    ≡ some (3, "%")
first_of-merge_example = first_of-merge "accuracy" (accuracy 1 ∷ []) (accuracy 2 ∷ accuracy 3 ∷ [])

parameter_to_api-api_parameter_to_internal_example :
    parameter_to_api (api_parameter_to_internal parameter) ≡ record parameter { visibility = "" }
parameter_to_api-api_parameter_to_internal_example =
    parameter_to_api-api_parameter_to_internal parameter

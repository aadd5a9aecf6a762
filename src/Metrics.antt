-- ===== src/Metrics.antt =====
-- Metrics of pkg/types.go. The value of a metric, a float64, is of any type.
pub mod Merge
use onepanel.Base.{
  String, Bool, true, false, ◌&&◌, ◌||◌, List, [], ◌∷◌, ◌++◌, ◌==◌, any, map, if◌then◌else◌,
}

pub record Metric (V : Type 0) : Type 0 where
  pub name : String
  pub value : V
  pub format : String

module _ {V : Type 0} where
  -- the test of the loop of Add
  abbrev pub is_found : Metric V → Bool → Metric V → Bool
  is_found input override metric = metric.name == input.name && override

  -- the body of the loop
  unfoldable pub update_metric : Metric V → Bool → Metric V → Metric V
  update_metric input override metric =
      if is_found input override metric
      then record metric { value = input.value; format = input.format }
      else metric

  -- Add
  unfoldable pub add : List (Metric V) → Metric V → Bool → List (Metric V)
  unfolding update_metric
  add m input override =
      let updated = map (update_metric input override) m in
      if any (is_found input override) m then updated else updated ++ input ∷ []

  -- Merge
  unfoldable pub merge : List (Metric V) → List (Metric V) → Bool → List (Metric V)
  unfolding add
  merge m [] override = m
  merge m (item ∷ input) override = merge (add m item override) input override

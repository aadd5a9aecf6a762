-- ===== src/Config.antt =====
-- pkg/config_types.go and GetSystemConfig of pkg/config.go: the system configuration, its cache in a client,
-- and the options of the node pools. A nil map is `none`.
pub mod Cache
pub mod Pools
pub mod Tests
use onepanel.Base.{
  String, Bool, true, false, Option, none, some, List, [], ◌∷◌, ◌++◌, map, ◌==◌, Map, lookup,
  insert, Error, plain, panic, Result, ok, err, ◌>>=◌, if◌then◌else◌,
}
use onepanel.Params.{Parameter, ParameterOption}

-- `m[key]` of a map of texts
abbrev pub or_empty : Option String → String
or_empty none = ""
or_empty (some s) = s

abbrev pub at_key : String → Map String → String
at_key k m = or_empty (lookup k m)

-- The two values that a loader returns, the configuration also with an error.
pub record Loaded : Type 0 where
  pub config : Option (Map String)
  pub error : Option Error

-- `config[key] = string(decoded)` for each key; the write to a nil map panics, and an error ends the loop of
-- the three secrets with what was written before
unfoldable pub add_secrets :
    (String → Result String) → Map String → List String → Option (Map String) → Result Loaded
unfolding insert lookup
add_secrets decode secret [] config = ok (record { config = config; error = none })
add_secrets decode secret (k ∷ ks) config = elim (decode (at_key k secret)) [
  | err e ↦ ok (record { config = config; error = some e })
  | ok v ↦ elim config [
    | none ↦ err panic
    | some c ↦ add_secrets decode secret ks (some (insert k v c))
  ]
]

abbrev pub secret_keys : List String
secret_keys = "databaseUsername" ∷ "databasePassword" ∷ "hmac" ∷ []

-- NewSystemConfig; the decoder of base64 is the parameter
unfoldable pub new_system_config :
    (String → Result String) → Option (Map String) → Map String → Result Loaded
unfolding add_secrets
new_system_config decode values secret = add_secrets decode secret secret_keys values

-- the config map and the secret of Kubernetes
pub record Source : Type 0 where
  pub config_map : Result (Option (Map String))
  pub secret : Result (Map String)
  pub decode : String → Result String

abbrev pub failed_load : Error → Loaded
failed_load e = record { config = none; error = some e }

-- GetSystemConfig: the state is `c.systemConfig`
unfoldable pub get_system_config :
    Source → Option (Map String) → Result Loaded × Option (Map String)
unfolding new_system_config
get_system_config s (some c) = (ok (record { config = some c; error = none }), some c)
get_system_config s none = elim s.config_map [
  | err e ↦ (ok (failed_load e), none)
  | ok values ↦ elim s.secret [
    | err e ↦ (ok (failed_load e), none)
    | ok secret ↦ elim (new_system_config s.decode values secret) [
      | err e ↦ (err e, none)
      | ok l ↦ (ok l, l.config)
    ]
  ]
]

-- ClearSystemConfigCache
abbrev pub clear_system_config_cache : Option (Map String) → Option (Map String)
clear_system_config_cache _ = none

-- the resources are kept as their text
pub record NodePoolOption : Type 0 where
  pub name : String
  pub value : String
  pub resources : String

abbrev pub no_options : Error
no_options = plain "no nodePoolOptions in config"

module _ (unmarshal : String → Result (List NodePoolOption)) where
  -- NodePoolOptions; the decoder of sigs.k8s.io/yaml is the parameter
  unfoldable pub node_pool_options : Map String → Result (List NodePoolOption)
  unfolding lookup
  node_pool_options s = elim (lookup "applicationNodePoolOptions" s) [
    | none ↦ err no_options
    | some text ↦ unmarshal text
  ]

  abbrev pub as_option : NodePoolOption → ParameterOption
  as_option o = record { name = o.name; value = o.value }

  -- NodePoolOptionsAsParameters
  unfoldable pub node_pool_options_as_parameters : Map String → Result (List ParameterOption)
  unfolding node_pool_options
  node_pool_options_as_parameters s = node_pool_options s >>= λ os. ok (map as_option os)

  options_map : Map NodePoolOption → List NodePoolOption → Map NodePoolOption
  options_map m [] = m
  options_map m (o ∷ os) = options_map (insert o.value o m) os

  -- NodePoolOptionsMap
  unfoldable pub node_pool_options_map : Map String → Result (Map NodePoolOption)
  unfolding options_map insert lookup
  node_pool_options_map s = elim (lookup "applicationNodePoolOptions" s) [
    | none ↦ err no_options
    | some text ↦ unmarshal text >>= λ os. ok (options_map [] os)
  ]

  option_by_value : String → List NodePoolOption → Option NodePoolOption
  option_by_value value [] = none
  option_by_value value (o ∷ os) = if o.value == value then some o else option_by_value value os

  -- NodePoolOptionByValue
  unfoldable pub node_pool_option_by_value : Map String → String → Result (Option NodePoolOption)
  unfolding node_pool_options option_by_value
  node_pool_option_by_value s value = node_pool_options s >>= λ os. ok (option_by_value value os)

  -- the copy loop: the other parameters so far, and the last `sys-node-pool`
  take_pool : List Parameter → Option Parameter → List Parameter → List Parameter × Option Parameter
  take_pool result pool [] = (result, pool)
  take_pool result pool (p ∷ ps) =
      let skipped = take_pool result (some p) ps in
      let copied = take_pool (result ++ p ∷ []) pool ps in
      if p.name == "sys-node-pool" then skipped else copied

  finish_pool : Map String → List Parameter × Option Parameter → List Parameter × Option Error
  unfolding node_pool_options
  finish_pool s (result, none) = (result, none)
  finish_pool s (result, some p) = elim (node_pool_options s) [
    | err e ↦ (result, some e)
    | ok os ↦ (result ++ record p { options = some (map as_option os) } ∷ [], none)
  ]

  -- UpdateNodePoolOptions, which returns the list also with an error
  unfoldable pub update_node_pool_options :
      Map String → List Parameter → List Parameter × Option Error
  unfolding take_pool finish_pool
  update_node_pool_options s ps = finish_pool s (take_pool [] none ps)

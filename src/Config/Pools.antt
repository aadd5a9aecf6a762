-- ===== src/Config/Pools.antt =====
-- The options of the node pools, and the parameter that they fill.
use onepanel.Base.{
  String, Bool, true, false, not, ◌&&◌, ◌≡◌, refl, ap, Option, none, some, List, [], ◌∷◌, ◌++◌, map,
  ◌==◌, arith, Map, lookup, insert, lookup-insert, Result, ok, err, if◌then◌else◌, Option-cases,
  Result-cases, Bool-cases, inl, inr, keep,
}
use mathlib.Core.List.{append-nil, append_assoc}
use onepanel.Params.{Parameter}
use onepanel.Config.{
  NodePoolOption, node_pool_options, node_pool_options_map, options_map, option_by_value,
  node_pool_option_by_value, as_option, take_pool, finish_pool, update_node_pool_options,
}

abbrev pub is_pool : Parameter → Bool
is_pool p = p.name == "sys-node-pool"

abbrev pub not_pool : Parameter → Bool
not_pool p = not (is_pool p)

-- the last parameter of the node pool, or the one given
abbrev pub last_pool : Option Parameter → List Parameter → Option Parameter
last_pool pool [] = pool
last_pool pool (p ∷ ps) =
    let chosen = last_pool (some p) ps in
    let same = last_pool pool ps in if is_pool p then chosen else same

module _ (unmarshal : String → Result (List NodePoolOption)) where
  take_pool-keep :
      (result : List Parameter) (pool : Option Parameter) (ps : List Parameter)
      → take_pool unmarshal result pool ps ≡ (result ++ keep not_pool ps, last_pool pool ps)
  unfolding take_pool
  take_pool-keep result pool [] = rw append-nil refl
  take_pool-keep result pool (p ∷ ps) = elim (Bool-cases (is_pool p)) [
    | inl e ↦ rw (e, take_pool-keep result (some p) ps, keep) refl
    | inr e ↦
        rw (e, take_pool-keep (result ++ p ∷ []) pool ps, keep)
          (ap (λ xs. (xs, last_pool pool ps)) (append_assoc result (p ∷ []) (keep not_pool ps)))
  ]

  -- The update of the node pool's options returns the other parameters in their order. If there is no
  -- parameter `sys-node-pool`, that is all; otherwise the last one follows them with the options of the
  -- configuration, or, if these cannot be read, their error is returned without it.
  pub update_node_pool_options-keep :
      (s : Map String) (ps : List Parameter)
      → update_node_pool_options unmarshal s ps ≡ elim (last_pool none ps) [
        | none ↦ (keep not_pool ps, none)
        | some p ↦ elim (node_pool_options unmarshal s) [
          | err e ↦ (keep not_pool ps, some e)
          | ok os ↦ (
            keep not_pool ps ++ record p { options = some (map (as_option unmarshal) os) } ∷ [],
            none,
          )
        ]
      ]
  unfolding update_node_pool_options finish_pool
  update_node_pool_options-keep s ps = rw (take_pool-keep [] none ps) (finished (last_pool none ps))
    where
      finished :
          (o : Option Parameter)
          → finish_pool unmarshal s (keep not_pool ps, o) ≡ elim o [
            | none ↦ (keep not_pool ps, none)
            | some p ↦ elim (node_pool_options unmarshal s) [
              | err e ↦ (keep not_pool ps, some e)
              | ok os ↦ (
                keep not_pool ps ++ record p { options = some (map (as_option unmarshal) os) } ∷ [],
                none,
              )
            ]
          ]
      finished none = refl
      finished (some p) = refl

  abbrev pub is_missing : Option NodePoolOption → Bool
  is_missing none = true
  is_missing (some _) = false

  missing-map :
      (value : String) (m : Map NodePoolOption) (os : List NodePoolOption)
      → is_missing (lookup value (options_map unmarshal m os))
        ≡ (is_missing (option_by_value unmarshal value os) && is_missing (lookup value m))
  unfolding options_map option_by_value
  missing-map value m [] = refl
  missing-map value m (o ∷ os) =
      ground (arith, missing-map value (insert o.value o m) os, lookup-insert o.value value o m)

  -- When the map of the node pool's options is read, so is the search for a value, and it finds an option
  -- exactly when the map has one of this value.
  pub pools_agree :
      (s : Map String) (value : String) (m : Map NodePoolOption)
      → node_pool_options_map unmarshal s ≡ ok m
      → (o : Option NodePoolOption) × (node_pool_option_by_value unmarshal s value ≡ ok o)
        × (is_missing (lookup value m) ≡ is_missing o)
  unfolding node_pool_options_map node_pool_option_by_value node_pool_options
  pools_agree s value m e = elim (Option-cases (lookup "applicationNodePoolOptions" s)) [
    | inl d ↦ absurd (ground arith)
    | inr (text, d) ↦ elim (Result-cases (unmarshal text)) [
      | inr (x, g) ↦ absurd (ground arith)
      | inl (os, g) ↦
          let same : options_map unmarshal [] os ≡ m = ground arith in
          (
            option_by_value unmarshal value os,
            rw (d, g, node_pool_option_by_value, node_pool_options) refl,
            rw (← same) (ground (arith, missing-map value [] os, empty)),
          )
    ]
  ]
    where
      empty : lookup {V = NodePoolOption} value [] ≡ none
      empty = unfold lookup in refl

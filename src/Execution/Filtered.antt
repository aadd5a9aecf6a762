-- ===== src/Execution/Filtered.antt =====
-- What filterOutCustomTypesFromManifest of pkg/workflow_execution.go makes of a manifest.
use onepanel.Base.{String, Bool, true, false, ◌==◌, ◌≡◌, Option, none, some, if◌then◌else◌}
use onepanel.Mapping.{
  Value, text, mapping, Items, nil, cons, Fields, end, Found, missing, found, get,
}
use onepanel.Execution.Filter.{mapping_of, sequence_of}

-- What Argo reads of a parameter at a key: its name, its value, or the text "<value>" without one, and
-- nothing else.
unfoldable pub or_placeholder : Found → Found
or_placeholder missing = found (text "<value>")
or_placeholder (found v) = found v

unfoldable pub read_at : String → Fields → Found
unfolding or_placeholder get
read_at key fs =
    if key == "name"
    then get "name" fs
    else if key == "value"
    then or_placeholder (get "value" fs)
    else missing

abbrev is_mapping : Value → Bool
is_mapping (mapping fs) = true
is_mapping _ = false

-- The parameters that are mappings, in their order, each with what Argo reads of it; the others are left out.
pub data AreRead : Items → Items → Type 0 where
  done : AreRead nil nil
  keep :
      {fs gs : Fields} {is js : Items}
      → ((key : String) → get key gs ≡ read_at key fs)
      → AreRead is js
      → AreRead (cons (mapping fs) is) (cons (mapping gs) js)
  skip : {v : Value} {is js : Items} → is_mapping v ≡ false → AreRead is js → AreRead (cons v is) js

-- the parameters of a manifest, through spec and arguments
unfoldable pub parameters_at : Fields → Option Items
unfolding mapping_of sequence_of get
parameters_at dat = elim (mapping_of (get "spec" dat)) [
  | none ↦ none
  | some spec ↦ elim (mapping_of (get "arguments" spec)) [
    | none ↦ none
    | some arguments ↦ sequence_of (get "parameters" arguments)
  ]
]

-- every key but the one given is as it was
abbrev pub SameBut : String → Fields → Fields → Type 0
SameBut at m m' = (key : String) → get key m' ≡ (if key == at then get at m' else get key m)

-- the mapping at a key; another value counts as an empty one
unfoldable pub under : String → Fields → Fields
unfolding mapping_of get
under key m = elim (mapping_of (get key m)) [ none ↦ end | some child ↦ child ]

-- the two manifests differ at most in the parameters
pub record IsSameElsewhere (dat filtered : Fields) : Type 0 where
  pub manifest : SameBut "spec" dat filtered
  pub spec : SameBut "arguments" (under "spec" dat) (under "spec" filtered)
  pub arguments :
      SameBut "parameters"
        (under "arguments" (under "spec" dat))
        (under "arguments" (under "spec" filtered))

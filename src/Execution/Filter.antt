-- ===== src/Execution/Filter.antt =====
-- filterOutCustomTypesFromManifest of pkg/workflow_execution.go: what Argo reads of the parameters of a
-- manifest. The manifest is a decoded tree; the decoder and the encoder are parameters.
use onepanel.Base.{String, Bool, ◌||◌, ◌==◌, Option, none, some, Result, ok, ◌>>=◌, if◌then◌else◌}
use onepanel.Mapping.{
  null, text, number, flag, seq, mapping, Items, nil, cons, Fields, end, field, Found, missing,
  found, get, put,
}

-- `x, ok := m[key]` and `m, ok := x.(map[interface{}]interface{})`
unfoldable pub mapping_of : Found → Option Fields
mapping_of missing = none
mapping_of (found (mapping fs)) = some fs
mapping_of (found null) = none
mapping_of (found (text s)) = none
mapping_of (found (number n)) = none
mapping_of (found (flag b)) = none
mapping_of (found (seq is)) = none

unfoldable pub sequence_of : Found → Option Items
sequence_of missing = none
sequence_of (found (seq is)) = some is
sequence_of (found null) = none
sequence_of (found (text s)) = none
sequence_of (found (number n)) = none
sequence_of (found (flag b)) = none
sequence_of (found (mapping fs)) = none

-- a parameter without a value gets the text "<value>"
unfoldable pub with_value : Fields → Found → Fields
unfolding put
with_value fs missing = put "value" (text "<value>") fs
with_value fs (found v) = fs

abbrev pub is_kept : String → Bool
is_kept key = key == "name" || key == "value"

-- the deletion of the keys other than name and value
unfoldable pub kept_fields : Fields → Fields
kept_fields end = end
kept_fields (field k v fs) = let rest = kept_fields fs in if is_kept k then field k v rest else rest

-- the loop over the parameters: what is not a mapping is left out
unfoldable pub kept_parameters : Items → Items
unfolding with_value kept_fields get
kept_parameters nil = nil
kept_parameters (cons (mapping fs) is) =
    cons (mapping (kept_fields (with_value fs (get "value" fs)))) (kept_parameters is)
kept_parameters (cons null is) = kept_parameters is
kept_parameters (cons (text s) is) = kept_parameters is
kept_parameters (cons (number n) is) = kept_parameters is
kept_parameters (cons (flag b) is) = kept_parameters is
kept_parameters (cons (seq js) is) = kept_parameters is

-- the three levels, each of which is left alone when it is missing or of another kind
unfoldable pub filter_arguments : Fields → Option Fields
unfolding sequence_of kept_parameters get put
filter_arguments arguments = elim (sequence_of (get "parameters" arguments)) [
  | none ↦ none
  | some is ↦ some (put "parameters" (seq (kept_parameters is)) arguments)
]

unfoldable pub filter_under : String → (Fields → Option Fields) → Fields → Option Fields
unfolding mapping_of get put
filter_under key f m = elim (mapping_of (get key m)) [
  | none ↦ none
  | some child ↦ elim (f child) [ none ↦ none | some changed ↦ some (put key (mapping changed) m) ]
]

unfoldable pub filter_data : Fields → Option Fields
unfolding filter_under filter_arguments
filter_data = filter_under "spec" (filter_under "arguments" filter_arguments)

unfoldable pub filter_out_custom_types_from_manifest :
    (String → Result Fields) → (Fields → Result String) → String → Result String
unfolding filter_data
filter_out_custom_types_from_manifest unmarshal marshal manifest = unmarshal manifest >>= λ dat.
    elim (filter_data dat) [ none ↦ ok manifest | some filtered ↦ marshal filtered ]

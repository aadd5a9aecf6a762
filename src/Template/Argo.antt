-- ===== src/Template/Argo.antt =====
-- The copies of a workflow template in Argo: how one is made from a version, and how they are found by
-- their labels (pkg/workflow_template.go, pkg/workflow_template_types.go).
use onepanel.Base.{
  ℕ, zero, suc, ℤ, pos, String, Bool, false, ◌&&◌, ◌==◌, ◌⊕◌, none, some, List, [], ◌∷◌, Map,
  lookup, insert, keep, Result, ok, err, plain, panic, format_nat, format_int, ◌>>=◌,
}
use onepanel.Base.State
use onepanel.Base.State.{M}
use onepanel.Labels.{merge_labels_prefix, tag_prefix}
use onepanel.Workspace.Uid.{generate_uid}
use onepanel.Mapping.{
  text, number, mapping, seq, Items, nil, cons, end, field, Found, missing, found, get, put,
}
use onepanel.Template.Store.{Store, ArgoCopy, Template, Env, list_copies}

abbrev pub uid_label : String
uid_label = "onepanel.io/workflow-template-uid"

abbrev pub version_label : String
version_label = "onepanel.io/version"

abbrev pub latest_label : String
latest_label = "onepanel.io/version-latest"

-- WrapSpec: an error of the second codec leaves no bytes and no error
unfoldable pub wrap_spec : Env → String → Result String
wrap_spec env manifest = do
  spec ← env.unmarshal manifest
  elim (env.marshal (mapping (field "metadata" (mapping end) (field "spec" (mapping spec) end)))) [
    | ok bytes ↦ ok bytes
    | err _ ↦ ok ""
  ]

-- GenerateUID, which sets the field `UID`
unfoldable pub set_uid : Template → Result Template
unfolding generate_uid
set_uid t = do uid ← generate_uid t.name 30; ok (record t { uid = uid })

-- the labels of a copy, before those of the template are merged in
abbrev pub base_labels : String → ℤ → Map String
base_labels uid version =
    ("onepanel.io/workflow-template", uid)
    ∷ (uid_label, uid)
    ∷ (version_label, format_int version)
    ∷ (latest_label, "true")
    ∷ []

-- the copy of a version, with the template after `GenerateUID`
unfoldable pub create_argo_workflow_template :
    Env → String → Template → ℤ → Result (ArgoCopy × Template)
unfolding wrap_spec set_uid merge_labels_prefix format_int
create_argo_workflow_template env namespace t version = do
  bytes ← wrap_spec env t.manifest
  spec ← env.to_argo bytes
  named ← set_uid t
  ok (
    record {
      name = (named.uid ⊕ "-v") ⊕ format_int version;
      namespace = namespace;
      labels = merge_labels_prefix (base_labels named.uid version) t.labels tag_prefix;
      annotations = [];
      spec = spec;
    },
    named,
  )

-- a version of a request: `latest`, or a number as a text
pub data Wanted : Type 0 where
  latest : Wanted
  exactly : String → Wanted

-- `"latest"` at 0, otherwise the number
unfoldable pub version_as_string : ℤ → Wanted
unfolding format_int
version_as_string (pos zero) = latest
version_as_string (pos (suc n)) = exactly (format_nat (suc n))
version_as_string (ℤ.negsuc n) = exactly (format_int (ℤ.negsuc n))

abbrev has_label : String → String → Map String → Bool
has_label key value m = elim (lookup key m) [ none ↦ false | some v ↦ v == value ]

-- the label selector of a list request
unfoldable pub selects : String → String → Wanted → ArgoCopy → Bool
unfolding lookup
selects namespace uid latest c =
    c.namespace == namespace
    && has_label uid_label uid c.labels
    && has_label latest_label "true" c.labels
selects namespace uid (exactly v) c =
    c.namespace == namespace
    && has_label uid_label uid c.labels
    && has_label version_label v c.labels

unfoldable pub only_copy : List ArgoCopy → Result ArgoCopy
only_copy [] = err (plain "not found")
only_copy (c ∷ []) = ok c
only_copy (c ∷ d ∷ cs) = err (plain "not unique result")

unfoldable pub get_argo_workflow_template : Env → String → String → Wanted → M Store ArgoCopy
unfolding only_copy selects State.lift
get_argo_workflow_template env namespace uid version s = elim (env.fails list_copies) [
  | none ↦ (only_copy (keep (selects namespace uid version) s.copies), s)
  | some e ↦ (err e, s)
]

-- the loop of GetParametersKeyString: the parameters that have a name, each with its position
unfoldable pub key_strings : Env → ℕ → Items → Map String → Map String
unfolding get put insert
key_strings env index nil result = result
key_strings env index (cons (mapping fs) is) result =
    key_strings env (suc index) is (elim (get "name" fs) [
      | found (text key) ↦ elim (env.marshal (mapping (put "order" (number index) fs))) [
        | ok bytes ↦ insert key bytes result
        | err _ ↦ result
      ]
      | _ ↦ result
    ])
key_strings env index (cons v is) result = key_strings env (suc index) is result

-- Of an empty list it deletes the mapping `arguments` from the root by itself as a key, which Go
-- cannot hash.
unfoldable pub strings_of : Env → Found → Result (Map String)
unfolding key_strings
strings_of env (found (seq nil)) = err panic
strings_of env (found (seq (cons v is))) = ok (key_strings env 0 (cons v is) [])
strings_of env other = ok []

unfoldable pub parameters_of : Found → Found
unfolding get
parameters_of (found (mapping arguments)) = get "parameters" arguments
parameters_of other = missing

unfoldable pub get_parameters_key_string : Env → String → Result (Map String)
unfolding strings_of parameters_of get
get_parameters_key_string env manifest = do
  root ← env.unmarshal manifest
  strings_of env (parameters_of (get "arguments" root))

-- ===== src/Template/Get.antt =====
-- GetWorkflowTemplate of pkg/workflow_template.go, with the options of the node pools.
use onepanel.Base.{
  ℕ, zero, suc, ℤ, pos, negsuc, String, Bool, true, false, not, ◌&&◌, ◌==◌, Option, none, some,
  List, [], ◌∷◌, lookup, Error, user_error, panic, plain, Result, ok, err, if◌then◌else◌, nat_eq,
  format_nat, parse_int,
}
use onepanel.Base
use onepanel.Base.State
use onepanel.Base.State.{M, ◌>>=◌}
use onepanel.Params.{Parameter, ParameterOption}
use onepanel.Template.Store.{
  Store, TemplateRow, VersionRow, Template, Env, select_template, select_versions,
}
use onepanel.Template.Table.{is_current}
use onepanel.Template.Argo.{
  Wanted, latest, exactly, version_as_string, version_label, get_argo_workflow_template,
}
use onepanel.Template.Version.{no_rows, found_row}

-- the options of one parameter; `param.Options[0]` panics when there are none
unfoldable pub replace_options : List ParameterOption → Parameter → Result Parameter
replace_options options p =
    let pool = record p { options = some options } in
    if p.type == "select.nodepool"
    then elim p.value [
      | none ↦ ok pool
      | some v ↦
          if v == "default"
          then elim options [ [] ↦ err panic | o ∷ os ↦ ok (record pool { value = some o.value }) ]
          else ok pool
    ]
    else ok p

unfoldable pub replace_each : List ParameterOption → List Parameter → Result (List Parameter)
unfolding replace_options
replace_each options [] = ok []
replace_each options (p ∷ ps) =
    let rest = replace_each options ps in
    Base.◌>>=◌ (replace_options options p) λ q. Base.◌>>=◌ rest λ qs. ok (q ∷ qs)

-- replaceSysNodePoolOptions
unfoldable pub replace_sys_node_pool_options : Env → List Parameter → Result (List Parameter)
unfolding replace_each
replace_sys_node_pool_options env ps =
    Base.◌>>=◌ env.pool_options (λ options. replace_each options ps)

-- wtv.is_latest, or wtv.version = ?
unfoldable pub is_wanted : ℤ → VersionRow → Bool
is_wanted (pos zero) v = v.is_latest
is_wanted (pos (suc n)) v = nat_eq v.version (suc n)
is_wanted (negsuc n) v = v.is_latest

unfoldable pub is_text : Wanted → VersionRow → Bool
unfolding format_nat
is_text latest v = v.is_latest
is_text (exactly s) v = format_nat v.version == s

-- the first version of a template that passes a test
unfoldable pub find_version : (VersionRow → Bool) → ℕ → List VersionRow → Option VersionRow
find_version test id [] = none
find_version test id (v ∷ vs) =
    if nat_eq v.template_id id && test v then some v else find_version test id vs

-- the first row of the join of the templates with their versions
unfoldable pub find_joined :
    (TemplateRow → Bool)
    → (VersionRow → Bool)
    → List VersionRow
    → List TemplateRow
    → Option (TemplateRow × VersionRow)
unfolding find_version
find_joined of_template of_version vs [] = none
find_joined of_template of_version vs (t ∷ ts) =
    let rest = find_joined of_template of_version vs ts in
    if of_template t
    then elim (find_version of_version t.id vs) [ some v ↦ some (t, v) | none ↦ rest ]
    else rest

-- WHERE wt.name = ? AND wt.is_archived = false AND wt.namespace = ?
unfoldable pub is_called : String → String → TemplateRow → Bool
is_called namespace name t = t.namespace == namespace && t.name == name && not t.is_archived

-- getWorkflowTemplateVersionDB
unfoldable pub get_workflow_template_version_db :
    Env → String → String → Wanted → M Store VersionRow
unfolding find_joined is_called is_text found_row
get_workflow_template_version_db env namespace name wanted s = elim (env.fails select_versions) [
  | some e ↦ (err e, s)
  | none ↦ elim (find_joined (is_called namespace name) (is_text wanted) s.versions s.templates) [
    | none ↦ (err no_rows, s)
    | some (t, v) ↦ (ok v, s)
  ]
]

-- strconv.ParseInt(argoWft.Labels[label.Version], 10, 64)
unfoldable pub parse_label : Option String → Result ℤ
unfolding parse_int
parse_label none = parse_int ""
parse_label (some s) = parse_int s

-- the struct that the columns of the join are scanned into
unfoldable pub scanned : TemplateRow → VersionRow → Template
scanned t v = record {
  id = t.id;
  uid = t.uid;
  name = t.name;
  manifest = v.manifest;
  version = pos v.version;
  version_id = v.id;
  is_latest = false;
  is_archived = t.is_archived;
  is_system = false;
  labels = t.labels;
  parameters = [];
  description = "";
  resource = none;
  resource_uid = none;
  copy = none;
}

-- what getWorkflowTemplate loads after the row was found
unfoldable pub load_template :
    Env → String → ℤ → TemplateRow → VersionRow → M Store (Option Template)
load_template env namespace version t v = do
  copy ← get_argo_workflow_template env namespace t.uid (version_as_string version)
  number ← State.lift (parse_label (lookup version_label copy.labels))
  w ← get_workflow_template_version_db env namespace t.name (version_as_string version)
  parameters ← State.lift (replace_sys_node_pool_options env w.parameters)
  State.pure
      (some (record (scanned t v) { copy = some copy; version = number; parameters = parameters }))

-- getWorkflowTemplate: of the latest version at 0 and below, otherwise of the one given; nothing if there
-- is none
unfoldable pub get_workflow_template : Env → String → String → ℤ → M Store (Option Template)
unfolding find_joined is_current is_wanted load_template
get_workflow_template env namespace uid version s = elim (env.fails select_template) [
  | some e ↦ (err e, s)
  | none ↦
      elim (find_joined (is_current namespace uid) (is_wanted version) s.versions s.templates) [
        | none ↦ (ok none, s)
        | some (t, v) ↦ load_template env namespace version t v s
      ]
]

-- GetWorkflowTemplate: each error is replaced
unfoldable pub reported : Result (Option Template) × Store → Result Template × Store
reported (err e, s) = (err (user_error Base.unknown "Unknown error."), s)
reported (ok none, s) = (err (user_error Base.not_found "Workflow template not found."), s)
reported (ok (some t), s) = (ok t, s)

unfoldable pub get : Env → String → String → ℤ → M Store Template
unfolding reported get_workflow_template
get env namespace uid version s = reported (get_workflow_template env namespace uid version s)

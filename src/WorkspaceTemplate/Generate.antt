-- ===== src/WorkspaceTemplate/Generate.antt =====
-- The workflow template that a workspace template stands for.
use onepanel.Base.{
  pos, String, false, ◌==◌, Option, none, some, List, [], ◌∷◌, map, Map, Error, user_error,
  invalid_argument, not_found, already_exists, unknown, unauthenticated, permission_denied, plain,
  foreign, panic, Result, ok, err, ◌>>=◌, if◌then◌else◌,
}
use onepanel.Params.{Parameter}
use onepanel.Spec.Defs.{
  WorkspaceSpec, generate_arguments, generate_runtime_parameters, create_stateful_set,
}
use onepanel.Spec.Tasks.{PostExecution, unmarshal_workflow_template}
use onepanel.Workspace.Update.{message}
use onepanel.Template.Store
use onepanel.Template.Get.{replace_sys_node_pool_options}
use onepanel.Execution.Submitted.{after_literal, replace_placeholders}
use onepanel.WorkspaceTemplate.Store.{WorkspaceTemplate, Env}

-- strings.Replace(s, old, new, -1), of a text that is not empty
unfoldable pub replace_all : String → String → String → String
unfolding replace_placeholders after_literal
replace_all old new = replace_placeholders (after_literal old) new 0

-- an error of the argument speaks of the workspace
unfoldable pub for_workspace : Error → Error
unfolding replace_all
for_workspace (user_error invalid_argument m) =
    user_error invalid_argument (replace_all "{{workflow." "{{workspace." m)
for_workspace (user_error not_found m) = user_error not_found m
for_workspace (user_error already_exists m) = user_error already_exists m
for_workspace (user_error unknown m) = user_error unknown m
for_workspace (user_error unauthenticated m) = user_error unauthenticated m
for_workspace (user_error permission_denied m) = user_error permission_denied m
for_workspace (plain m) = plain m
for_workspace (foreign m) = foreign m
for_workspace panic = panic

-- the spec with the options of its own parameters replaced
unfoldable pub with_options : Env → WorkspaceSpec → Result WorkspaceSpec
unfolding replace_sys_node_pool_options
with_options env spec = elim spec.arguments [
  | none ↦ ok spec
  | some ps ↦
      (replace_sys_node_pool_options env.inner ps >>= λ qs.
      ok (record spec { arguments = some qs }))
]

abbrev generated : String → String → Store.Template
generated name manifest = record {
  id = 0;
  uid = "";
  name = name;
  manifest = manifest;
  version = pos 0;
  version_id = 0;
  is_latest = false;
  is_archived = false;
  is_system = false;
  labels = [];
  parameters = [];
  description = "";
  resource = none;
  resource_uid = none;
  copy = none;
}

-- generateWorkspaceTemplateWorkflowTemplate
unfoldable pub generate_workspace_template_workflow_template :
    Env → WorkspaceTemplate → Result Store.Template
unfolding with_options generate_arguments create_stateful_set unmarshal_workflow_template
    replace_all message
generate_workspace_template_workflow_template env t =
    if t.manifest == ""
    then err (user_error invalid_argument "Workspace template manifest is required")
    else (env.config >>= λ config. parsed (env.parse_spec t.manifest) >>= λ pair.
        with_options env pair.0 >>= λ spec.
        generate_arguments spec config env.inner.pool_options >>= λ full.
        unmarshal_workflow_template env.parse_item (create_stateful_set full).1 pair.1 >>= λ plan.
        env.print (create_stateful_set full).1 (create_stateful_set full).0 plan >>= λ manifest.
        ok (
          generated t.name
            (replace_all "{{workspace.parameters." "{{workflow.parameters." manifest)))
  where
    parsed :
        Result (WorkspaceSpec × Option PostExecution)
        → Result (WorkspaceSpec × Option PostExecution)
    parsed (ok p) = ok p
    parsed (err e) = err (user_error invalid_argument (message e))

-- the parameters of a manifest with the runtime values; of a name the last value counts
unfoldable pub runtime_value : List Parameter → String → Option String
runtime_value [] name = none
runtime_value (p ∷ ps) name =
    let rest = runtime_value ps name in
    elim rest [ some v ↦ some v | none ↦ if p.name == name then p.value else none ]

unfoldable pub inject_value : List Parameter → Parameter → Parameter
unfolding runtime_value
inject_value runtime p = elim (runtime_value runtime p.name) [
  | none ↦ p
  | some v ↦ record p { value = some v }
]

-- InjectRuntimeParameters
unfoldable pub inject_runtime_parameters :
    Env → Map String → WorkspaceTemplate → Result WorkspaceTemplate
unfolding inject_value generate_runtime_parameters
inject_runtime_parameters env config t = elim t.workflow [
  | none ↦ err (plain "workflow Template is nil for workspace template")
  | some workflow ↦
      (env.decode_manifest workflow.manifest >>= λ opened.
      generate_runtime_parameters config env.inner.pool_options >>= λ runtime.
      env.encode_manifest (map (inject_value runtime) opened.0) opened.1 >>= λ manifest.
      ok (record t { workflow = some (record workflow { manifest = manifest }) }))
]

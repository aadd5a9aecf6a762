-- ===== src/Workspace/Update.antt =====
-- GetWorkspace, injectWorkspaceSystemParameters and updateWorkspace of pkg/workspace.go, and the
-- operations that updateWorkspace serves: update, pause, resume, delete and archive.
use onepanel.Base.{
  String, true, false, Option, none, some, List, [], ◌∷◌, ◌++◌, ◌==◌, ◌⊕◌, Map, lookup, Error,
  user_error, plain, foreign, panic, not_found, unknown, Result, ok, err, is_nil, if◌then◌else◌,
}
use onepanel.Params.{Parameter, named, merge_workspace_parameters}
use onepanel.Workspace.Phase.{
  Row, WorkspaceStatus, status_of, updating, pausing, launching, terminating,
  workspace_status_to_field_map, apply_fields,
}
use onepanel.Workspace.World.{
  Env, M, ArgoTemplate, WorkflowTemplate, WorkspaceTemplate, TemplateKey, ◌>>=◌, ◌>>◌, pure, raise,
  lift,
}
use onepanel.Workspace.Table.{select_live, is_live, update_rows, set_parameters}

unfoldable pub message : Error → String
message (user_error c m) = m
message (plain m) = m
message (foreign m) = m
message panic = ""

-- `return nil, util.NewUserError(code, text)` in place of a callee's error
abbrev pub replace_error {ℓ} : {A : Type ℓ} → (Error → Error) → Result A → Result A
replace_error f (ok a) = ok a
replace_error f (err e) = err (f e)

-- the configuration and the runtime parameters of a row that was read
abbrev pub load_row : Env → Option Row → Result (Option Row)
load_row env none = ok none
load_row env (some r) = elim env.config [
  | err e ↦ err e
  | ok c ↦ elim env.inject_error [ some e ↦ err e | none ↦ ok (some r) ]
]

-- GetWorkspace: the row that is not terminated, or nothing
unfoldable pub get_workspace : Env → String → String → M (Option Row)
unfolding select_live
get_workspace env namespace uid w = (
  elim env.select_error [ some e ↦ err e | none ↦ load_row env (select_live namespace uid w.rows) ],
  w,
)

abbrev pub host_of : String → String → String → String
host_of uid namespace domain = uid ⊕ "--" ⊕ namespace ⊕ "." ⊕ domain

abbrev pub system_parameters : String → String → String → List Parameter
system_parameters action resource host =
    named "sys-workspace-action" (some action)
    ∷ named "sys-resource-action" (some resource)
    ∷ named "sys-host" (some host)
    ∷ []

-- The dereference of `config.Domain()` panics when the key is missing.
unfoldable pub inject_workspace_system_parameters :
    String → String → List Parameter → String → String → Map String → Result (List Parameter)
unfolding merge_workspace_parameters
inject_workspace_system_parameters namespace uid parameters action resource config =
    elim (lookup "ONEPANEL_DOMAIN" config) [
      | none ↦ err panic
      | some domain ↦ ok (
          merge_workspace_parameters parameters
            (system_parameters action resource (host_of uid namespace domain)) false)
    ]

abbrev pub stateful_set_resource : String
stateful_set_resource = "stateful-set-resource"

-- the loop over `Spec.Templates`
unfoldable pub add_runtime_fields_to_templates :
    (String → Result String) → List ArgoTemplate → Result (List ArgoTemplate)
add_runtime_fields_to_templates add [] = ok []
add_runtime_fields_to_templates add (t ∷ ts) =
    let rest = add_runtime_fields_to_templates add ts in
    elim (t.name == stateful_set_resource) [
      | true ↦ elim (add t.manifest) [
        | err e ↦ err e
        | ok m ↦ elim rest [ err e ↦ err e | ok ts' ↦ ok (record t { manifest = m } ∷ ts') ]
      ]
      | false ↦ elim rest [ err e ↦ err e | ok ts' ↦ ok (t ∷ ts') ]
    ]

-- CreateWorkflowExecution submits the workflow to Argo
unfoldable pub create_workflow_execution :
    Env → String → List Parameter → WorkflowTemplate → M (Unit {0})
create_workflow_execution env namespace parameters template w = elim env.execution_error [
  | some e ↦ (err e, w)
  | none ↦ (
    ok tt,
    record w {
      executions =
          w.executions
          ++ record { namespace = namespace; parameters = parameters; template = template } ∷ [];
    },
  )
]

-- an UPDATE or INSERT
unfoldable pub exec : Env → (List Row → List Row) → M (Unit {0})
exec env f w = elim env.exec_error [
  | some e ↦ (err e, w)
  | none ↦ (ok tt, record w { rows = f w.rows })
]

abbrev pub workspace_not_found : Error
workspace_not_found = user_error not_found "Workspace not found."

-- `workspaceTemplate.WorkflowTemplate.UID` panics on a nil template
abbrev pub template_key : Option WorkspaceTemplate → Result TemplateKey
template_key none = err panic
template_key (some t) = elim t.workflow_template [ none ↦ err panic | some k ↦ ok k ]

abbrev pub require_row : Option Row → M Row
require_row none = raise workspace_not_found
require_row (some r) = pure r

abbrev pub map_error : {A : Type 0} → (Error → Error) → M A → M A
map_error f m w = (replace_error f (m w).0, (m w).1)

-- what the template of the submitted workflow is built from
unfoldable pub prepare_template :
    Env → String → Row → List Parameter → Map String → Result WorkflowTemplate
unfolding add_runtime_fields_to_templates
prepare_template env namespace r parameters config =
    elim (env.workspace_template namespace (env.template_uid r.template_id) r.template_version) [
      | err e ↦ err (user_error not_found "Workspace template not found.")
      | ok template ↦ elim (template_key template) [
        | err e ↦ err e
        | ok key ↦ elim (env.workflow_template namespace key.uid key.version) [
          | err e ↦ err (user_error not_found "Error with getting workflow template.")
          | ok wt ↦
              elim (add_runtime_fields_to_templates
                (λ m. env.add_runtime_fields m parameters r.capture_node config) wt.templates) [
                  | err e ↦ err e
                  | ok ts ↦ ok (record wt { templates = ts })
                ]
        ]
      ]
    ]

-- the rows after the UPDATE; the parameters are written if any are passed in
unfoldable pub update_statement :
    Env → String → String → WorkspaceStatus → List Parameter → List Parameter → List Row → List Row
unfolding update_rows is_live workspace_status_to_field_map apply_fields
update_statement env namespace uid status parameters merged =
    update_rows (is_live namespace uid) (λ r.
      let changed = apply_fields (workspace_status_to_field_map status env.now) r in
      if is_nil parameters then changed else set_parameters merged changed)

unfoldable pub update_workspace :
    Env → String → String → String → String → WorkspaceStatus → List Parameter → M (Unit {0})
unfolding get_workspace inject_workspace_system_parameters prepare_template
    create_workflow_execution exec update_statement ◌>>=◌ ◌>>◌ lift raise pure message
    merge_workspace_parameters
update_workspace env namespace uid action resource status parameters = do
  found ← map_error (λ e. user_error unknown (message e)) (get_workspace env namespace uid)
  r ← require_row found
  config ← lift env.config
  let merged = merge_workspace_parameters r.parameters parameters true
  let with_uid = merged ++ named "sys-uid" (some uid) ∷ []
  injected ←
      lift (inject_workspace_system_parameters namespace r.uid with_uid action resource config)
  template ← lift (prepare_template env namespace r injected config)
  create_workflow_execution env namespace injected template
  exec env (update_statement env namespace uid status parameters merged)

module _ (env : Env) (namespace uid : String) where
  unfoldable pub update : List Parameter → M (Unit {0})
  unfolding update_workspace
  update = update_workspace env namespace uid "update" "apply" (status_of updating)

  unfoldable pub pause : M (Unit {0})
  unfolding update_workspace
  pause = update_workspace env namespace uid "pause" "delete" (status_of pausing) []

  unfoldable pub resume : List Parameter → M (Unit {0})
  unfolding update_workspace
  resume = update_workspace env namespace uid "create" "apply" (status_of launching)

  unfoldable pub delete_workspace : M (Unit {0})
  unfolding update_workspace
  delete_workspace = update_workspace env namespace uid "delete" "delete" (status_of terminating) []

  unfoldable pub archive : List Parameter → M (Unit {0})
  unfolding update_workspace
  archive = update_workspace env namespace uid "delete" "delete" (status_of terminating)

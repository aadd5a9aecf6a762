-- ===== src/Workspace/Create.antt =====
-- CreateWorkspace and StartWorkspace of pkg/workspace.go.
use onepanel.Base.{
  ℕ, String, Bool, true, false, Option, none, some, List, [], ◌∷◌, ◌++◌, map, Map, lookup, insert,
  Error, user_error, plain, panic, not_found, unknown, already_exists, invalid_argument, Result, ok,
  err, nat_eq, if◌then◌else◌, contains,
}
use onepanel.Params.{Parameter, named, merge_workspace_parameters, get_parameter_value}
use onepanel.Workspace.Phase.{Row, status_of, launching, failed_to_launch}
use onepanel.Workspace.World.{
  Env, M, WorkflowTemplate, WorkspaceTemplate, TemplateKey, ◌>>=◌, ◌>>◌, pure, lift, require,
}
use onepanel.Workspace.Table.{update_rows, launch_row, has_id}
use onepanel.Workspace.Update.{
  message, map_error, get_workspace, inject_workspace_system_parameters,
  add_runtime_fields_to_templates, create_workflow_execution, exec,
}
use onepanel.Workspace.Uid.{generate_workspace_uid}

-- the workspace of a request: a name, parameters and a template
pub record NewWorkspace : Type 0 where
  pub name : String
  pub parameters : List Parameter
  pub template_uid : String
  pub template_version : ℕ
  pub labels : Map String
  pub capture_node : Bool

-- runtimeParametersMap, and the loop that overrides the template's arguments; a nil value is skipped
unfoldable pub runtime_map : List Parameter → Map (Option String)
unfolding insert
runtime_map ps = fill [] ps
  where
    fill : Map (Option String) → List Parameter → Map (Option String)
    fill m [] = m
    fill m (p ∷ qs) = fill (insert p.name p.value m) qs

abbrev pub override_argument : Map (Option String) → Parameter → Parameter
override_argument m p = elim (lookup p.name m) [
  | none ↦ p
  | some v ↦ elim v [ none ↦ p | some s ↦ record p { value = some s } ]
]

unfoldable pub override_arguments : Map (Option String) → List Parameter → List Parameter
override_arguments m = map (override_argument m)

-- the error of a failed INSERT or UPDATE
unfoldable pub database_error : Error → Error
unfolding message
database_error e =
    user_error
      (if contains (message e) "invalid input syntax for type json"
        then invalid_argument
        else unknown)
      (message e)

-- `if err != nil || !valid { return NewUserError(InvalidArgument, err.Error()) }`: it panics when the
-- fields are not valid and there is no error
abbrev pub validated : Result Bool → Result (Unit {0})
validated (ok true) = ok tt
validated (ok false) = err panic
validated (err e) = err (user_error invalid_argument (message e))

abbrev pub found_template : Result (Option WorkspaceTemplate) → Result WorkspaceTemplate
found_template (ok (some t)) = ok t
found_template (ok none) = err (user_error not_found "Workspace template not found.")
found_template (err _) = err (user_error not_found "Workspace template not found.")

abbrev pub key_of : WorkspaceTemplate → Result TemplateKey
key_of t = elim t.workflow_template [
  | none ↦ err (plain "workspace.WorkspaceTemplate.WorkflowTemplate is nil")
  | some k ↦ ok k
]

abbrev pub workflow_of : Result WorkflowTemplate → Result WorkflowTemplate
workflow_of (ok t) = ok t
workflow_of (err _) = err (user_error not_found "Error with getting workflow template.")

-- createWorkspace and startWorkspace, up to their database statement
unfoldable pub launch : Env → String → WorkspaceTemplate → List Parameter → Bool → M (Unit {0})
unfolding runtime_map override_arguments add_runtime_fields_to_templates create_workflow_execution
    ◌>>=◌ ◌>>◌ lift
launch env namespace template parameters capture_node = do
  key ← lift (key_of template)
  config ← lift env.config
  wt ← lift (workflow_of (env.workflow_template namespace key.uid key.version))
  runtime ← lift (env.runtime_parameters config)
  let arguments = override_arguments (runtime_map runtime) wt.arguments
  templates ← lift (
      add_runtime_fields_to_templates (λ m. env.add_runtime_fields m parameters capture_node config)
        wt.templates)
  create_workflow_execution env namespace parameters
      (record { arguments = arguments; templates = templates })

-- the common part of both: the system parameters, the check of the fields and the template
unfoldable pub prepare : Env → String → Row → String → M (List Parameter × WorkspaceTemplate)
unfolding inject_workspace_system_parameters get_parameter_value ◌>>=◌ ◌>>◌ lift pure require
    merge_workspace_parameters
prepare env namespace r template_uid = do
  config ← lift env.config
  injected ←
      lift (inject_workspace_system_parameters namespace r.uid r.parameters "create" "apply" config)
  let parameters = injected ++ named "sys-uid" (some r.uid) ∷ []
  lift (elim (get_parameter_value "sys-host" parameters) [
    | none ↦ err (plain "sys-host parameter not found")
    | some _ ↦ ok tt
  ])
  lift (validated (env.validate (record r { parameters = parameters })))
  template ←
      lift (found_template (env.workspace_template namespace template_uid r.template_version))
  pure (parameters, template)

abbrev pub new_row : Env → String → String → NewWorkspace → Row
new_row env namespace uid n = record {
  id = env.new_id;
  namespace = namespace;
  uid = uid;
  name = n.name;
  status = record (status_of launching) { started_at = some env.now };
  modified_at = none;
  parameters = n.parameters;
  template_id = 0;
  template_version = n.template_version;
  labels = n.labels;
  capture_node = n.capture_node;
}

abbrev pub no_row : Option Row → Result (Unit {0})
no_row none = ok tt
no_row (some _) = err (user_error already_exists "Workspace already exists.")

unfoldable pub create_workspace : Env → String → NewWorkspace → M Row
unfolding exec ◌>>=◌ ◌>>◌ lift pure
create_workspace env namespace n = do
  uid ← lift (generate_workspace_uid n.name)
  existing ← get_workspace env namespace uid
  lift (no_row existing)
  let r = new_row env namespace uid n
  (parameters, template) ← prepare env namespace r n.template_uid
  launch env namespace template parameters n.capture_node
  let inserted = record r { template_id = template.id; template_version = template.version }
  map_error database_error (exec env (λ rs. rs ++ inserted ∷ []))
  pure inserted

abbrev pub may_start : Row → Bool
may_start r = elim r.status.phase [ failed_to_launch ↦ true | _ ↦ nat_eq r.id 0 ]

unfoldable pub start_workspace : Env → String → Row → M (Unit {0})
unfolding exec ◌>>=◌ ◌>>◌ lift require
start_workspace env namespace r = do
  require (may_start r) (plain "unable to start a workspace with phase")
  (parameters, template) ← prepare env namespace r (env.template_uid r.template_id)
  launch env namespace template parameters r.capture_node
  map_error database_error (exec env (update_rows (has_id r.id) (launch_row env.now)))

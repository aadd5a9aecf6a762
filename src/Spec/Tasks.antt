-- ===== src/Spec/Tasks.antt =====
-- The tasks and templates of the workflow of a workspace: unmarshalWorkflowTemplate of
-- pkg/workspace_template.go.
use onepanel.Base.{String, ◌⊕◌, Option, none, some, List, [], ◌∷◌, ◌++◌, Result, ok, ◌>>=◌}
use onepanel.Spec.Defs.{WorkspaceSpec, claim_items, all_mounts}

-- A task of the DAG. The text of `when` is that of its actions; a task with none runs always.
pub record Task : Type 0 where
  pub name : String
  pub template : String
  pub dependencies : List String
  pub actions : List String
  pub arguments : List (String × String)
  pub items : List String

abbrev action_is : String → String
action_is a = "{{workflow.parameters.sys-workspace-action}} == " ⊕ a

-- the field `When`
unfoldable pub when_text : List String → String
when_text [] = ""
when_text (a ∷ []) = action_is a
when_text (a ∷ b ∷ bs) = (action_is a ⊕ " || ") ⊕ when_text (b ∷ bs)

abbrev task : String → String → List String → List String → Task
task name template dependencies actions = record {
  name = name;
  template = template;
  dependencies = dependencies;
  actions = actions;
  arguments = [];
  items = [];
}

abbrev pub starting : List String
starting = "create" ∷ "update" ∷ []

abbrev pub stopping : List String
stopping = "pause" ∷ "delete" ∷ []

abbrev phase_task : String → String → List String → List String → Task
phase_task name phase dependencies actions =
    record (task name "sys-update-status" dependencies actions) {
      arguments = ("sys-workspace-phase", phase) ∷ [];
    }

-- the tasks of the template `workspace`, before the one after the execution
unfoldable pub workspace_tasks : List String → List Task
workspace_tasks items =
    task "service" "service-resource" [] []
    ∷ task "virtual-service" "virtual-service-resource" ("service" ∷ []) []
    ∷ task "create-stateful-set" "stateful-set-resource" ("virtual-service" ∷ []) starting
    ∷ record (task "get-stateful-set" "get-stateful-set-resource" ("create-stateful-set" ∷ [])
        starting) {
          arguments =
              (
                "update-revision",
                "{{tasks.create-stateful-set.outputs.parameters.update-revision}}",
              )
              ∷ [];
        }
    ∷ task "create-workspace" "workspace-resource" ("get-stateful-set" ∷ []) starting
    ∷ task "delete-stateful-set" "delete-stateful-set-resource" ("virtual-service" ∷ []) stopping
    ∷ task "delete-workspace" "workspace-resource" ("delete-stateful-set" ∷ []) stopping
    ∷ record (task "delete-pvc" "delete-pvc-resource" ("delete-workspace" ∷ []) ("delete" ∷ [])) {
      arguments = ("sys-pvc-name", "{{item}}") ∷ [];
      items = items;
    }
    ∷ phase_task "sys-set-phase-running" "Running" ("create-workspace" ∷ []) starting
    ∷ phase_task "sys-set-phase-paused" "Paused" ("delete-workspace" ∷ []) ("pause" ∷ [])
    ∷ phase_task "sys-set-phase-terminated" "Terminated" ("delete-pvc" ∷ []) ("delete" ∷ [])
    ∷ []

-- the field `PostExecutionWorkflow` of a spec: its entrypoint, and its templates by their names
pub record PostExecution : Type 0 where
  pub entrypoint : String
  pub templates : List String

-- the task of its entrypoint
unfoldable pub post_execution : Option PostExecution → List Task
post_execution none = []
post_execution (some p) =
    task p.entrypoint p.entrypoint
      ("sys-set-phase-running" ∷ "sys-set-phase-paused" ∷ "sys-set-phase-terminated" ∷ []) []
    ∷ []

abbrev pub post_templates : Option PostExecution → List String
post_templates none = []
post_templates (some p) = p.templates

-- the names of the templates, in their order, before those of `postExecutionWorkflow`
abbrev pub template_names : List String
template_names =
    "handleExit" ∷ "workspace" ∷ "service-resource" ∷ "virtual-service-resource"
    ∷ "stateful-set-resource" ∷ "get-stateful-set-resource" ∷ "delete-stateful-set-resource"
    ∷ "workspace-resource" ∷ "delete-pvc-resource" ∷ "sys-update-workspace-status"
    ∷ "sys-update-status" ∷ []

-- the tasks of the template `workspace`, and the names of all templates
pub record Plan : Type 0 where
  pub tasks : List Task
  pub templates : List String

unfoldable pub unmarshal_workflow_template :
    (String → Result String) → WorkspaceSpec → Option PostExecution → Result Plan
unfolding claim_items all_mounts workspace_tasks post_execution
unmarshal_workflow_template parse_item spec after =
    claim_items parse_item [] (all_mounts spec.containers) >>= λ items. ok (record {
      tasks = workspace_tasks items ++ post_execution after;
      templates = template_names ++ post_templates after;
    })

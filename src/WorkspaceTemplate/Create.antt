-- ===== src/WorkspaceTemplate/Create.antt =====
-- CreateWorkspaceTemplate of pkg/workspace_template.go.
use onepanel.Base.{
  ℕ, String, Bool, true, false, not, ◌&&◌, ◌==◌, ◌⊕◌, Option, none, some, List, [], ◌∷◌, Error,
  user_error, invalid_argument, plain, foreign, Result, ok, err, if◌then◌else◌,
}
use onepanel.Base
use onepanel.Base.State
use onepanel.Base.State.{M, ◌>>=◌, ◌>>◌}
use onepanel.Workspace.Update.{message}
use onepanel.Workspace.Uid.{generate_uid}
use onepanel.Template.Store
use onepanel.Template.Create
use onepanel.Template.Archive
use onepanel.WorkspaceTemplate.Store.{
  Row, World, WorkspaceTemplate, Env, attempt, on_workflows, transaction, select_by_name,
}
use onepanel.WorkspaceTemplate.Table.{
  insert_workspace_template, create_workspace_template_version_db,
}
use onepanel.WorkspaceTemplate.Generate.{
  for_workspace, replace_all, generate_workspace_template_workflow_template,
}

-- the row of getWorkspaceTemplateByName
unfoldable pub find_by_name : String → String → List Row → Option Row
find_by_name namespace name [] = none
find_by_name namespace name (r ∷ rs) =
    let rest = find_by_name namespace name rs in
    if r.namespace == namespace && r.name == name && not r.is_archived then some r else rest

unfoldable pub get_workspace_template_by_name : Env → String → String → M World (Option Row)
get_workspace_template_by_name env namespace name = do
  attempt env select_by_name
  State.gets (λ w. find_by_name namespace name w.rows)

-- refused when there is a template of the name
unfoldable pub no_template : String → Option Row → Result (Unit {0})
no_template name none = ok tt
no_template name (some r) = err (
    user_error Base.already_exists (
      if r.is_archived
      then ("An archived workspace template with the name '" ⊕ name) ⊕ "' already exists"
      else ("Workspace template with the name '" ⊕ name) ⊕ "' already exists"))

-- GenerateUID, and the fields of the workflow template of a workspace
unfoldable pub prepared :
    WorkspaceTemplate → Store.Template → Result (WorkspaceTemplate × Store.Template)
unfolding generate_uid
prepared t workflow = Base.◌>>=◌ (generate_uid t.name 30) λ uid. ok (
  record t { uid = uid },
  record workflow {
    is_system = true;
    resource = some "workspace_template";
    resource_uid = some uid;
  },
)

unfoldable pub lint : Env → String → Store.Template → Result (Unit {0})
unfolding Create.validate_workflow_template replace_all message
lint env namespace workflow =
    elim (Create.validate_workflow_template env.inner namespace workflow) [
      | ok u ↦ ok u
      | err e ↦
          err (user_error invalid_argument (replace_all "{{workflow." "{{workspace." (message e)))
    ]

abbrev pub new_row : String → WorkspaceTemplate → Store.Template → Row
new_row namespace t workflow = record {
  id = 0;
  uid = t.uid;
  name = t.name;
  namespace = namespace;
  description = t.description;
  is_archived = false;
  workflow_template_id = workflow.id;
  labels = t.labels;
}

-- the text of a failed insert with that of its clean-up, which the error is wrapped with
unfoldable pub insert_message : String → String → Option Error → String
insert_message table clean none = table
insert_message table clean (some e) = table ⊕ clean

-- ArchiveWorkflowTemplate after a failure, of which the error is the result
unfoldable pub archived_error :
    {A B : Type 0} → (Option Error → Error) → Result A × World → Result B × World
archived_error f (ok a, w) = (err (f none), w)
archived_error f (err e, w) = (err (f (some e)), w)

unfoldable pub clean_up :
    {A : Type 0} → ℕ → Env → String → String → (Option Error → Error) → M World A
unfolding archived_error
clean_up fuel env namespace uid f w =
    archived_error f
      (on_workflows (Archive.archive_workflow_template fuel env.inner namespace uid) w)

-- a step that is cleaned up after when it fails
unfoldable pub resumed : {A : Type 0} → (Error → M World A) → Result A × World → Result A × World
resumed undo (ok a, w) = (ok a, w)
resumed undo (err e, w) = undo e w

unfoldable pub or_clean : {A : Type 0} → M World A → (Error → M World A) → M World A
unfolding resumed
or_clean m undo w = resumed undo (m w)

unfoldable pub row_error : Error → Option Error → Error
unfolding Create.wrap_error insert_message message
row_error e cleaned =
    Create.wrap_error
      (insert_message "Error with insert into workspace_templates. "
        ("Error with clean-up: ArchiveWorkflowTemplate. "
          ⊕ elim cleaned [ none ↦ "" | some x ↦ message x ])
        cleaned)
      e

unfoldable pub version_error : Error → Option Error → Error
unfolding Create.wrap_error insert_message
version_error e cleaned =
    Create.wrap_error
      (insert_message "Error with insert into workspace_templates_versions. "
        "Error with clean-up: ArchiveWorkflowTemplate. " cleaned)
      e

-- `fmt.Errorf("%w; %s", err, errArchive)`
unfoldable pub commit_error : Error → Option Error → Error
unfolding message
commit_error e none = e
commit_error e (some x) = plain ((message e ⊕ "; ") ⊕ message x)

-- the rows of a workspace template of which the workflow template was created
unfoldable pub store_workspace_template :
    ℕ → Env → String → WorkspaceTemplate → Store.Template → M World WorkspaceTemplate
store_workspace_template fuel env namespace t workflow = do
  id ←
      or_clean (insert_workspace_template env (new_row namespace t workflow))
        λ e. clean_up fuel env namespace workflow.uid (row_error e)
  or_clean
      (create_workspace_template_version_db env (record t {
        id = id;
        version = workflow.version;
        is_latest = true;
        workflow = some workflow;
      }))
      λ e. clean_up fuel env namespace workflow.uid (version_error e)

unfoldable pub create_workspace_template :
    ℕ → Env → String → WorkspaceTemplate → Store.Template → M World WorkspaceTemplate
create_workspace_template fuel env namespace t workflow = do
  (named, system) ← State.lift (prepared t workflow)
  State.lift (lint env namespace system)
  created ← on_workflows λ s.
      Create.map_error (Create.wrap_error "Workflow template")
        (Create.create_workflow_template env.inner namespace system s)
  transaction env (λ e. clean_up fuel env namespace created.uid (commit_error e))
      (store_workspace_template fuel env namespace named created)

-- an error of a method, changed
unfoldable pub map_error : {A : Type 0} → (Error → Error) → Result A × World → Result A × World
map_error f (ok a, w) = (ok a, w)
map_error f (err e, w) = (err (f e), w)

unfoldable pub valid : Env → WorkspaceTemplate → Result (Unit {0})
unfolding message
valid env t = elim (env.validate t) [
  | none ↦ ok tt
  | some e ↦ err (user_error invalid_argument (message e))
]

-- CreateWorkspaceTemplate; the fuel is that of ArchiveWorkflowTemplate in a clean-up
unfoldable pub create : ℕ → Env → String → WorkspaceTemplate → M World WorkspaceTemplate
create fuel env namespace t = do
  State.lift (valid env t)
  existing ← get_workspace_template_by_name env namespace t.name
  State.lift (no_template t.name existing)
  workflow ←
      State.lift
        (generate_workspace_template_workflow_template env (record t { namespace = namespace }))
  λ w.
      map_error for_workspace (
        create_workspace_template fuel env namespace (record t { namespace = namespace }) workflow
          w)

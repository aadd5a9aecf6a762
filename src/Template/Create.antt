-- ===== src/Template/Create.antt =====
-- CreateWorkflowTemplate and CreateWorkflowTemplateVersion of pkg/workflow_template.go.
use onepanel.Base.{
  ℕ, zero, ℤ, pos, String, Bool, true, false, not, ◌&&◌, ◌==◌, ◌⊕◌, Option, none, some, List, [],
  ◌∷◌, ◌++◌, Map, map, any, insert, delete, Error, user_error, plain, foreign, panic, Result, ok,
  err, if◌then◌else◌, format_nat,
}
use onepanel.Base
use onepanel.Base.State
use onepanel.Base.State.{M, ◌>>=◌, ◌>>◌}
use onepanel.Params.{parse_parameters_from_manifest}
use onepanel.Workspace.Update.{message}
use onepanel.Template.Store.{
  Store, TemplateRow, ArgoCopy, Template, Env, attempt, transaction, create_copy, update_copy,
  delete_copy,
}
use onepanel.Template.Table.{insert_workflow_template, create_workflow_template_version_db}
use onepanel.Template.Argo.{create_argo_workflow_template, wrap_spec, set_uid}

-- WorkflowTemplates(namespace).Create: a name is taken once
unfoldable pub is_named : String → String → ArgoCopy → Bool
is_named namespace name c = c.namespace == namespace && c.name == name

unfoldable pub create_argo_copy : Env → ArgoCopy → M Store (Unit {0})
unfolding is_named
create_argo_copy env c s = elim (env.fails create_copy) [
  | some e ↦ (err e, s)
  | none ↦
      if any (is_named c.namespace c.name) s.copies
      then (err (plain "already exists"), s)
      else (ok tt, record s { copies = s.copies ++ c ∷ [] })
]

-- WorkflowTemplates(namespace).Update
unfoldable pub replace_copy : ArgoCopy → ArgoCopy → ArgoCopy
unfolding is_named
replace_copy new c = if is_named new.namespace new.name c then new else c

unfoldable pub update_argo_copy : Env → ArgoCopy → M Store (Unit {0})
update_argo_copy env c = do
  attempt env update_copy
  State.modify (λ s. record s { copies = map (replace_copy c) s.copies })

-- WorkflowTemplates(namespace).Delete
unfoldable pub drop_copy : String → String → Store → Store
unfolding is_named
drop_copy namespace name s = record s {
  copies = Base.keep (λ c. not (is_named namespace name c)) s.copies;
}

unfoldable pub delete_argo_copy : Env → String → String → M Store (Unit {0})
unfolding drop_copy is_named
delete_argo_copy env namespace name s = elim (env.fails (delete_copy name)) [
  | some e ↦ (err e, s)
  | none ↦
      if any (is_named namespace name) s.copies
      then (ok tt, drop_copy namespace name s)
      else (err (plain "not found"), s)
]

unfoldable pub add_label : String → String → ArgoCopy → ArgoCopy
unfolding insert
add_label key value c = record c { labels = insert key value c.labels }

-- the label of the workspace template that the workflow template belongs to
unfoldable pub label_resource : Template → ArgoCopy → ArgoCopy
unfolding add_label
label_resource t c = elim t.resource [
  | none ↦ c
  | some kind ↦ elim t.resource_uid [
    | none ↦ c
    | some uid ↦
        if kind == "workspace_template"
        then add_label "onepanel.io/workspace-template-version-uid" uid c
        else c
  ]
]

unfoldable pub template_row : String → Template → TemplateRow
template_row namespace t = record {
  id = 0;
  uid = t.uid;
  name = t.name;
  namespace = namespace;
  is_archived = false;
  is_system = t.is_system;
  labels = t.labels;
}

-- The block of createWorkflowTemplate inside the transaction: the rows and the copy in Argo.
unfoldable pub store_workflow_template : Env → String → Template → M Store (Template × ArgoCopy)
store_workflow_template env namespace t = do
  id ← insert_workflow_template env (template_row namespace t)
  parameters ← State.lift (elim (parse_parameters_from_manifest env.decode t.manifest) [
    | ok ps ↦ ok ps
    | err e ↦ err (user_error Base.invalid_argument (message e))
  ])
  version_id ← create_workflow_template_version_db env id t parameters
  (copy, named) ← State.lift (create_argo_workflow_template env namespace t (pos env.now))
  let labelled =
      label_resource named
        (add_label "onepanel.io/workflow-template-version-uid" (format_nat env.now) copy)
  create_argo_copy env labelled
  State.pure (
    record named { id = id; version_id = version_id; copy = some labelled; version = pos env.now },
    labelled,
  )

-- createWorkflowTemplate: if the commit fails, the copy is deleted
unfoldable pub create_workflow_template : Env → String → Template → M Store Template
create_workflow_template env namespace t = do
  named ← State.lift (
      Base.or_error (user_error Base.invalid_argument "Template name must be 30 characters or less")
        (set_uid t))
  (created, copy) ←
      transaction env (λ done. delete_argo_copy env namespace done.1.name)
        (store_workflow_template env namespace named)
  State.pure created

-- validateWorkflowTemplate
unfoldable pub validate_workflow_template : Env → String → Template → Result (Unit {0})
unfolding wrap_spec
validate_workflow_template env namespace t = elim (wrap_spec env t.manifest) [
  | err e ↦ err e
  | ok bytes ↦ Base.check (env.lint namespace bytes)
]

-- NewUserErrorWrap of pkg/util/error.go; a foreign error is one of the database
unfoldable pub wrap_error : String → Error → Error
wrap_error entity (user_error c m) = user_error c m
wrap_error entity (foreign code) =
    user_error (if code == "23505" then Base.already_exists else Base.unknown)
      (entity ⊕ " already exists.")
wrap_error entity (plain m) = user_error Base.unknown "Unknown error."
wrap_error entity panic = panic

unfoldable pub map_error : {A : Type 0} → (Error → Error) → Result A × Store → Result A × Store
map_error f (ok a, s) = (ok a, s)
map_error f (err e, s) = (err (f e), s)

unfoldable pub validated : Env → String → Template → Result (Unit {0})
unfolding validate_workflow_template message
validated env namespace t = elim (validate_workflow_template env namespace t) [
  | ok u ↦ ok u
  | err e ↦ err (user_error Base.invalid_argument (message e))
]

-- CreateWorkflowTemplate
unfoldable pub create : Env → String → Template → M Store Template
create env namespace t = do
  State.lift (validated env namespace t)
  λ s. map_error (wrap_error "Workflow template") (create_workflow_template env namespace t s)

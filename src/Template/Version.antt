-- ===== src/Template/Version.antt =====
-- CreateWorkflowTemplateVersion and UpdateWorkflowTemplateVersion of pkg/workflow_template.go.
use onepanel.Base.{
  ℕ, pos, String, not, ◌==◌, Option, none, some, [], ◌∷◌, Map, map, insert, delete, Error, plain,
  Result, ok, err, format_nat, leb,
}
use onepanel.Base.State
use onepanel.Base.State.{M, ◌>>=◌, ◌>>◌}
use onepanel.Template.Store.{
  Store, VersionRow, TemplateRow, ArgoCopy, Template, Env, attempt, transaction, select_template,
  update_labels, mark_outdated,
}
use onepanel.Template.Table.{
  is_current, find_template, create_latest_workflow_template_version_db, write_labels,
  write_version,
}
use onepanel.Template.Argo.{
  latest, latest_label, create_argo_workflow_template, get_argo_workflow_template,
  get_parameters_key_string,
}
use onepanel.Template.Create.{create_argo_copy, update_argo_copy, add_label, validated}

-- sql.ErrNoRows
abbrev pub no_rows : Error
no_rows = plain "sql: no rows in result set"

unfoldable pub found_row : {A : Type 0} → Option A → Result A
found_row none = err no_rows
found_row (some a) = ok a

unfoldable pub select_current : Env → String → String → M Store TemplateRow
unfolding is_current find_template found_row
select_current env namespace uid s = elim (env.fails select_template) [
  | some e ↦ (err e, s)
  | none ↦ (found_row (find_template (is_current namespace uid) s.templates), s)
]

-- `for key, value := range parametersMap { updatedTemplate.Annotations[key] = value }`
unfoldable pub insert_all : Map String → Map String → Map String
unfolding insert
insert_all [] m = m
insert_all ((k, v) ∷ rest) m = insert_all rest (insert k v m)

-- the copy that CreateWorkflowTemplateVersion sends to Argo
unfoldable pub annotated : Env → Map String → ArgoCopy → ArgoCopy
unfolding add_label insert_all format_nat
annotated env strings c =
    let labelled = add_label "onepanel.io/workflow-template-version-uid" (format_nat env.now) c in
    record labelled { annotations = insert_all strings labelled.annotations }

-- delete(latest.Labels, label.VersionLatest)
unfoldable pub not_latest : ArgoCopy → ArgoCopy
unfolding delete
not_latest c = record c { labels = delete latest_label c.labels }

-- The part of the block that follows the new version, of the id given. The older copy is read before
-- the new one is created, and loses its label after.
unfoldable pub publish_version : Env → String → Template → ℕ → ℕ → M Store Template
publish_version env namespace t id version_id = do
  (copy, named) ← State.lift (create_argo_workflow_template env namespace t (pos env.now))
  strings ← State.lift (get_parameters_key_string env t.manifest)
  older ← get_argo_workflow_template env namespace named.uid latest
  create_argo_copy env (annotated env strings copy)
  update_argo_copy env (not_latest older)
  attempt env update_labels
  State.modify (write_labels id t.labels)
  State.pure (record named { id = id; version_id = version_id; version = pos env.now })

-- the block inside the transaction
unfoldable pub store_version : Env → String → Template → M Store Template
store_version env namespace t = do
  row ← select_current env namespace t.uid
  version_id ← create_latest_workflow_template_version_db env row.id t
  publish_version env namespace t row.id version_id

unfoldable pub create_workflow_template_version : Env → String → Template → M Store Template
create_workflow_template_version env namespace t = do
  State.require (not (t.uid == "")) (plain "uid required for CreateWorkflowTemplateVersion")
  State.lift (validated env namespace t)
  transaction env (λ _. State.pure tt) (store_version env namespace t)

-- UpdateWorkflowTemplateVersion
unfoldable pub update_workflow_template_version : Env → VersionRow → M Store (Unit {0})
update_workflow_template_version env v = do
  State.require (leb 1 v.id) (plain "id required for UpdateWorkflowTemplateVersionDB")
  attempt env mark_outdated
  State.modify (λ s. record s { versions = map (write_version v) s.versions })

-- ===== src/WorkspaceTemplate/Update.antt =====
-- GetWorkspaceTemplate, UpdateWorkspaceTemplate and UpdateWorkspaceTemplateManifest of
-- pkg/workspace_template.go.
use onepanel.Base.{
  ℕ, zero, suc, ℤ, pos, negsuc, String, Bool, true, false, not, ◌&&◌, ◌==◌, Option, none, some,
  List, [], ◌∷◌, ◌++◌, map, keep, Map, Error, user_error, plain, Result, ok, err, nat_eq,
  if◌then◌else◌,
}
use onepanel.Base
use onepanel.Base.State
use onepanel.Base.State.{M, ◌>>=◌, ◌>>◌}
use onepanel.Template.Store
use onepanel.Template.Version
use onepanel.WorkspaceTemplate.Store.{
  Row, VersionRow, World, WorkspaceTemplate, Env, attempt, on_workflows, transaction,
  select_template, update_row,
}
use onepanel.WorkspaceTemplate.Table.{
  is_current, create_latest_workspace_template_version_db, write_rows,
}
use onepanel.WorkspaceTemplate.Generate.{
  for_workspace, generate_workspace_template_workflow_template, inject_runtime_parameters,
}
use onepanel.WorkspaceTemplate.Create.{map_error}

abbrev same_number : ℤ → ℤ → Bool
same_number (pos m) (pos n) = nat_eq m n
same_number (pos m) (negsuc n) = false
same_number (negsuc m) (pos n) = false
same_number (negsuc m) (negsuc n) = nat_eq m n

-- wtv.is_latest at 0, otherwise wtv.version = ?
unfoldable pub is_asked : ℤ → VersionRow → Bool
is_asked (pos zero) v = v.is_latest
is_asked (pos (suc n)) v = same_number v.version (pos (suc n))
is_asked (negsuc n) v = same_number v.version (negsuc n)

-- the struct that one row of the join is scanned into
unfoldable pub scanned : Row → VersionRow → Store.TemplateRow → Store.VersionRow → WorkspaceTemplate
scanned r v t u = record {
  id = r.id;
  version_id = v.id;
  uid = r.uid;
  name = r.name;
  namespace = r.namespace;
  description = r.description;
  manifest = v.manifest;
  version = v.version;
  is_latest = false;
  is_archived = r.is_archived;
  labels = v.labels;
  workflow = some (record {
    id = t.id;
    uid = t.uid;
    name = "";
    manifest = u.manifest;
    version = pos u.version;
    version_id = 0;
    is_latest = false;
    is_archived = false;
    is_system = false;
    labels = [];
    parameters = [];
    description = "";
    resource = none;
    resource_uid = none;
    copy = none;
  });
}

unfoldable pub flat_map : {A B : Type 0} → (A → List B) → List A → List B
flat_map f [] = []
flat_map f (x ∷ xs) = f x ++ flat_map f xs

-- wftv.is_latest at 0, otherwise wftv.version = ?
unfoldable pub is_asked_workflow : ℤ → Store.VersionRow → Bool
is_asked_workflow (pos zero) u = u.is_latest
is_asked_workflow (pos (suc n)) u = nat_eq u.version (suc n)
is_asked_workflow (negsuc n) u = false

-- the joins of workspaceTemplateVersionsSelectBuilder with the conditions of GetWorkspaceTemplate
unfoldable pub joined : String → String → ℤ → World → List WorkspaceTemplate
unfolding is_current is_asked is_asked_workflow flat_map scanned
joined namespace uid version w =
    flat_map
      (λ r.
        flat_map
          (λ v.
            flat_map
              (λ t. map (scanned r v t) (
                keep (λ u. nat_eq u.template_id t.id && is_asked_workflow version u)
                  w.workflows.versions))
              (keep (λ t. nat_eq t.id r.workflow_template_id) w.workflows.templates))
          (keep (λ v. nat_eq v.template_id r.id && is_asked version v) w.versions))
      (keep (is_current namespace uid) w.rows)

-- LIMIT 1
abbrev pub first_of : List WorkspaceTemplate → Option WorkspaceTemplate
first_of [] = none
first_of (t ∷ ts) = some t

unfoldable pub with_runtime : Env → Option WorkspaceTemplate → Result (Option WorkspaceTemplate)
unfolding inject_runtime_parameters
with_runtime env none = ok none
with_runtime env (some t) =
    Base.◌>>=◌ env.config
      λ config. Base.◌>>=◌ (inject_runtime_parameters env config t) λ u. ok (some u)

-- GetWorkspaceTemplate; nothing if there is none
unfoldable pub get_workspace_template :
    Env → String → String → ℤ → M World (Option WorkspaceTemplate)
get_workspace_template env namespace uid version = do
  attempt env select_template
  found ← State.gets (λ w. first_of (joined namespace uid version w))
  State.lift (with_runtime env found)

unfoldable pub found_template :
    Option WorkspaceTemplate → Result (WorkspaceTemplate × Store.Template)
found_template none = err (user_error Base.not_found "Workspace template not found.")
found_template (some t) = elim t.workflow [
  | none ↦ err Base.panic
  | some workflow ↦ ok (t, workflow)
]

-- the rows of a new version
unfoldable pub store_update : Env → WorkspaceTemplate → M World WorkspaceTemplate
store_update env t = do
  written ← create_latest_workspace_template_version_db env t
  attempt env update_row
  State.modify (write_rows written)
  State.pure written

-- UpdateWorkspaceTemplate, after the existing template was found: a new version of its workflow template, and
-- one of its own
unfoldable pub publish_version :
    Env
    → String
    → WorkspaceTemplate
    → WorkspaceTemplate
    → Store.Template
    → M World WorkspaceTemplate
publish_version env namespace t old workflow = do
  generated ← State.lift (
      generate_workspace_template_workflow_template env
        (record t { id = old.id; name = old.uid; namespace = old.namespace }))
  published ← λ w. map_error for_workspace (
      on_workflows
        (Version.create_workflow_template_version env.inner namespace
          (record generated { id = workflow.id; uid = workflow.uid; labels = t.labels }))
        w)
  transaction env State.raise (
      store_update env (record t {
        id = old.id;
        name = old.uid;
        namespace = old.namespace;
        version = published.version;
        is_latest = true;
      }))

unfoldable pub update_workspace_template :
    Env → String → WorkspaceTemplate → M World WorkspaceTemplate
unfolding found_template
update_workspace_template env namespace t = do
  existing ← get_workspace_template env namespace t.uid t.version
  (old, workflow) ← State.lift (found_template existing)
  publish_version env namespace t old workflow

-- UpdateWorkspaceTemplateManifest: a template that is not found is read through
unfoldable pub with_manifest : String → String → Option WorkspaceTemplate → Result WorkspaceTemplate
with_manifest uid manifest none = err Base.panic
with_manifest uid manifest (some t) = ok (record t { uid = uid; manifest = manifest })

unfoldable pub update_workspace_template_manifest :
    Env → String → String → String → M World WorkspaceTemplate
update_workspace_template_manifest env namespace uid manifest = do
  existing ← get_workspace_template env namespace uid (pos 0)
  t ← State.lift (with_manifest uid manifest existing)
  update_workspace_template env namespace t

-- ===== src/Template/Table.antt =====
-- The statements of pkg/workflow_template.go on the tables of templates and versions.
use onepanel.Base.{
  ℕ, suc, String, Bool, true, false, not, ◌&&◌, ◌||◌, ◌==◌, Option, none, some, List, [], ◌∷◌, ◌++◌,
  Map, map, any, Error, foreign, plain, ok, err, if◌then◌else◌, leb, nat_eq,
}
use onepanel.Base.State
use onepanel.Base.State.{M, ◌>>=◌, ◌>>◌}
use onepanel.Params.{Parameter, parse_parameters_from_manifest}
use onepanel.Template.Store.{
  Store, TemplateRow, VersionRow, Template, Env, attempt, insert_template, insert_version,
  mark_outdated,
}

-- WHERE wt.namespace = ? AND wt.uid = ? AND wt.is_archived = false
unfoldable pub is_current : String → String → TemplateRow → Bool
is_current namespace uid t = t.namespace == namespace && t.uid == uid && not t.is_archived

-- the first row that `DB.Getx` scans
unfoldable pub find_template : (TemplateRow → Bool) → List TemplateRow → Option TemplateRow
find_template test [] = none
find_template test (t ∷ ts) = if test t then some t else find_template test ts

-- the unique indices of db/sql on the templates that are not archived: (uid, namespace) and
-- (name, namespace)
unfoldable pub conflicts : TemplateRow → TemplateRow → Bool
conflicts new t =
    not t.is_archived && t.namespace == new.namespace && (t.uid == new.uid || t.name == new.name)

-- the code of a unique violation in PostgreSQL
abbrev pub duplicate_key : Error
duplicate_key = foreign "23505"

-- INSERT INTO workflow_templates … RETURNING id; db/sql has a check that the uid is not empty
unfoldable pub insert_workflow_template : Env → TemplateRow → M Store ℕ
unfolding conflicts attempt State.check
insert_workflow_template env new s = elim (env.fails insert_template) [
  | some e ↦ (err e, s)
  | none ↦
      if new.uid == ""
      then (err (foreign "23514"), s)
      else if any (conflicts new) s.templates
      then (err duplicate_key, s)
      else (
        ok s.template_serial,
        record s {
          templates = s.templates ++ record new { id = s.template_serial } ∷ [];
          template_serial = suc s.template_serial;
        },
      )
]

-- INSERT INTO workflow_template_versions … RETURNING id
unfoldable pub add_version : VersionRow → Store → Store
add_version new s = record s {
  versions = s.versions ++ record new { id = s.version_serial } ∷ [];
  version_serial = suc s.version_serial;
}

unfoldable pub insert_workflow_template_version : Env → VersionRow → M Store ℕ
unfolding add_version
insert_workflow_template_version env new s = elim (env.fails insert_version) [
  | some e ↦ (err e, s)
  | none ↦ (ok s.version_serial, add_version new s)
]

-- the row that createWorkflowTemplateVersionDB inserts
unfoldable pub new_version : Env → ℕ → Template → List Parameter → VersionRow
new_version env template_id t parameters = record {
  id = 0;
  template_id = template_id;
  version = env.now;
  is_latest = true;
  manifest = t.manifest;
  parameters = parameters;
  labels = t.labels;
  description = t.description;
}

-- createWorkflowTemplateVersionDB: the id of the new version of the template of the id given
unfoldable pub create_workflow_template_version_db : Env → ℕ → Template → List Parameter → M Store ℕ
create_workflow_template_version_db env template_id t parameters = do
  State.require (leb 1 template_id)
      (plain "workflowTemplateVersion.WorkflowTemplate.ID must be > 0")
  insert_workflow_template_version env (new_version env template_id t parameters)

-- UPDATE workflow_template_versions SET is_latest = false WHERE workflow_template_id = ?
unfoldable pub outdate : ℕ → VersionRow → VersionRow
outdate template_id v =
    if nat_eq v.template_id template_id then record v { is_latest = false } else v

unfoldable pub outdate_versions : ℕ → Store → Store
unfolding outdate
outdate_versions template_id s = record s { versions = map (outdate template_id) s.versions }

-- createLatestWorkflowTemplateVersionDB
unfoldable pub create_latest_workflow_template_version_db : Env → ℕ → Template → M Store ℕ
create_latest_workflow_template_version_db env template_id t = do
  State.require (leb 1 template_id)
      (plain "workflowTemplateVersion.WorkflowTemplate.ID must be > 0")
  attempt env mark_outdated
  State.modify (outdate_versions template_id)
  parameters ← State.lift (parse_parameters_from_manifest env.decode t.manifest)
  create_workflow_template_version_db env template_id t parameters

-- updateWorkflowTemplateVersionDB, of the version of the id given
unfoldable pub write_version : VersionRow → VersionRow → VersionRow
write_version new v =
    if nat_eq v.id new.id
    then record v {
      manifest = new.manifest;
      is_latest = new.is_latest;
      parameters = new.parameters;
    }
    else v

-- UPDATE workflow_templates SET labels = ? WHERE id = ?
unfoldable pub set_labels : ℕ → Map String → TemplateRow → TemplateRow
set_labels id labels t = if nat_eq t.id id then record t { labels = labels } else t

unfoldable pub write_labels : ℕ → Map String → Store → Store
unfolding set_labels
write_labels id labels s = record s { templates = map (set_labels id labels) s.templates }

-- UPDATE workflow_templates SET is_archived = true WHERE uid = ? AND namespace = ?
unfoldable pub archive_row : String → String → TemplateRow → TemplateRow
archive_row namespace uid t =
    if t.namespace == namespace && t.uid == uid then record t { is_archived = true } else t

unfoldable pub archive_rows : String → String → Store → Store
unfolding archive_row
archive_rows namespace uid s = record s { templates = map (archive_row namespace uid) s.templates }

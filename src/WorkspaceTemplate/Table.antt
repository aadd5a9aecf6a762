-- ===== src/WorkspaceTemplate/Table.antt =====
-- The statements of pkg/workspace_template.go on its two tables.
use onepanel.Base.{
  ℕ, suc, String, Bool, true, false, not, ◌&&◌, ◌||◌, ◌==◌, none, some, [], ◌∷◌, ◌++◌, map, any,
  plain, foreign, ok, err, nat_eq, leb, if◌then◌else◌,
}
use onepanel.Base.State
use onepanel.Base.State.{M, ◌>>=◌, ◌>>◌}
use onepanel.WorkspaceTemplate.Store.{
  Row, VersionRow, World, WorkspaceTemplate, Env, attempt, insert_row, insert_version,
  mark_outdated,
}

-- the unique indices of db/sql: (uid, namespace) and (name, namespace)
unfoldable pub conflicts : Row → Row → Bool
conflicts new r =
    not r.is_archived && r.namespace == new.namespace && (r.uid == new.uid || r.name == new.name)

unfoldable pub add_row : Row → World → World
add_row new w = record w {
  rows = w.rows ++ record new { id = w.serial } ∷ [];
  serial = suc w.serial;
}

-- INSERT INTO workspace_templates … RETURNING id; the checks of db/sql refuse an empty uid or name
unfoldable pub insert_workspace_template : Env → Row → M World ℕ
unfolding conflicts add_row
insert_workspace_template env new w = elim (env.fails insert_row) [
  | some e ↦ (err e, w)
  | none ↦
      if new.uid == "" || new.name == ""
      then (err (foreign "23514"), w)
      else if any (conflicts new) w.rows
      then (err (foreign "23505"), w)
      else (ok w.serial, add_row new w)
]

-- createWorkspaceTemplateVersionDB, which returns the template with the id of its version
unfoldable pub new_version : WorkspaceTemplate → VersionRow
new_version t = record {
  id = 0;
  template_id = t.id;
  version = t.version;
  is_latest = t.is_latest;
  manifest = t.manifest;
  labels = t.labels;
}

unfoldable pub add_version : VersionRow → World → World
add_version new w = record w {
  versions = w.versions ++ record new { id = w.version_serial } ∷ [];
  version_serial = suc w.version_serial;
}

unfoldable pub create_workspace_template_version_db :
    Env → WorkspaceTemplate → M World WorkspaceTemplate
unfolding new_version add_version
create_workspace_template_version_db env t w = elim (env.fails insert_version) [
  | some e ↦ (err e, w)
  | none ↦ (ok (record t { id = w.version_serial }), add_version (new_version t) w)
]

-- markWorkspaceTemplateVersionsOutdatedDB
unfoldable pub outdate : ℕ → VersionRow → VersionRow
outdate id v = if nat_eq v.template_id id && v.is_latest then record v { is_latest = false } else v

unfoldable pub outdate_versions : ℕ → World → World
unfolding outdate
outdate_versions id w = record w { versions = map (outdate id) w.versions }

unfoldable pub mark_workspace_template_versions_outdated_db : Env → ℕ → M World (Unit {0})
mark_workspace_template_versions_outdated_db env id = do
  attempt env mark_outdated
  State.modify (outdate_versions id)

-- createLatestWorkspaceTemplateVersionDB
unfoldable pub create_latest_workspace_template_version_db :
    Env → WorkspaceTemplate → M World WorkspaceTemplate
create_latest_workspace_template_version_db env t = do
  State.require (leb 1 t.id) (plain "workspaceTemplate.ID is not set")
  mark_workspace_template_versions_outdated_db env t.id
  create_workspace_template_version_db env (record t { is_latest = true })

-- UPDATE workspace_templates SET labels = ?, description = ? WHERE uid = ? AND namespace = ?
unfoldable pub write_row : WorkspaceTemplate → Row → Row
write_row t r =
    if r.uid == t.uid && r.namespace == t.namespace
    then record r { labels = t.labels; description = t.description }
    else r

unfoldable pub write_rows : WorkspaceTemplate → World → World
unfolding write_row
write_rows t w = record w { rows = map (write_row t) w.rows }

-- UPDATE workspace_templates SET is_archived = true WHERE uid = ? AND namespace = ? AND is_archived = false
unfoldable pub is_current : String → String → Row → Bool
is_current namespace uid r = r.uid == uid && r.namespace == namespace && not r.is_archived

unfoldable pub hide_row : String → String → Row → Row
unfolding is_current
hide_row namespace uid r = if is_current namespace uid r then record r { is_archived = true } else r

unfoldable pub hide_rows : String → String → World → World
unfolding hide_row
hide_rows namespace uid w = record w { rows = map (hide_row namespace uid) w.rows }

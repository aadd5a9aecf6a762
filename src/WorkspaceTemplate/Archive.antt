-- ===== src/WorkspaceTemplate/Archive.antt =====
-- ArchiveWorkspaceTemplate of pkg/workspace_template.go.
use onepanel.Base.{
  ℕ, pos, String, Bool, true, false, Option, none, some, List, [], ◌∷◌, any, Error, user_error,
  plain, Result, ok, err, if◌then◌else◌,
}
use onepanel.Base
use onepanel.Base.State
use onepanel.Base.State.{M, ◌>>=◌, ◌>>◌}
use onepanel.Template.Archive
use onepanel.WorkspaceTemplate.Store.{
  World, WorkspaceTemplate, Env, attempt, on_workflows, archive_row,
}
use onepanel.WorkspaceTemplate.Table.{is_current, hide_rows}
use onepanel.WorkspaceTemplate.Create.{map_error}
use onepanel.WorkspaceTemplate.Update.{get_workspace_template}

-- archiveWorkspaceTemplateDB: whether a row was changed
unfoldable pub archive_workspace_template_db : Env → String → String → M World Bool
archive_workspace_template_db env namespace uid = do
  attempt env archive_row
  changed ← State.gets (λ w. any (is_current namespace uid) w.rows)
  State.modify (hide_rows namespace uid)
  State.pure changed

-- each error but that of a missing template is replaced
abbrev pub unable : Error → Error
unable e = user_error Base.unknown "Unable to archive workspace template."

unfoldable pub hide : {A : Type 0} → M World A → M World A
unfolding map_error
hide m w = map_error unable (m w)

unfoldable pub found_template : Option WorkspaceTemplate → Result WorkspaceTemplate
found_template none = err (plain "not found")
found_template (some t) = ok t

-- the fuel is that of ArchiveWorkflowTemplate; nothing is returned when it is spent
unfoldable pub archive_workspace_template : ℕ → Env → String → String → M World (Option Bool)
archive_workspace_template fuel env namespace uid = do
  existing ← hide (get_workspace_template env namespace uid (pos 0))
  t ← State.lift (found_template existing)
  workspaces ← hide (State.lift (env.list_workspaces namespace t.version_id))
  hide (State.each (λ w. State.check (env.archive_workspace namespace w)) workspaces)
  hide (archive_workspace_template_db env namespace t.uid >>= λ changed. State.pure tt)
  hide (on_workflows (Archive.archive_workflow_template fuel env.inner namespace t.uid))

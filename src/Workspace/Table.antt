-- ===== src/Workspace/Table.antt =====
-- The SELECT, UPDATE and INSERT statements of pkg/workspace.go on the table `workspaces`.
use onepanel.Base.{
  ℕ, suc, String, Bool, ◌&&◌, not, ◌==◌, Option, none, some, List, [], ◌∷◌, nat_eq, if◌then◌else◌,
}
use onepanel.Params.{Parameter}
use onepanel.Workspace.Phase.{
  Row, WorkspaceStatus, is_terminated, workspace_status_to_field_map, apply_fields, launching,
}

-- WHERE namespace = ? AND uid = ? AND phase <> 'Terminated'
unfoldable pub is_live : String → String → Row → Bool
unfolding is_terminated
is_live namespace uid r =
    r.namespace == namespace && r.uid == uid && not (is_terminated r.status.phase)

-- The first row that `DB.Getx` scans. The joins of workspacesSelectBuilder with the template and its versions, of
-- which no row is ever deleted, are taken to find one row of each, so that they only add columns.
unfoldable pub select_live : String → String → List Row → Option Row
unfolding is_live
select_live namespace uid [] = none
select_live namespace uid (r ∷ rs) =
    if is_live namespace uid r then some r else select_live namespace uid rs

-- UPDATE workspaces SET … WHERE …, and the number of rows affected
unfoldable pub update_rows : (Row → Bool) → (Row → Row) → List Row → List Row
update_rows test f [] = []
update_rows test f (r ∷ rs) = (if test r then f r else r) ∷ update_rows test f rs

unfoldable pub rows_affected : (Row → Bool) → List Row → ℕ
rows_affected test [] = 0
rows_affected test (r ∷ rs) = let rest = rows_affected test rs in if test r then suc rest else rest

-- updateWorkspaceStatusBuilder, run at the time `now`
unfoldable pub update_workspace_status_builder :
    String → String → WorkspaceStatus → ℕ → List Row → List Row
unfolding update_rows is_live workspace_status_to_field_map apply_fields
update_workspace_status_builder namespace uid status now =
    update_rows (is_live namespace uid) (apply_fields (workspace_status_to_field_map status now))

-- … with `sb.Set("parameters", …)`
abbrev pub set_parameters : List Parameter → Row → Row
set_parameters ps r = record r { parameters = ps }

-- UPDATE workspaces SET phase = 'Launching', started_at = now WHERE id = ?
abbrev pub has_id : ℕ → Row → Bool
has_id n r = nat_eq r.id n

unfoldable pub launch_row : ℕ → Row → Row
launch_row now r = record r {
  status = record r.status { phase = launching; started_at = some now };
}

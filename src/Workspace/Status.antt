-- ===== src/Workspace/Status.antt =====
-- UpdateWorkspaceStatus of pkg/workspace.go, by which a workflow reports its phase, and
-- RetryLastWorkspaceAction of server/workspace_server.go.
use onepanel.Base.{
  ℕ, zero, suc, String, Bool, true, false, Option, none, some, Error, user_error, panic, not_found,
  invalid_argument, Result, ok, err,
}
use onepanel.Workspace.Phase.{
  Phase, Row, WorkspaceStatus, launching, pausing, terminating, updating, failed_to_launch,
  failed_to_resume, failed_to_pause, failed_to_terminate, failed_to_update, succeeded, failed,
  error,
}
use onepanel.Workspace.World.{Env, M, ◌>>=◌, ◌>>◌, pure, raise, lift}
use onepanel.Workspace.Table.{is_live, rows_affected, update_workspace_status_builder}
use onepanel.Workspace.Update.{
  get_workspace, exec, workspace_not_found, update, pause, resume, delete_workspace,
}
use onepanel.Workspace.Create.{start_workspace}

-- the ladder of tests on the current phase: the phase that a failure leads to
unfoldable pub failure_phase : Phase → Option ℕ → Phase → Phase
failure_phase launching none reported = failed_to_launch
failure_phase launching (some _) reported = failed_to_resume
failure_phase pausing _ reported = failed_to_pause
failure_phase terminating _ reported = failed_to_terminate
failure_phase updating _ reported = failed_to_update
failure_phase _ _ reported = reported

-- `workspace.Status` panics on a nil workspace
abbrev pub failure_status : WorkspaceStatus → Option Row → Result WorkspaceStatus
failure_status status none = err panic
failure_status status (some r) =
    ok (record status { phase = failure_phase r.status.phase r.status.paused_at status.phase })

unfoldable pub reported_status : Env → String → String → WorkspaceStatus → M WorkspaceStatus
unfolding failure_phase ◌>>=◌ lift pure
reported_status env namespace uid status = elim status.phase [
  | failed ↦ (do r ← get_workspace env namespace uid; lift (failure_status status r))
  | error ↦ (do r ← get_workspace env namespace uid; lift (failure_status status r))
  | _ ↦ pure status
]

abbrev pub affected : ℕ → Result (Unit {0})
affected zero = err workspace_not_found
affected (suc n) = ok tt

-- the rows are counted as the UPDATE finds them
unfoldable pub write_status : Env → String → String → WorkspaceStatus → M (Unit {0})
unfolding exec rows_affected update_workspace_status_builder ◌>>◌ lift
write_status env namespace uid status w =
    let count = rows_affected (is_live namespace uid) w.rows in
    (do
      exec env (update_workspace_status_builder namespace uid status env.now)
      lift (affected count))
      w

unfoldable pub update_workspace_status : Env → String → String → WorkspaceStatus → M (Unit {0})
unfolding reported_status ◌>>=◌ pure
update_workspace_status env namespace uid status = elim status.phase [
  | succeeded ↦ pure tt
  | _ ↦ (do s ← reported_status env namespace uid status; write_status env namespace uid s)
]

abbrev pub not_failed : Error
not_failed = user_error invalid_argument "Workspace is not in a failed state"

-- the verb to be authorized for, by the first switch
unfoldable pub retry_verb : Phase → Result String
retry_verb failed_to_launch = ok "create"
retry_verb failed_to_pause = ok "update"
retry_verb failed_to_resume = ok "update"
retry_verb failed_to_terminate = ok "delete"
retry_verb failed_to_update = ok "update"
retry_verb _ = err not_failed

-- the action, by the second switch
unfoldable pub action_by_phase : Phase → Env → String → Row → M (Unit {0})
unfolding raise
action_by_phase failed_to_launch env namespace r = start_workspace env namespace r
action_by_phase failed_to_pause env namespace r = pause env namespace r.uid
action_by_phase failed_to_resume env namespace r = resume env namespace r.uid r.parameters
action_by_phase failed_to_terminate env namespace r = delete_workspace env namespace r.uid
action_by_phase failed_to_update env namespace r = update env namespace r.uid r.parameters
action_by_phase _ env namespace r = raise not_failed

unfoldable pub retry_action : Env → String → Row → M (Unit {0})
unfolding action_by_phase
retry_action env namespace r = action_by_phase r.status.phase env namespace r

abbrev pub if_allowed : Bool → M (Unit {0}) → M (Unit {0})
if_allowed true m = m
if_allowed false m = λ w. (ok tt, w)

abbrev pub retry_row : Option Row → Result Row
retry_row none = err (user_error not_found "workspace not found")
retry_row (some r) = ok r

-- `auth.IsAuthorized` is the parameter: an error, or the answer
unfoldable pub retry_last_workspace_action :
    (String → Result Bool) → Env → String → String → M (Unit {0})
unfolding retry_verb ◌>>=◌ lift pure
retry_last_workspace_action is_authorized env namespace uid = do
  found ← get_workspace env namespace uid
  r ← lift (retry_row found)
  verb ← lift (retry_verb r.status.phase)
  allowed ← lift (is_authorized verb)
  if_allowed allowed (retry_action env namespace r)

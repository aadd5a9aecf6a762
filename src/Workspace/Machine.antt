-- ===== src/Workspace/Machine.antt =====
-- The requests on workspaces that the server passes on, as steps on the table and the submitted
-- workflows, and the runs that they make. Each request has its own environment.
use onepanel.Base.{String, Bool, List, Result, ok, err}
use onepanel.Params.{Parameter}
use onepanel.Workspace.Phase.{Phase, status_of}
use onepanel.Workspace.World.{Env, M}
use onepanel.Workspace.Update.{update, pause, resume, delete_workspace, archive}
use onepanel.Workspace.Create.{NewWorkspace, create_workspace}
use onepanel.Workspace.Status.{update_workspace_status, retry_last_workspace_action}

pub data Request : Type 0 where
  create : NewWorkspace → Request
  update_request resume_request archive_request : String → List Parameter → Request
  pause_request delete_request retry : String → Request
  report : String → Phase → Request

abbrev pub drop_value : {A : Type 0} → M A → M (Unit {0})
drop_value m w = (elim (m w).0 [ ok _ ↦ ok tt | err e ↦ err e ], (m w).1)

unfoldable pub serve : (String → Result Bool) → Env → String → Request → M (Unit {0})
unfolding update pause resume delete_workspace archive
serve is_authorized env namespace (create n) = drop_value (create_workspace env namespace n)
serve is_authorized env namespace (update_request uid ps) = update env namespace uid ps
serve is_authorized env namespace (resume_request uid ps) = resume env namespace uid ps
serve is_authorized env namespace (archive_request uid ps) = archive env namespace uid ps
serve is_authorized env namespace (pause_request uid) = pause env namespace uid
serve is_authorized env namespace (delete_request uid) = delete_workspace env namespace uid
serve is_authorized env namespace (retry uid) =
    retry_last_workspace_action is_authorized env namespace uid
serve is_authorized env namespace (report uid p) =
    update_workspace_status env namespace uid (status_of p)

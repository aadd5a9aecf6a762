-- ===== src/Workspace/Serve.antt =====
-- Each request on workspaces changes the table in one of the ways of `Effect`.
use onepanel.Base.{
  String, Bool, true, false, ◌≡◌, ◌≢◌, refl, subst, ap, ◌∙◌, Option, some, List, [], arith, Result,
  ok,
}
use onepanel.Workspace.Phase.{
  Phase, Row, failed_to_launch, failed_to_resume, failed_to_pause, failed_to_terminate,
  failed_to_update, updating, pausing, launching, terminating,
}
use onepanel.Workspace.World.{World, Env, lift, bind-rows}
use onepanel.Workspace.Table.{select_live}
use onepanel.Workspace.Update.{get_workspace, update, pause, resume, delete_workspace}
use onepanel.Workspace.Status.{
  retry_row, retry_verb, retry_action, action_by_phase, if_allowed, retry_last_workspace_action,
}
use onepanel.Workspace.Effect.{
  Effect, same, update_workspace-Effect, start-Effect, create-Effect, get_workspace-world,
}
use onepanel.Workspace.Report.{report-Effect}
use onepanel.Workspace.Machine.{
  Request, create, update_request, resume_request, archive_request, pause_request, delete_request,
  retry, report, serve,
}

module _ (env : Env) (namespace uid : String) where
  got_row :
      (w : World) (o : Option Row) (r : Row)
      → (get_workspace env namespace uid w).0 ≡ ok o
      → retry_row o ≡ ok r
      → select_live namespace uid w.rows ≡ some r
  unfolding get_workspace
  got_row w o r got is = ground arith

  action-Effect :
      (p : Phase) (r : Row) (w : World)
      → r.status.phase ≡ p
      → select_live namespace uid w.rows ≡ some r
      → Effect env namespace w.rows (action_by_phase p env namespace r w).1.rows
  unfolding action_by_phase pause resume delete_workspace update
  action-Effect failed_to_launch r w e found = start-Effect env namespace uid r w found e
  action-Effect failed_to_pause r w e found =
      update_workspace-Effect env namespace r.uid "pause" "delete" pausing [] w (λ c. cc)
  action-Effect failed_to_resume r w e found =
      update_workspace-Effect env namespace r.uid "create" "apply" launching r.parameters w
        (λ c. cc)
  action-Effect failed_to_terminate r w e found =
      update_workspace-Effect env namespace r.uid "delete" "delete" terminating [] w (λ c. cc)
  action-Effect failed_to_update r w e found =
      update_workspace-Effect env namespace r.uid "update" "apply" updating r.parameters w (λ c. cc)
  action-Effect _ r w e found = same refl

  retry-Effect :
      (is_authorized : String → Result Bool) (w : World)
      → Effect env namespace w.rows
          (retry_last_workspace_action is_authorized env namespace uid w).1.rows
  unfolding retry_last_workspace_action retry_action
  retry-Effect is_authorized w =
      bind-rows E (get_workspace env namespace uid) _ w (same refl)
        (ap rows_of (get_workspace-world env namespace uid w))
        λ o w₁ e₁ got. bind-rows E (lift (retry_row o)) _ w₁ (same e₁) refl λ r w₂ e₂ is.
          bind-rows E (lift (retry_verb r.status.phase)) _ w₂ (same (e₂ ∙ e₁)) refl λ verb w₃ e₃ _.
            bind-rows E (lift (is_authorized verb)) _ w₃ (same (e₃ ∙ e₂ ∙ e₁)) refl
              λ allowed w₄ e₄ _. act allowed r w₄ (e₄ ∙ e₃ ∙ e₂ ∙ e₁) (got_row w o r got is)
    where
      E : List Row → Type 0
      E = Effect env namespace w.rows

      rows_of : World → List Row
      rows_of v = v.rows

      act :
          (allowed : Bool) (r : Row) (v : World)
          → v.rows ≡ w.rows
          → select_live namespace uid w.rows ≡ some r
          → E (if_allowed allowed (retry_action env namespace r) v).1.rows
      act true r v e found =
          subst (λ rs. Effect env namespace rs (retry_action env namespace r v).1.rows) e
            (action-Effect r.status.phase r v refl (rw e found))
      act false r v e found = same e

-- the request does not report the phase `Failed to launch`
abbrev pub IsReport : Request → Type 0
IsReport (report uid p) = p ≢ failed_to_launch
IsReport _ = Unit

module _ (is_authorized : String → Result Bool) (env : Env) (namespace : String) (w : World) where
  pub serve-Effect :
      (q : Request)
      → IsReport q
      → Effect env namespace w.rows (serve is_authorized env namespace q w).1.rows
  unfolding serve
  serve-Effect (create n) h = create-Effect env namespace n w
  serve-Effect (update_request uid ps) h =
      update_workspace-Effect env namespace uid "update" "apply" updating ps w (λ c. cc)
  serve-Effect (resume_request uid ps) h =
      update_workspace-Effect env namespace uid "create" "apply" launching ps w (λ c. cc)
  serve-Effect (archive_request uid ps) h =
      update_workspace-Effect env namespace uid "delete" "delete" terminating ps w (λ c. cc)
  serve-Effect (pause_request uid) h =
      update_workspace-Effect env namespace uid "pause" "delete" pausing [] w (λ c. cc)
  serve-Effect (delete_request uid) h =
      update_workspace-Effect env namespace uid "delete" "delete" terminating [] w (λ c. cc)
  serve-Effect (retry uid) h = retry-Effect env namespace uid is_authorized w
  serve-Effect (report uid p) h = report-Effect env namespace uid p w h

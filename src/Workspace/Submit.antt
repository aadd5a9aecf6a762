-- ===== src/Workspace/Submit.antt =====
-- What a successful operation submits to Argo and writes to the table.
use onepanel.Base.{
  String, true, false, ◌≡◌, ◌∙◌, refl, some, List, [], ◌∷◌, ◌++◌, Map, lookup, arith, ok, inl, inr,
  Option-cases,
}
use onepanel.Params.{Parameter, named, has_name, get_parameter_value, merge_workspace_parameters}
use onepanel.Params.Merge.{get_parameter_value-merge_workspace_parameters}
use onepanel.Workspace.Phase.{Row, Phase, status_of}
use onepanel.Workspace.World.{World, Env, Execution}
use onepanel.Workspace.Table.{select_live, is_live, update_rows}
use onepanel.Workspace.Effect.{move_row, written_parameters, update_statement-move}
use onepanel.Workspace.Update.{
  update_workspace, inject_workspace_system_parameters, system_parameters, host_of,
}
use onepanel.Workspace.Outcome.{update_workspace-IsUpdated}

-- The parameters tell the workflow the action on the workspace, that on its resources and the host,
-- and keep the value of every other name.
pub record IsInjected (namespace uid action resource domain : String)
    (before after : List Parameter) : Type 0 where
  pub workspace_action : get_parameter_value "sys-workspace-action" after ≡ some action
  pub resource_action : get_parameter_value "sys-resource-action" after ≡ some resource
  pub host : get_parameter_value "sys-host" after ≡ some (host_of uid namespace domain)
  pub others :
      (k : String)
      → has_name k (system_parameters action resource (host_of uid namespace domain)) ≡ false
      → get_parameter_value k after ≡ get_parameter_value k before

pub inject_workspace_system_parameters-IsInjected :
    (namespace uid action resource : String) (before after : List Parameter) (config : Map String)
    → inject_workspace_system_parameters namespace uid before action resource config ≡ ok after
    → (domain : String) × (lookup "ONEPANEL_DOMAIN" config ≡ some domain)
      × IsInjected namespace uid action resource domain before after
unfolding inject_workspace_system_parameters
inject_workspace_system_parameters-IsInjected namespace uid action resource before after config h =
    elim (Option-cases (lookup "ONEPANEL_DOMAIN" config)) [
      | inl e ↦ absurd (ground arith)
      | inr (domain, e) ↦ (domain, e, inject domain (ground arith))
    ]
  where
    inject :
        (domain : String)
        → after
          ≡ merge_workspace_parameters before
              (system_parameters action resource (host_of uid namespace domain))
              false
        → IsInjected namespace uid action resource domain before after
    inject domain same = record {
      workspace_action =
          rw (same, get_parameter_value-merge_workspace_parameters)
            (unfold get_parameter_value in refl);
      resource_action =
          rw (same, get_parameter_value-merge_workspace_parameters)
            (unfold get_parameter_value in refl);
      host =
          rw (same, get_parameter_value-merge_workspace_parameters)
            (unfold get_parameter_value in refl);
      others = λ k new. rw (same, get_parameter_value-merge_workspace_parameters, new);
    }

-- what an update that succeeded did
pub record Submits (env : Env) (namespace uid action resource : String) (p : Phase)
    (parameters : List Parameter) (w w' : World) : Type 0 where
  pub row : Row
  pub found : select_live namespace uid w.rows ≡ some row
  pub execution : Execution
  pub executions : w'.executions ≡ w.executions ++ execution ∷ []
  pub where_to : execution.namespace ≡ namespace
  pub domain : String
  pub injected :
      IsInjected namespace row.uid action resource domain
        (merge_workspace_parameters row.parameters parameters true
          ++ named "sys-uid" (some uid) ∷ [])
        execution.parameters
  pub rows :
      w'.rows
      ≡ update_rows
          (is_live namespace uid)
          (move_row p env.now (
            written_parameters parameters
              (merge_workspace_parameters row.parameters parameters true)))
          w.rows

-- An update, pause, resume, deletion or archiving that succeeds found a workspace that is not terminated,
-- submitted one workflow to its namespace with the action in its parameters, and wrote the new phase with its
-- times to the rows of the workspace, and the merged parameters if any were passed.
pub update_workspace-Submits :
    (env : Env) (namespace uid action resource : String) (p : Phase) (parameters : List Parameter)
    (w : World)
    → (update_workspace env namespace uid action resource (status_of p) parameters w).0 ≡ ok tt
    → Submits env namespace uid action resource p parameters w
        (update_workspace env namespace uid action resource (status_of p) parameters w).1
update_workspace-Submits env namespace uid action resource p parameters w h =
    let u =
      update_workspace-IsUpdated env namespace uid action resource (status_of p) parameters w h in
    let (domain, _, injected) =
      inject_workspace_system_parameters-IsInjected namespace u.row.uid action resource _ u.injected
        u.config u.injects in
    record {
      row = u.row;
      found = u.found;
      execution = record { namespace = namespace; parameters = u.injected; template = u.template };
      executions = u.executions;
      where_to = refl;
      domain = domain;
      injected = injected;
      rows =
          u.rows
          ∙ update_statement-move env namespace uid p parameters
              (merge_workspace_parameters u.row.parameters parameters true) w.rows;
    }

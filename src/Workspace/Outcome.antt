-- ===== src/Workspace/Outcome.antt =====
-- What each workspace operation did to the table and to Argo, by its result.
use onepanel.Base.{
  String, true, ◌≡◌, inl, inr, some, List, [], ◌∷◌, ◌++◌, Map, arith, Error, Result, ok, err,
  Option-cases, Result-cases,
}
use onepanel.Params.{Parameter, named, merge_workspace_parameters}
use onepanel.Workspace.Phase.{Row, WorkspaceStatus}
use onepanel.Workspace.World.{World, Env, WorkflowTemplate}
use onepanel.Workspace.Table.{select_live}
use onepanel.Workspace.Update.{
  update_workspace, update_statement, inject_workspace_system_parameters, prepare_template,
}

-- a row was found, one workflow was submitted, and the row has the new status
pub record IsUpdated (env : Env) (namespace uid action resource : String) (status : WorkspaceStatus)
    (parameters : List Parameter) (w w' : World) : Type 0 where
  pub row : Row
  pub found : select_live namespace uid w.rows ≡ some row
  pub config : Map String
  pub injected : List Parameter
  pub template : WorkflowTemplate
  pub configured : env.config ≡ ok config
  pub injects :
      inject_workspace_system_parameters namespace row.uid
        (merge_workspace_parameters row.parameters parameters true
          ++ named "sys-uid" (some uid) ∷ [])
        action
        resource
        config
      ≡ ok injected
  pub rows :
      w'.rows
      ≡ update_statement env namespace uid status parameters
          (merge_workspace_parameters row.parameters parameters true)
          w.rows
  pub executions :
      w'.executions
      ≡ w.executions
        ++ record { namespace = namespace; parameters = injected; template = template } ∷ []

module _ (env : Env) (namespace uid action resource : String) (status : WorkspaceStatus)
    (parameters : List Parameter) (w : World) where
  abbrev outcome : Result (Unit {0}) × World
  outcome = update_workspace env namespace uid action resource status parameters w

  -- An update, pause, resume, deletion or archiving that returns an error leaves the table as it was.
  pub update_workspace_refused : (e : Error) → outcome.0 ≡ err e → outcome.1.rows ≡ w.rows
  unfolding update_workspace
  update_workspace_refused e h = ground arith

  pub update_workspace-IsUpdated :
      outcome.0 ≡ ok tt → IsUpdated env namespace uid action resource status parameters w outcome.1
  unfolding update_workspace
  update_workspace-IsUpdated h = elim (Option-cases (select_live namespace uid w.rows)) [
    | inl e ↦ absurd (ground arith)
    | inr (r, e) ↦ elim (Result-cases env.config) [
      | inr (x, c) ↦ absurd (ground arith)
      | inl (config, c) ↦ elim (Result-cases (injection r config)) [
        | inr (x, i) ↦ absurd (ground arith)
        | inl (injected, i) ↦
            elim (Result-cases (prepare_template env namespace r injected config)) [
              | inr (x, t) ↦ absurd (ground arith)
              | inl (template, t) ↦ record {
                row = r;
                found = e;
                config = config;
                injected = injected;
                template = template;
                configured = c;
                injects = i;
                rows = ground arith;
                executions = ground arith;
              }
            ]
      ]
    ]
  ]
    where
      injection : Row → Map String → Result (List Parameter)
      injection r config =
          inject_workspace_system_parameters namespace r.uid
            (merge_workspace_parameters r.parameters parameters true
              ++ named "sys-uid" (some uid) ∷ [])
            action resource config

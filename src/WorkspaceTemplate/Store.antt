-- ===== src/WorkspaceTemplate/Store.antt =====
-- The state of the workspace templates: two tables beside the state of the workflow templates.
use onepanel.Base.{ℕ, ℤ, String, Bool, Option, none, some, List, Map, Error, Result, ok, err}
use onepanel.Base.State.{M, check}
use onepanel.Params.{Parameter}
use onepanel.Spec.Defs.{WorkspaceSpec, Claim}
use onepanel.Spec.Tasks.{Plan, PostExecution}
use onepanel.Template.Store

-- a row of `workspace_templates`
pub record Row : Type 0 where
  pub id : ℕ
  pub uid : String
  pub name : String
  pub namespace : String
  pub description : String
  pub is_archived : Bool
  pub workflow_template_id : ℕ
  pub labels : Map String

-- a row of `workspace_template_versions`
pub record VersionRow : Type 0 where
  pub id : ℕ
  pub template_id : ℕ
  pub version : ℤ
  pub is_latest : Bool
  pub manifest : String
  pub labels : Map String

pub record World : Type 0 where
  pub rows : List Row
  pub versions : List VersionRow
  pub serial : ℕ
  pub version_serial : ℕ
  pub workflows : Store.Store

-- the fields of the struct `WorkspaceTemplate` that the methods read and write
pub record WorkspaceTemplate : Type 0 where
  pub id : ℕ
  pub version_id : ℕ
  pub uid : String
  pub name : String
  pub namespace : String
  pub description : String
  pub manifest : String
  pub version : ℤ
  pub is_latest : Bool
  pub is_archived : Bool
  pub labels : Map String
  pub workflow : Option Store.Template

pub data Call : Type 0 where
  begin commit : Call
  select_by_name select_template : Call
  insert_row insert_version mark_outdated update_row archive_row : Call

-- What one method sees of the outside, with what its calls on workflow templates see. A spec is decoded with
-- its workflow after the execution. A workspace is archived with its own table and
-- workflow, so that here the calls on workspaces are only seen to return or to fail.
pub record Env : Type 0 where
  pub inner : Store.Env
  pub fails : Call → Option Error
  pub config : Result (Map String)  -- GetSystemConfig
  pub validate : WorkspaceTemplate → Option Error  -- govalidator.ValidateStruct
  pub parse_spec : String → Result (WorkspaceSpec × Option PostExecution)  -- yaml.UnmarshalStrict
  pub parse_item : String → Result String  -- wfv1.ParseItem
  pub print : WorkspaceSpec → List Claim → Plan → Result String  -- yaml.Marshal
  pub decode_manifest : String → Result (List Parameter × String)  -- yaml.Unmarshal
  pub encode_manifest : List Parameter → String → Result String  -- yaml.Marshal
  pub list_workspaces : String → ℕ → Result (List String)  -- ListWorkspacesByTemplateID, the uids
  pub archive_workspace : String → String → Option Error  -- ArchiveWorkspace

unfoldable pub attempt : Env → Call → M World (Unit {0})
unfolding check
attempt env c = check (env.fails c)

-- a method on workflow templates
unfoldable pub put_store : {A : Type 0} → World → Result A × Store.Store → Result A × World
put_store w (r, s) = (r, record w { workflows = s })

unfoldable pub on_workflows : {A : Type 0} → M Store.Store A → M World A
unfolding put_store
on_workflows m w = put_store w (m w.workflows)

-- `defer tx.Rollback()`
unfoldable pub rollback : World → World → World
rollback w v = record v { rows = w.rows; versions = w.versions }

-- the block from `Begin` to `Commit`; a failed block or commit is followed by a clean-up
unfoldable pub close_transaction :
    {A : Type 0} → Env → (Error → M World A) → World → Result A × World → Result A × World
unfolding rollback
close_transaction env undo w (err e, v) = (err e, rollback w v)
close_transaction env undo w (ok a, v) = elim (env.fails commit) [
  | none ↦ (ok a, v)
  | some e ↦ undo e (rollback w v)
]

unfoldable pub transaction : {A : Type 0} → Env → (Error → M World A) → M World A → M World A
unfolding close_transaction
transaction env undo m w = elim (env.fails begin) [
  | none ↦ close_transaction env undo w (m w)
  | some e ↦ (err e, w)
]

-- ===== src/Template/Store.antt =====
-- The rows of the database and the objects of Argo that pkg/workflow_template.go works on, and the
-- calls of a method that may fail.
use onepanel.Base.{ℕ, ℤ, String, Bool, Option, none, some, List, Map, Error, Result, ok, err}
use onepanel.Base.State.{M, check}
use onepanel.Params.{Parameter, ParameterOption}
use onepanel.Mapping.{Value, Fields}

-- a row of `workflow_templates`
pub record TemplateRow : Type 0 where
  pub id : ℕ
  pub uid : String
  pub name : String
  pub namespace : String
  pub is_archived : Bool
  pub is_system : Bool
  pub labels : Map String

-- a row of `workflow_template_versions`
pub record VersionRow : Type 0 where
  pub id : ℕ
  pub template_id : ℕ
  pub version : ℕ
  pub is_latest : Bool
  pub manifest : String
  pub parameters : List Parameter
  pub labels : Map String
  pub description : String

-- a row of `workflow_executions`
pub record ExecutionRow : Type 0 where
  pub uid : String
  pub namespace : String
  pub version_id : ℕ
  pub is_archived : Bool

-- a row of `cron_workflows`
pub record CronRow : Type 0 where
  pub uid : String
  pub name : String
  pub namespace : String
  pub version_id : ℕ
  pub is_archived : Bool

-- an object `WorkflowTemplate` of Argo
pub record ArgoCopy : Type 0 where
  pub name : String
  pub namespace : String
  pub labels : Map String
  pub annotations : Map String
  pub spec : Value

-- the name of an Argo object in its namespace
pub record Key : Type 0 where
  pub namespace : String
  pub name : String

-- The tables, each in the order of the inserts, with the serials of the two that a method inserts into,
-- and the objects of Argo.
pub record Store : Type 0 where
  pub templates : List TemplateRow
  pub versions : List VersionRow
  pub executions : List ExecutionRow
  pub crons : List CronRow
  pub template_serial : ℕ
  pub version_serial : ℕ
  pub copies : List ArgoCopy
  pub workflows : List Key
  pub cron_workflows : List Key

-- the calls of the database and of Kubernetes that a method makes
pub data Call : Type 0 where
  begin commit : Call
  select_template select_versions select_crons select_executions : Call
  insert_template insert_version mark_outdated update_labels archive_template : Call
  list_copies create_copy update_copy : Call
  delete_copy delete_workflow delete_cron : String → Call
  archive_execution archive_cron : String → Call

-- What one method sees of the outside: the clock, the failure of each call, and the codecs and the
-- linter of the libraries.
pub record Env : Type 0 where
  pub now : ℕ  -- time.Now().UnixNano()
  pub fails : Call → Option Error
  pub decode : String → Result (List Parameter)  -- yaml.Unmarshal of arguments.parameters
  pub unmarshal : String → Result Fields  -- yaml.Unmarshal
  pub marshal : Value → Result String  -- yaml.Marshal
  pub to_argo : String → Result Value  -- yaml.Unmarshal into an Argo template
  pub lint : String → String → Option Error  -- ValidateWorkflowExecution
  pub pool_options : Result (List ParameterOption)  -- NodePoolOptionsAsParameters

-- a call, of which only the failure is seen here
unfoldable pub attempt : Env → Call → M Store (Unit {0})
unfolding check
attempt env c = check (env.fails c)

-- `defer tx.Rollback()`: an error before the commit gives back the rows of the transaction's tables
unfoldable pub rollback : Store → Store → Store
rollback s t = record t { templates = s.templates; versions = s.versions }

-- the block from `Begin` to `Commit`, and what follows a failed commit
unfoldable pub close_transaction :
    {A : Type 0} → Env → (A → M Store (Unit {0})) → Store → Result A × Store → Result A × Store
unfolding rollback
close_transaction env undo s (err e, t) = (err e, rollback s t)
close_transaction env undo s (ok a, t) = elim (env.fails commit) [
  | none ↦ (ok a, t)
  | some e ↦ (err e, (undo a (rollback s t)).1)
]

unfoldable pub transaction : {A : Type 0} → Env → (A → M Store (Unit {0})) → M Store A → M Store A
unfolding close_transaction
transaction env undo m s = elim (env.fails begin) [
  | none ↦ close_transaction env undo s (m s)
  | some e ↦ (err e, s)
]

-- the fields of the struct `WorkflowTemplate` that the methods read and write
pub record Template : Type 0 where
  pub id : ℕ
  pub uid : String
  pub name : String
  pub manifest : String
  pub version : ℤ
  pub version_id : ℕ
  pub is_latest : Bool
  pub is_archived : Bool
  pub is_system : Bool
  pub labels : Map String
  pub parameters : List Parameter
  pub description : String
  pub resource : Option String
  pub resource_uid : Option String
  pub copy : Option ArgoCopy

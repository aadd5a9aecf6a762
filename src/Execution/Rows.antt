-- ===== src/Execution/Rows.antt =====
-- The statements of pkg/workflow_execution.go on the table `workflow_executions`.
use onepanel.Base.{
  ℕ, String, Bool, true, false, not, ◌&&◌, ◌==◌, Option, none, some, List, [], ◌∷◌, ◌++◌, Map,
  Result, ok, err, user_error, not_found, ◌>>=◌, if◌then◌else◌,
}
use onepanel.Metrics.{Metric, merge}
use onepanel.Mapping.{Value}
use onepanel.Params.{Parameter}

-- a row; a phase is the text of an Argo node phase, or `Terminated`
pub record Row : Type 0 where
  pub uid : String
  pub name : String
  pub namespace : String
  pub version_id : ℕ
  pub phase : String
  pub started_at : Option ℕ
  pub finished_at : Option ℕ
  pub is_archived : Bool
  pub parameters : List Parameter
  pub labels : Map String
  pub metrics : List (Metric Value)

-- UPDATE … WHERE …
unfoldable pub update_rows : (Row → Bool) → (Row → Row) → List Row → List Row
update_rows test f [] = []
update_rows test f (r ∷ rs) = (if test r then f r else r) ∷ update_rows test f rs

-- WHERE namespace = ? AND uid = ?
unfoldable pub is_at : String → String → Row → Bool
is_at namespace uid r = r.namespace == namespace && r.uid == uid

-- createWorkflowExecutionDB
unfoldable pub create_workflow_execution_db : Row → List Row → List Row
create_workflow_execution_db r rs =
    rs
    ++ record r { phase = "Pending"; is_archived = false; started_at = none; finished_at = none }
      ∷ []

-- WHERE name = ? AND phase <> 'Terminated', with no namespace
unfoldable pub is_unfinished : String → Row → Bool
is_unfinished name r = r.name == name && not (r.phase == "Terminated")

-- FinishWorkflowExecutionStatisticViaExitHandler, at the time `now`
unfoldable pub finish_row : String → String → String → ℕ → ℕ → Row → Row
finish_row namespace name phase started_at now r = record r {
  started_at = some started_at;
  name = name;
  namespace = namespace;
  finished_at = some now;
  phase = phase;
}

unfoldable pub finish_statistic : String → String → String → ℕ → ℕ → List Row → List Row
unfolding update_rows is_unfinished finish_row
finish_statistic namespace name phase started_at now =
    update_rows (is_unfinished name) (finish_row namespace name phase started_at now)

-- UpdateWorkflowExecutionStatus
unfoldable pub status_row : String → ℕ → Row → Row
status_row phase now r =
    if phase == "Running"
    then record r { phase = phase; started_at = some now }
    else record r { phase = phase }

unfoldable pub update_workflow_execution_status : String → String → String → ℕ → List Row → List Row
unfolding update_rows is_at status_row
update_workflow_execution_status namespace uid phase now =
    update_rows (is_at namespace uid) (status_row phase now)

-- TerminateWorkflowExecution
unfoldable pub terminate_row : ℕ → Row → Row
terminate_row now r = record r {
  phase = "Terminated";
  started_at = some now;
  finished_at = some now;
}

unfoldable pub terminate_workflow_execution : String → String → ℕ → List Row → List Row
unfolding update_rows is_at terminate_row
terminate_workflow_execution namespace uid now =
    update_rows (is_at namespace uid) (terminate_row now)

-- ArchiveWorkflowExecution
unfoldable pub archive_row : Row → Row
archive_row r = record r { is_archived = true }

unfoldable pub archive_workflow_execution : String → String → List Row → List Row
unfolding update_rows is_at archive_row
archive_workflow_execution namespace uid = update_rows (is_at namespace uid) archive_row

unfoldable pub set_metrics : List (Metric Value) → Row → Row
set_metrics ms r = record r { metrics = ms }

-- the row that GetWorkflowExecution returned, or an error
unfoldable pub loaded_row : Result (Option Row) → Result Row
loaded_row (err e) = err e
loaded_row (ok none) = err (user_error not_found "Workflow execution not found")
loaded_row (ok (some r)) = ok r

-- AddWorkflowExecutionMetrics, after GetWorkflowExecution
unfoldable pub add_workflow_execution_metrics :
    Result (Option Row)
    → String
    → String
    → List (Metric Value)
    → Bool
    → List Row
    → Result (List Row)
unfolding loaded_row update_rows is_at set_metrics merge
add_workflow_execution_metrics found namespace uid ms override rs = loaded_row found >>= λ r.
    ok (update_rows (is_at namespace uid) (set_metrics (merge r.metrics ms override)) rs)

-- UpdateWorkflowExecutionMetrics, after GetWorkflowExecution
unfoldable pub update_workflow_execution_metrics :
    Result (Option Row) → String → String → List (Metric Value) → List Row → Result (List Row)
unfolding loaded_row update_rows is_at set_metrics
update_workflow_execution_metrics found namespace uid ms rs =
    loaded_row found >>= λ r. ok (update_rows (is_at namespace uid) (set_metrics ms) rs)

-- ===== src/Execution/Inject.antt =====
-- The tasks that pkg/workflow_execution.go injects into a workflow: the calls that report the status and
-- the statistics of the execution, and the sidecar of the file browser.
use onepanel.Base.{
  ℕ, String, Bool, false, not, ◌||◌, ◌==◌, ◌⊕◌, Option, none, some, List, [], ◌∷◌, ◌++◌, map,
  is_nil, Result, ok, err, panic, ◌>>=◌, if◌then◌else◌, format_nat,
}
use onepanel.Execution.Workflow.{
  DagTask, Container, Sidecar, Template, Workflow, empty_template, empty_container,
}

-- getCURLNodeTemplate, of the name, the method, the path and the body
unfoldable pub get_curl_node_template : String → String → String → String → Template
get_curl_node_template name method path body = record (empty_template name) {
  container = some (
      empty_container (
        ("SERVICE_ACCOUNT_TOKEN=$(cat /var/run/secrets/kubernetes.io/serviceaccount/token) && curl -X "
          ⊕ method
          ⊕ " -s -o /dev/null -w '%{http_code}' --connect-timeout 10 --retry 10 --retry-delay 5 "
          ⊕ "--retry-all-errors --fail 'http://onepanel-core.onepanel.svc.cluster.local" ⊕ path
          ⊕ "' -H \"Content-Type: application/json\" -H 'Connection: keep-alive' -H 'Accept: application/json' "
          ⊕ "-H 'Authorization: Bearer '\"$SERVICE_ACCOUNT_TOKEN\"'' --data '" ⊕ body
          ⊕ "' --compressed")
        ∷ []));
}

-- the task of a template of its own name
abbrev pub own_task : Template → DagTask
own_task t = record { name = t.name; template = t.name; dependencies = none }

-- injectFilesyncerSidecar
abbrev filesyncer : Sidecar
filesyncer = record {
  name = "sys-filesyncer";
  env = record { name = "ONEPANEL_INTERACTIVE_SIDECAR"; value = "true" } ∷ [];
  ports = record { name = ""; protocol = ""; container_port = 8888 } ∷ [];
  mirror_volume_mounts = false;
}

abbrev has_mounts : Option Container → Bool
has_mounts none = false
has_mounts (some c) = not (is_nil c.mounts)

unfoldable pub add_filesyncer : Template → Template
add_filesyncer t =
    if has_mounts t.container || has_mounts t.script
    then record t { sidecars = t.sidecars ++ filesyncer ∷ [] }
    else t

unfoldable pub inject_filesyncer_sidecar : Workflow → Workflow
unfolding add_filesyncer
inject_filesyncer_sidecar wf = record wf { templates = map add_filesyncer wf.templates }

-- a change of the first template of a name; `none` is a nil pointer that is read through
unfoldable pub change_first :
    String → (Template → Option Template) → List Template → Result (List Template)
change_first name f [] = ok []
change_first name f (t ∷ ts) =
    let rest = change_first name f ts in
    if t.name == name
    then elim (f t) [ none ↦ err panic | some u ↦ ok (u ∷ ts) ]
    else rest >>= λ us. ok (t ∷ us)

-- `if task.Dependencies == nil { … = []string{name} }`
unfoldable pub wait_for : String → DagTask → DagTask
wait_for name t = elim t.dependencies [
  | none ↦ record t { dependencies = some (name ∷ []) }
  | some ds ↦ t
]

-- The entrypoint's tasks without dependencies wait for the status call, which is added. Without a DAG
-- the append reads through nil.
unfoldable pub add_status_task : Template → Template → Option Template
unfolding wait_for
add_status_task caller t = elim t.dag [
  | none ↦ none
  | some ts ↦ some (record t { dag = some (map (wait_for caller.name) ts ++ own_task caller ∷ []) })
]

unfoldable pub status_caller : String → Template
unfolding get_curl_node_template
status_caller phase =
    get_curl_node_template "sys-send-status" "PUT"
      "/apis/v1beta1/{{workflow.namespace}}/workflow_executions/{{workflow.name}}/status"
      (("{\"phase\":\"" ⊕ phase) ⊕ "\",\"startedAt\":null,\"finishedAt\":null}")

-- injectWorkflowExecutionStatusCaller
unfoldable pub inject_workflow_execution_status_caller : Workflow → String → Result Workflow
unfolding status_caller change_first add_status_task
inject_workflow_execution_status_caller wf phase =
    change_first wf.entrypoint (add_status_task (status_caller phase))
      (wf.templates ++ status_caller phase ∷ [])
    >>= λ ts. ok (record wf { templates = ts })

unfoldable pub statistics_caller : ℕ → Template
unfolding get_curl_node_template format_nat
statistics_caller id =
    get_curl_node_template "sys-send-exit-stats" "POST"
      "/apis/v1beta1/{{workflow.namespace}}/workflow_executions/{{workflow.name}}/statistics"
      (("{\"workflowStatus\":\"{{workflow.status}}\",\"workflowTemplateId\":" ⊕ format_nat id)
        ⊕ "}")

unfoldable pub add_exit_task : Template → Template → Option Template
add_exit_task caller t = elim t.dag [
  | none ↦ none
  | some ts ↦ some (record t { dag = some (ts ++ own_task caller ∷ []) })
]

-- injectExitHandlerWorkflowExecutionStatistic: the call joins the exit handler, or a new one is made
unfoldable pub inject_exit_handler_workflow_execution_statistic : Workflow → ℕ → Result Workflow
unfolding statistics_caller change_first add_exit_task
inject_exit_handler_workflow_execution_statistic wf id =
    let caller = statistics_caller id in
    let ts = wf.templates ++ caller ∷ [] in
    let own = change_first wf.on_exit (add_exit_task caller) ts in
    if wf.on_exit == ""
    then ok (record wf {
      on_exit = "exit-handler";
      templates =
          ts ++ record (empty_template "exit-handler") { dag = some (own_task caller ∷ []) } ∷ [];
    })
    else own >>= λ us. ok (record wf { templates = us })

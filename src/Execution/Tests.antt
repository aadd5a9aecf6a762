-- ===== src/Execution/Tests.antt =====
-- Workflow executions at concrete values.
use onepanel.Base.{
  String, ◌≡◌, refl, none, some, List, [], ◌∷◌, Map, map, Result, ok, err, panic, false, All,
  Option,
}
use onepanel.Params.{named}
use onepanel.Mapping.{Fields, Items, field, mapping, seq, text, end, cons, nil}
use onepanel.Execution.Rows.{Row}
use onepanel.Execution.History.{
  Event, create, finish, terminate, archive, status, apply_all, IsStopped, apply_all-IsStopped,
}
use onepanel.Execution.Workflow.{DagTask, EnvVar, Template, Workflow, empty_template}
use onepanel.Execution.Services.{Access}
use onepanel.Execution.Access.{inject_access_for_sidecars}
use onepanel.Execution.Inject.{status_caller, inject_workflow_execution_status_caller}
use onepanel.Execution.Roots.{
  find_first, IsRooted, inject_workflow_execution_status_caller-IsRooted,
  inject_workflow_execution_status_caller_panics,
}
use onepanel.Execution.Filter.{kept_parameters}
use onepanel.Execution.Submitted.{merge_parameters, passed, not_passed, replace_value}
use onepanel.Execution.Overrides.{first_value, or_first, first_value-merge_parameters}

abbrev stopped : Row
stopped = record {
  uid = "run-1";
  name = "run-1";
  namespace = "team";
  version_id = 1;
  phase = "Terminated";
  started_at = some 5;
  finished_at = some 5;
  is_archived = false;
  parameters = [];
  labels = [];
  metrics = [];
}

abbrev events : List Event
events =
    finish "other" "run-1" "Succeeded" 3 9
    ∷ create (record stopped { uid = "run-2"; name = "run-2" })
    ∷ status "team" "run-2" "Running" 10
    ∷ terminate "team" "run-1" 11
    ∷ archive "team" "run-1"
    ∷ []

apply_all-IsStopped_example : All (IsStopped "run-1") (apply_all events (stopped ∷ []))
apply_all-IsStopped_example =
    apply_all-IsStopped "run-1" events (stopped ∷ []) (tt, (refl, (refl, (tt, (tt, tt)))))
      ((λ e. refl), tt)

abbrev dag_step : String → Option (List String) → DagTask
dag_step name needs = record { name = name; template = name; dependencies = needs }

abbrev main : Template
main = record (empty_template "main") {
  dag = some (dag_step "load" none ∷ dag_step "train" (some ("load" ∷ [])) ∷ []);
}

abbrev workflow : Workflow
workflow = record {
  name = "run-1";
  generate_name = "";
  labels = [];
  entrypoint = "main";
  on_exit = "";
  service_account = "";
  pod_gc = none;
  parameters = [];
  volumes = [];
  templates = main ∷ empty_template "load" ∷ empty_template "train" ∷ [];
}

inject_workflow_execution_status_caller-IsRooted_example :
    (wf' : Workflow) × (inject_workflow_execution_status_caller workflow "Running" ≡ ok wf')
    × (wf'.entrypoint ≡ "main")
    × IsRooted
        (status_caller "Running")
        "main"
        (dag_step "load" none ∷ dag_step "train" (some ("load" ∷ [])) ∷ [])
        (main ∷ empty_template "load" ∷ empty_template "train" ∷ status_caller "Running" ∷ [])
        wf'.templates
inject_workflow_execution_status_caller-IsRooted_example =
    inject_workflow_execution_status_caller-IsRooted workflow "Running" main
      (dag_step "load" none ∷ dag_step "train" (some ("load" ∷ [])) ∷ [])
      (unfold find_first in refl) refl

inject_workflow_execution_status_caller_panics_example :
    inject_workflow_execution_status_caller (record workflow { entrypoint = "load" }) "Running"
    ≡ err panic
inject_workflow_execution_status_caller_panics_example =
    inject_workflow_execution_status_caller_panics (record workflow { entrypoint = "load" })
      "Running" (empty_template "load") (unfold find_first in refl) refl

abbrev config : Map String
config = ("ONEPANEL_DOMAIN", "example.com") ∷ []

abbrev own : List EnvVar
own = record { name = "ONEPANEL_DOMAIN"; value = "mine" } ∷ []

abbrev items : Items
items =
    cons (mapping (field "name" (text "size") (field "type" (text "input.number") end)))
      (cons (text "stray") nil)

abbrev manifest : Fields
manifest =
    field "spec" (mapping (field "arguments" (mapping (field "parameters" (seq items) end)) end))
      end

filter_runs :
    kept_parameters items
    ≡ cons (mapping (field "name" (text "size") (field "value" (text "<value>") end))) nil
unfolding kept_parameters
filter_runs = refl

first_value-merge_parameters_example :
    first_value "size" (named "size" (some "2") ∷ named "rate" (some "0.1") ∷ [])
    ≡ or_first
        (first_value "size" (named "size" (some "2") ∷ []))
        (first_value "size" (named "rate" (some "0.1") ∷ named "size" (some "1") ∷ []))
first_value-merge_parameters_example =
    first_value-merge_parameters "size" (named "size" (some "2") ∷ [])
      (named "rate" (some "0.1") ∷ named "size" (some "1") ∷ [])
      (named "size" (some "2") ∷ named "rate" (some "0.1") ∷ [])
      (unfold merge_parameters passed not_passed in refl)

placeholders_replaced :
    replace_value "team" "w-1" "{{ workflow.namespace }}/{{workspace.uid}}" ≡ "team/w-1"
unfolding replace_value
placeholders_replaced = refl

abbrev access : Access
access = record {
  uuid = λ n. "u";
  domain = "example.com";
  marshal_service = λ s. ok s.name;
  marshal_virtual_service = λ v. ok v.name;
}

abbrev served : Workflow
served = record workflow {
  on_exit = "last";
  templates =
      main
      ∷ record (empty_template "load") {
        sidecars =
            record {
              name = "view";
              env = record { name = "ONEPANEL_INTERACTIVE_SIDECAR"; value = "true" } ∷ [];
              ports = record { name = "http"; protocol = "TCP"; container_port = 80 } ∷ [];
              mirror_volume_mounts = false;
            }
            ∷ [];
      }
      ∷ record (empty_template "last") { dag = some (dag_step "notify" none ∷ []) }
      ∷ [];
}

-- the names of the templates of an order
abbrev names_in : Result (Workflow × List Template) → List String
names_in (ok p) = map (λ (t : Template). t.name) p.1
names_in (err e) = []

access_order :
    names_in (inject_access_for_sidecars access "team" served)
    ≡ "main" ∷ "sys-k8s-service-template-add-u" ∷ "sys-k8s-virtual-service-template-add-u"
      ∷ "sys-k8s-service-template-delete-u" ∷ "sys-k8s-virtual-service-template-delete-u" ∷ "load"
      ∷ "last" ∷ []
unfolding inject_access_for_sidecars
access_order = refl

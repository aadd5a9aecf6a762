-- ===== src/Execution/Access.antt =====
-- injectAccessForSidecars of pkg/workflow_execution.go: the services and routes of the sidecars that are reached
-- by HTTP. A DAG is shared by the copies of its template, so that the order that is returned sees all changes.
use onepanel.Base.{
  ℕ, zero, suc, ◌+◌, String, true, not, ◌==◌, ◌⊕◌, Option, none, some, List, [], ◌∷◌, ◌++◌, map,
  any, insert, is_nil, user_error, invalid_argument, panic, Result, ok, err, ◌>>=◌, if◌then◌else◌,
}
use onepanel.Execution.Workflow.{DagTask, Sidecar, Template, Workflow, empty_template}
use onepanel.Execution.Inject.{change_first}
use onepanel.Execution.Variables.{has_env_var_value}
use onepanel.Execution.Services.{
  Access, Names, names_of, host_name, service_of, virtual_service_of, access_templates,
}

abbrev dependencies_of : DagTask → List String
dependencies_of t = elim t.dependencies [ none ↦ [] | some ds ↦ ds ]

unfoldable pub also_wait : String → DagTask → DagTask
also_wait name t = record t { dependencies = some (dependencies_of t ++ name ∷ []) }

-- the first task of the entrypoint: it waits for the route in place of the status call, or also for it
unfoldable pub wait_for_route : String → DagTask → DagTask
unfolding also_wait
wait_for_route name t =
    if any (λ d. d == "sys-send-status") (dependencies_of t)
    then record t { dependencies = some (name ∷ []) }
    else also_wait name t

abbrev add_tasks : Names → List DagTask
add_tasks names =
    record {
      name = "sys-add-" ⊕ names.service_task;
      template = "sys-k8s-service-template-add-" ⊕ names.service_template;
      dependencies = some ("sys-send-status" ∷ []);
    }
    ∷ record {
      name = "sys-add-" ⊕ names.route_task;
      template = "sys-k8s-virtual-service-template-add-" ⊕ names.route_template;
      dependencies = some (("sys-add-" ⊕ names.service_task) ∷ []);
    }
    ∷ []

abbrev delete_tasks : Names → List DagTask
delete_tasks names =
    record {
      name = "sys-delete-" ⊕ names.service_task;
      template = "sys-k8s-service-template-delete-" ⊕ names.service_template;
      dependencies = none;
    }
    ∷ record {
      name = "sys-delete-" ⊕ names.route_task;
      template = "sys-k8s-virtual-service-template-delete-" ⊕ names.route_template;
      dependencies = some (("sys-delete-" ⊕ names.service_task) ∷ []);
    }
    ∷ []

-- the tasks of an entrypoint; `tasks[0]` panics when there are none
unfoldable pub entry_tasks : Names → List DagTask → Result (List DagTask)
unfolding wait_for_route
entry_tasks names [] = err panic
entry_tasks names (t ∷ ts) =
    ok ((wait_for_route ("sys-add-" ⊕ names.route_task) t ∷ ts) ++ add_tasks names)

-- every template of the entrypoint's name, if it has a DAG
unfoldable pub add_access : String → Names → List Template → Result (List Template)
unfolding entry_tasks
add_access entrypoint names [] = ok []
add_access entrypoint names (t ∷ ts) =
    let rest = add_access entrypoint names ts in
    if t.name == entrypoint
    then elim t.dag [
      | none ↦ (rest >>= λ us. ok (t ∷ us))
      | some tasks ↦
          (entry_tasks names tasks >>= λ new. rest >>= λ us. ok (record t { dag = some new } ∷ us))
    ]
    else (rest >>= λ us. ok (t ∷ us))

-- the tasks of the exit handler: the statistics wait for the deletions, or else the first task does
unfoldable pub wait_for_deletion : String → List DagTask → List DagTask
unfolding also_wait
wait_for_deletion name [] = []
wait_for_deletion name (t ∷ ts) =
    if any (λ (u : DagTask). u.name == "sys-send-exit-stats") (t ∷ ts)
    then map (λ (u : DagTask). if u.name == "sys-send-exit-stats" then also_wait name u else u)
        (t ∷ ts)
    else also_wait name t ∷ ts

unfoldable pub exit_tasks : Names → Template → Option Template
unfolding wait_for_deletion
exit_tasks names t = elim t.dag [
  | none ↦ none
  | some tasks ↦ some (record t {
    dag = some (wait_for_deletion ("sys-delete-" ⊕ names.route_task) (tasks ++ delete_tasks names));
  })
]

unfoldable pub delete_access : Names → Workflow → Result Workflow
unfolding change_first exit_tasks
delete_access names wf =
    if wf.on_exit == ""
    then ok (record wf {
      on_exit = "exit-handler";
      templates =
          wf.templates
          ++ record (empty_template "exit-handler") { dag = some (delete_tasks names) } ∷ [];
    })
    else (change_first wf.on_exit (exit_tasks names) wf.templates >>= λ ts.
        ok (record wf { templates = ts }))

-- a change of the element at a position
unfoldable pub change_at : {A : Type 0} → ℕ → (A → A) → List A → List A
change_at n f [] = []
change_at zero f (x ∷ xs) = f x ∷ xs
change_at (suc n) f (x ∷ xs) = x ∷ change_at n f xs

-- what the template of the sidecar gets: the label of the selector and the URL of the sidecar
unfoldable pub mark_template : Access → Names → ℕ → Sidecar → Template → Template
unfolding change_at insert
mark_template a names position s t = record t {
  sidecars =
      change_at position (λ (x : Sidecar). record x { mirror_volume_mounts = true }) t.sidecars;
  labels = insert names.service_task names.service t.labels;
  output_parameters = t.output_parameters ++ ("sys-sidecar-url--" ⊕ s.name, host_name a names) ∷ [];
}

-- the workflow, the number of names used, and the new templates
abbrev Progress : Type 0
Progress = (Workflow × ℕ) × List Template

unfoldable pub inject_access : Access → String → ℕ → ℕ → Sidecar → Workflow → ℕ → Result Progress
unfolding names_of service_of virtual_service_of access_templates add_access delete_access change_at
    mark_template has_env_var_value
inject_access a namespace index position s wf n =
    if not (has_env_var_value s.env "ONEPANEL_INTERACTIVE_SIDECAR" "true")
    then ok ((wf, n), [])
    else if is_nil s.ports
    then err (user_error invalid_argument (("sidecar " ⊕ s.name) ⊕ " must have at least one port."))
    else (names_of a namespace n >>= λ names.
        a.marshal_service (service_of names s.ports) >>= λ service.
        a.marshal_virtual_service (virtual_service_of a names s.ports) >>= λ route.
        add_access wf.entrypoint names
          (change_at index (mark_template a names position s) wf.templates)
        >>= λ ts. delete_access names (record wf { templates = ts }) >>= λ wf'.
            ok ((wf', n + 6), access_templates names service route))

unfoldable pub inject_sidecars :
    Access → String → ℕ → ℕ → List Sidecar → Workflow → ℕ → Result Progress
unfolding inject_access
inject_sidecars a namespace index position [] wf n = ok ((wf, n), [])
inject_sidecars a namespace index position (s ∷ ss) wf n =
    inject_access a namespace index position s wf n >>= λ first.
    inject_sidecars a namespace index (suc position) ss first.0.0 first.0.1 >>= λ others.
    ok (others.0, first.1 ++ others.1)

-- the loop over the templates: the new templates that stand before each
unfoldable pub inject_each :
    Access → String → ℕ → List Template → Workflow → ℕ → Result (Workflow × List (List Template))
unfolding inject_sidecars
inject_each a namespace index [] wf n = ok (wf, [])
inject_each a namespace index (t ∷ ts) wf n =
    inject_sidecars a namespace index 0 t.sidecars wf n >>= λ first.
    inject_each a namespace (suc index) ts first.0.0 first.0.1 >>= λ others.
    ok (others.0, first.1 ∷ others.1)

-- the order: each template behind its new ones
unfoldable pub in_order : List (List Template) → List Template → List Template
in_order [] ts = []
in_order (new ∷ news) [] = []
in_order (new ∷ news) (t ∷ ts) = new ++ t ∷ in_order news ts

unfoldable pub inject_access_for_sidecars :
    Access → String → Workflow → Result (Workflow × List Template)
unfolding inject_each in_order
inject_access_for_sidecars a namespace wf = inject_each a namespace 0 wf.templates wf 0 >>= λ done.
    ok (done.0, in_order done.1 done.0.templates)

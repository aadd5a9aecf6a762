-- ===== src/Execution/Submitted.antt =====
-- What createWorkflow of pkg/workflow_execution.go makes of a workflow and its options before it is
-- submitted: the parameters that the options override, and the placeholders in the parameters' values.
use Prim.Native.Char.{code}
use Prim.Native.String.{len}
use onepanel.Base.{
  ℕ, zero, suc, ◌-◌, String, Bool, ◌||◌, ◌==◌, ◌⊕◌, Option, none, some, List, [], ◌∷◌, ◌++◌, map,
  any, Map, nat_eq, Result, ok, err, panic, ◌>>=◌, if◌then◌else◌,
}
use onepanel.Params.{Parameter, named}
use onepanel.Workspace.Uid.{generate_workspace_uid}
use onepanel.Execution.Workflow.{Workflow}
use onepanel.Execution.Inject.{
  inject_filesyncer_sidecar, inject_workflow_execution_status_caller,
  inject_exit_handler_workflow_execution_statistic,
}
use onepanel.Execution.Variables.{Options, inject_automated_fields}

-- WorkflowExecutionOptions
pub record ExecutionOptions : Type 0 where
  pub name : String
  pub generate_name : String
  pub entrypoint : String
  pub service_account : String
  pub labels : Option (Map String)
  pub parameters : List Parameter

abbrev or_kept : String → String → String
or_kept new old = if new == "" then old else new

-- `Value: wfv1.AnyStringPtr(*param.Value)`
unfoldable pub passed : List Parameter → Result (List Parameter)
passed [] = ok []
passed (p ∷ ps) =
    let rest = passed ps in
    elim p.value [ none ↦ err panic | some v ↦ rest >>= λ qs. ok (named p.name (some v) ∷ qs) ]

abbrev pub is_passed : List Parameter → String → Bool
is_passed ps name = any (λ (p : Parameter). p.name == name) ps

unfoldable pub not_passed : List Parameter → List Parameter → List Parameter
not_passed options [] = []
not_passed options (p ∷ ps) =
    let rest = not_passed options ps in if is_passed options p.name then rest else p ∷ rest

unfoldable pub merge_parameters : List Parameter → List Parameter → Result (List Parameter)
unfolding passed not_passed
merge_parameters options parameters =
    passed options >>= λ ps. ok (ps ++ not_passed options parameters)

-- the options' fields, where they are set
unfoldable pub apply_options : ExecutionOptions → Workflow → Result Workflow
unfolding merge_parameters
apply_options o wf = merge_parameters o.parameters wf.parameters >>= λ ps. ok (record wf {
  name = or_kept o.name wf.name;
  generate_name = or_kept o.generate_name wf.generate_name;
  entrypoint = or_kept o.entrypoint wf.entrypoint;
  service_account = or_kept o.service_account wf.service_account;
  labels = elim o.labels [ none ↦ wf.labels | some l ↦ l ];
  parameters = ps;
})

-- `\s*`
unfoldable pub skip_spaces : String → String
skip_spaces String.[] = String.[]
skip_spaces (String.◌∷◌ c s) =
    let rest = skip_spaces s in
    if nat_eq (code c) 32
      || nat_eq (code c) 9
      || nat_eq (code c) 10
      || nat_eq (code c) 12
      || nat_eq (code c) 13
    then rest
    else String.◌∷◌ c s

-- the rest after a literal
unfoldable pub after_literal : String → String → Option String
after_literal String.[] s = some s
after_literal (String.◌∷◌ p ps) String.[] = none
after_literal (String.◌∷◌ p ps) (String.◌∷◌ c s) =
    let rest = after_literal ps s in if nat_eq (code p) (code c) then rest else none

-- `.`, in an ASCII text
unfoldable pub after_any : String → Option String
after_any String.[] = none
after_any (String.◌∷◌ c s) = if nat_eq (code c) 10 then none else some s

abbrev and_then : Option String → (String → Option String) → Option String
and_then none f = none
and_then (some s) f = f s

-- the rest after `{{\s*owner.field\s*}}`
unfoldable pub after_placeholder : String → String → String → Option String
unfolding after_literal skip_spaces after_any
after_placeholder owner key s = and_then (after_literal "{{" s) λ a.
    and_then (after_literal owner (skip_spaces a)) λ b.
      and_then (after_any b)
        λ c. and_then (after_literal key c) λ d. after_literal "}}" (skip_spaces d)

-- ReplaceAllString; `skipped` characters of a match are still to be passed over
unfoldable pub replace_placeholders : (String → Option String) → String → ℕ → String → String
replace_placeholders match value skipped String.[] = String.[]
replace_placeholders match value (suc n) (String.◌∷◌ c s) = replace_placeholders match value n s
replace_placeholders match value zero (String.◌∷◌ c s) = elim (match (String.◌∷◌ c s)) [
  | none ↦ String.◌∷◌ c (replace_placeholders match value zero s)
  | some rest ↦ value ⊕ replace_placeholders match value (len s - len rest) s
]

unfoldable pub after_namespace : String → Option String
unfolding after_placeholder
after_namespace s = elim (after_placeholder "workflow" "namespace" s) [
  | some rest ↦ some rest
  | none ↦ after_placeholder "workspace" "namespace" s
]

unfoldable pub replace_value : String → String → String → String
unfolding replace_placeholders after_namespace after_placeholder
replace_value namespace uid value =
    let replaced = replace_placeholders after_namespace namespace 0 value in
    if uid == ""
    then replaced
    else replace_placeholders (after_placeholder "workspace" "uid") uid 0 replaced

unfoldable pub replace_parameter : String → String → Parameter → Parameter
unfolding replace_value
replace_parameter namespace uid p = elim p.value [
  | none ↦ p
  | some v ↦ record p { value = some (replace_value namespace uid v) }
]

-- the uid of the last parameter `sys-name`; a nil value is read through
unfoldable pub workspace_uid : String → List Parameter → Result String
unfolding generate_workspace_uid
workspace_uid uid [] = ok uid
workspace_uid uid (p ∷ ps) =
    if p.name == "sys-name"
    then elim p.value [
      | none ↦ err panic
      | some v ↦ (generate_workspace_uid v >>= λ made. workspace_uid made ps)
    ]
    else workspace_uid uid ps

unfoldable pub replace_parameters : String → Workflow → Result Workflow
unfolding workspace_uid replace_parameter
replace_parameters namespace wf = workspace_uid "" wf.parameters >>= λ uid.
    ok (record wf { parameters = map (replace_parameter namespace uid) wf.parameters })

-- createWorkflow, up to the sidecars' services
unfoldable pub prepare_workflow :
    String → ℕ → ExecutionOptions → Options → Workflow → Result Workflow
unfolding apply_options replace_parameters inject_filesyncer_sidecar
    inject_workflow_execution_status_caller inject_exit_handler_workflow_execution_statistic
    inject_automated_fields
prepare_workflow namespace template_id o fields wf = apply_options o wf >>= λ applied.
    replace_parameters namespace applied >>= λ replaced.
    inject_workflow_execution_status_caller (inject_filesyncer_sidecar replaced) "Running"
    >>= λ reporting.
        inject_exit_handler_workflow_execution_statistic reporting template_id >>= λ counted.
        inject_automated_fields (record fields { parameters = o.parameters }) counted

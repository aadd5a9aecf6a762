-- ===== src/Template/Archive.antt =====
-- ArchiveWorkflowTemplate of pkg/workflow_template.go, with ArchiveCronWorkflow of pkg/cron_workflow.go
-- and ArchiveWorkflowExecution of pkg/workflow_execution.go.
use onepanel.Base.{
  ℕ, zero, suc, ℤ, pos, String, Bool, true, false, not, ◌&&◌, ◌==◌, ◌⊕◌, Option, none, some, List,
  [], ◌∷◌, ◌++◌, map, any, keep, Error, user_error, plain, Result, ok, err, if◌then◌else◌, nat_eq,
  format_nat, contains,
}
use onepanel.Base
use onepanel.Base.State
use onepanel.Base.State.{M, ◌>>=◌, ◌>>◌}
use onepanel.Listing.{take_rows}
use onepanel.Workspace.Update.{message}
use onepanel.Template.Store.{
  Store, TemplateRow, VersionRow, ExecutionRow, CronRow, Key, Template, Env, attempt,
  select_versions, select_crons, select_executions, archive_execution, archive_cron,
  delete_workflow, delete_cron, archive_template,
}
use onepanel.Template.Table.{is_current, archive_rows}
use onepanel.Template.Create.{delete_argo_copy}
use onepanel.Template.Get.{get_workflow_template, replace_sys_node_pool_options}

-- ORDER BY created_at DESC, of rows in the order of their inserts
unfoldable pub newest_first {ℓ} : {A : Type ℓ} → List A → List A
newest_first [] = []
newest_first (x ∷ xs) = newest_first xs ++ x ∷ []

-- the join of a version with its template
unfoldable pub belongs : (TemplateRow → Bool) → (VersionRow → Bool) → Store → ℕ → Bool
belongs of_template of_version s version_id =
    any
      (λ v.
        nat_eq v.id version_id
        && of_version v
        && any (λ t. nat_eq t.id v.template_id && of_template t) s.templates)
      s.versions

-- WHERE wt.namespace = ? AND wt.uid = ?
unfoldable pub is_of : String → String → TemplateRow → Bool
is_of namespace uid t = t.namespace == namespace && t.uid == uid

abbrev is_key : String → String → Key → Bool
is_key namespace name k = k.namespace == namespace && k.name == name

-- Delete of a Kubernetes object; one that is absent, or an error of the text "not found", counts as done
unfoldable pub deleted : Option Error → Bool → Result Bool
unfolding contains message
deleted none present = ok present
deleted (some e) present = if contains (message e) "not found" then ok false else err e

-- ArchiveWorkflowExecution
unfoldable pub archive_execution_row : String → String → ExecutionRow → ExecutionRow
archive_execution_row namespace uid e =
    if e.uid == uid && e.namespace == namespace then record e { is_archived = true } else e

unfoldable pub mark_execution : String → String → Store → Store
unfolding archive_execution_row
mark_execution namespace uid s = record s {
  executions = map (archive_execution_row namespace uid) s.executions;
}

unfoldable pub drop_workflow : String → String → Store → Store
drop_workflow namespace name s = record s {
  workflows = keep (λ k. not (is_key namespace name k)) s.workflows;
}

unfoldable pub archive_workflow_execution : Env → String → String → M Store (Unit {0})
unfolding mark_execution deleted drop_workflow
archive_workflow_execution env namespace uid s = elim (env.fails (archive_execution uid)) [
  | some e ↦ (err e, s)
  | none ↦ elim (deleted (env.fails (delete_workflow uid)) true) [
    | err e ↦ (err e, mark_execution namespace uid s)
    | ok present ↦ (ok tt, drop_workflow namespace uid (mark_execution namespace uid s))
  ]
]

-- ArchiveCronWorkflow: the row is left as it is when the object is absent
unfoldable pub archive_cron_row : String → String → CronRow → CronRow
archive_cron_row namespace uid c =
    if c.uid == uid && c.namespace == namespace then record c { is_archived = true } else c

unfoldable pub mark_cron : String → String → Store → Store
unfolding archive_cron_row
mark_cron namespace uid s = record s {
  crons = map (archive_cron_row namespace uid) s.crons;
  cron_workflows = keep (λ k. not (is_key namespace uid k)) s.cron_workflows;
}

unfoldable pub archive_cron_workflow : Env → String → String → M Store (Unit {0})
unfolding deleted mark_cron
archive_cron_workflow env namespace uid s =
    elim (deleted (env.fails (delete_cron uid)) (any (is_key namespace uid) s.cron_workflows)) [
      | err e ↦ (err e, s)
      | ok false ↦ (ok tt, s)
      | ok true ↦ elim (env.fails (archive_cron uid)) [
        | some e ↦ (
          err e,
          record s { cron_workflows = keep (λ k. not (is_key namespace uid k)) s.cron_workflows },
        )
        | none ↦ (ok tt, mark_cron namespace uid s)
      ]
    ]

-- cronWorkflowSelectBuilder, ORDER BY created_at DESC
unfoldable pub list_crons : String → String → Store → List CronRow
unfolding belongs is_of
list_crons namespace uid s = newest_first (
    keep (λ c. not c.is_archived && belongs (is_of namespace uid) (λ v. true) s c.version_id)
      s.crons)

-- selectWorkflowTemplateVersionsDB, ORDER BY created_at DESC
unfoldable pub list_versions : String → String → Store → List VersionRow
unfolding is_current
list_versions namespace uid s = newest_first (
    keep (λ v. any (λ t. nat_eq t.id v.template_id && is_current namespace uid t) s.templates)
      s.versions)

-- listWorkflowTemplateVersions: the rows with the options of their parameters replaced
unfoldable pub replace_versions : Env → List VersionRow → Result (List VersionRow)
unfolding replace_sys_node_pool_options
replace_versions env [] = ok []
replace_versions env (v ∷ vs) =
    let rest = replace_versions env vs in
    Base.◌>>=◌ (replace_sys_node_pool_options env v.parameters)
      λ parameters. Base.◌>>=◌ rest λ others. ok (record v { parameters = parameters } ∷ others)

unfoldable pub list_workflow_template_versions : Env → String → String → M Store (List VersionRow)
unfolding list_versions replace_versions
list_workflow_template_versions env namespace uid s = elim (env.fails select_versions) [
  | some e ↦ (err e, s)
  | none ↦ (replace_versions env (list_versions namespace uid s), s)
]

-- an execution of a version that is not archived
unfoldable pub is_pending : String → String → ℕ → Store → ExecutionRow → Bool
unfolding belongs is_of
is_pending namespace uid version s e =
    not e.is_archived
    && belongs (is_of namespace uid) (λ v. nat_eq v.version version) s e.version_id

-- ListWorkflowExecutions of the first page of 100, the latest first
unfoldable pub list_page : String → String → ℕ → Store → List ExecutionRow
unfolding is_pending take_rows
list_page namespace uid version s =
    take_rows 100 (newest_first (keep (is_pending namespace uid version s) s.executions))

unfoldable pub list_workflow_executions : Env → String → String → ℕ → M Store (List ExecutionRow)
list_workflow_executions env namespace uid version = do
  attempt env select_executions
  State.gets (list_page namespace uid version)

-- each error of a part of ArchiveWorkflowTemplate is replaced
abbrev pub unable : Error
unable = user_error Base.unknown "Unable to archive workflow template."

unfoldable pub hidden : {A : Type 0} → Result A × Store → Result A × Store
hidden (ok a, s) = (ok a, s)
hidden (err e, s) = (err unable, s)

abbrev pub hide : {A : Type 0} → M Store A → M Store A
hide m s = hidden (m s)

-- how a loop ends: with its fuel spent, by the early return of `true`, or by its test
pub data Progress : Type 0 where
  spent : Progress
  left_early : Progress
  finished : Progress

-- the executions of one page, and the rest of the loop; an empty page ends it
unfoldable pub archive_page : Env → String → M Store Progress → List ExecutionRow → M Store Progress
archive_page env namespace rest [] = State.pure finished
archive_page env namespace rest (e ∷ es) =
    hide (State.each (λ x. archive_workflow_execution env namespace x.uid) (e ∷ es)) >> rest

-- the first page until it is empty
unfoldable pub archive_executions : ℕ → Env → String → String → ℕ → M Store Progress
archive_executions zero env namespace uid version = State.pure spent
archive_executions (suc fuel) env namespace uid version =
    let rest = archive_executions fuel env namespace uid version in
    do
      page ← hide (list_workflow_executions env namespace uid version)
      archive_page env namespace rest page

-- what follows a loop, if it was not left
unfoldable pub go_on : M Store Progress → Progress → M Store Progress
go_on rest finished = rest
go_on rest spent = State.pure spent
go_on rest left_early = State.pure left_early

-- the deletion of the copy of a version
unfoldable pub after_delete : Result (Unit {0}) × Store → Result Progress × Store
unfolding contains message
after_delete (ok u, s) = (ok finished, s)
after_delete (err e, s) =
    if contains (message e) "not found" then (ok left_early, s) else (err e, s)

abbrev pub copy_name : String → VersionRow → String
copy_name uid v = (uid ⊕ "-v") ⊕ format_nat v.version

unfoldable pub delete_version : Env → String → String → VersionRow → M Store Progress
unfolding after_delete delete_argo_copy format_nat
delete_version env namespace uid v s =
    after_delete (delete_argo_copy env namespace (copy_name uid v) s)

unfoldable pub archive_version : ℕ → Env → String → String → VersionRow → M Store Progress
archive_version fuel env namespace uid v = do
  progress ← archive_executions fuel env namespace uid v.version
  go_on (delete_version env namespace uid v) progress

unfoldable pub archive_versions : ℕ → Env → String → String → List VersionRow → M Store Progress
archive_versions fuel env namespace uid [] = State.pure finished
archive_versions fuel env namespace uid (v ∷ vs) =
    let rest = archive_versions fuel env namespace uid vs in
    do progress ← archive_version fuel env namespace uid v; go_on rest progress

-- the last statement; nothing is returned when the fuel was spent
unfoldable pub finish_archive : Env → String → String → Progress → M Store (Option Bool)
finish_archive env namespace uid spent = State.pure none
finish_archive env namespace uid left_early = State.pure (some true)
finish_archive env namespace uid finished = do
  hide (attempt env archive_template >> State.modify (archive_rows namespace uid))
  State.pure (some true)

unfoldable pub found_latest : Option Template → Result (Unit {0})
found_latest none = err (user_error Base.not_found "Workflow template not found.")
found_latest (some t) = ok tt

-- ArchiveWorkflowTemplate
unfoldable pub archive_workflow_template : ℕ → Env → String → String → M Store (Option Bool)
archive_workflow_template fuel env namespace uid = do
  template ← hide (get_workflow_template env namespace uid (pos 0))
  State.lift (found_latest template)
  versions ← hide (list_workflow_template_versions env namespace uid)
  crons ← hide (attempt env select_crons >> State.gets (list_crons namespace uid))
  hide (State.each (λ c. archive_cron_workflow env namespace c.name) crons)
  progress ← archive_versions fuel env namespace uid versions
  finish_archive env namespace uid progress

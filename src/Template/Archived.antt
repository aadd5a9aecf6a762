-- ===== src/Template/Archived.antt =====
-- The steps of GetWorkflowTemplate and ArchiveWorkflowTemplate, and the invariant of the versions.
use onepanel.Base.{
  ℕ, zero, suc, ℤ, pos, String, ◌≡◌, refl, Option, none, some, List, [], ◌∷◌, Result, ok, err,
  arith, Option-cases, inl, inr, Bool, true, false, Bool-cases,
}
use onepanel.Base
use onepanel.Base.State
use onepanel.Base.State.{M, ◌>>=◌, ◌>>◌, Keeps}
use onepanel.Workspace.Update.{message}
use onepanel.Template.Argo
use onepanel.Template.Table
use onepanel.Template.Store.{Store, TemplateRow, VersionRow, Call, Env, attempt, ExecutionRow}
use onepanel.Template.Table.{archive_rows}
use onepanel.Template.Create
use onepanel.Template.Get
use onepanel.Template.Archive
use onepanel.Template.Archive.{Progress, spent, left_early, finished}
use onepanel.Template.Latest.{WellFormed, archive_rows-WellFormed}
use onepanel.Template.Steps.{
  SameTables, delete_argo_copy-SameTables, get_argo_workflow_template-SameTables,
}
use onepanel.Template.Preserve.{same-Keeps, attempt-Keeps}

hide-Keeps : {A : Type 0} (m : M Store A) → Keeps WellFormed m → Keeps WellFormed (Archive.hide m)
hide-Keeps {A} m k s w = hidden (m s) (k s w)
  where
    hidden : (x : Result A × Store) → WellFormed x.1 → WellFormed (Archive.hidden x).1
    hidden (ok a, t) h = unfold Archive.hidden in h
    hidden (err e, t) h = unfold Archive.hidden in h

archive_workflow_execution-Keeps :
    (env : Env) (namespace uid : String)
    → Keeps WellFormed (Archive.archive_workflow_execution env namespace uid)
archive_workflow_execution-Keeps env namespace uid =
    same-Keeps (Archive.archive_workflow_execution env namespace uid) same
  where
    same : (s : Store) → SameTables s (Archive.archive_workflow_execution env namespace uid s).1
    same s =
        unfold Archive.archive_workflow_execution Archive.mark_execution Archive.drop_workflow in
        ground arith

archive_cron_workflow-Keeps :
    (env : Env) (namespace uid : String)
    → Keeps WellFormed (Archive.archive_cron_workflow env namespace uid)
archive_cron_workflow-Keeps env namespace uid =
    same-Keeps (Archive.archive_cron_workflow env namespace uid) same
  where
    same : (s : Store) → SameTables s (Archive.archive_cron_workflow env namespace uid s).1
    same s = unfold Archive.archive_cron_workflow Archive.mark_cron in ground arith

load_template-Keeps :
    (env : Env) (namespace : String) (v : ℤ) (t : TemplateRow) (r : VersionRow)
    → Keeps WellFormed (Get.load_template env namespace v t r)
unfolding Get.load_template
load_template-Keeps env namespace v t r =
    State.bind-Keeps WellFormed (Argo.get_argo_workflow_template env namespace t.uid wanted) _
      (same-Keeps (Argo.get_argo_workflow_template env namespace t.uid wanted)
        (get_argo_workflow_template-SameTables env namespace t.uid wanted))
      λ copy. State.bind-Keeps WellFormed (State.lift _) _ (State.lift-Keeps WellFormed _) λ number.
        State.bind-Keeps WellFormed
          (Get.get_workflow_template_version_db env namespace t.name wanted) _
          (same-Keeps (Get.get_workflow_template_version_db env namespace t.name wanted) same)
          λ w.
            State.bind-Keeps WellFormed (State.lift _) _ (State.lift-Keeps WellFormed _)
              λ parameters. State.pure-Keeps WellFormed _
  where
    wanted : Argo.Wanted
    wanted = Argo.version_as_string v

    same :
        (s : Store)
        → SameTables s (Get.get_workflow_template_version_db env namespace t.name wanted s).1
    same s = unfold Get.get_workflow_template_version_db in ground arith

pub get_workflow_template-Keeps :
    (env : Env) (namespace uid : String) (v : ℤ)
    → Keeps WellFormed (Get.get_workflow_template env namespace uid v)
unfolding Get.get_workflow_template
get_workflow_template-Keeps env namespace uid v s w =
    elim (Option-cases (env.fails Call.select_template)) [
      | inr (x, e) ↦ rw (e, Get.get_workflow_template) w
      | inl e ↦
          elim (Option-cases (
            Get.find_joined (Table.is_current namespace uid) (Get.is_wanted v) s.versions
              s.templates)) [
                | inl n ↦ rw (e, Get.get_workflow_template, n) w
                | inr (p, f) ↦
                    rw (e, Get.get_workflow_template, f)
                      (load_template-Keeps env namespace v p.0 p.1 s w)
              ]
    ]

list_versions-SameTables :
    (env : Env) (namespace uid : String) (s : Store)
    → SameTables s (Archive.list_workflow_template_versions env namespace uid s).1
unfolding Archive.list_workflow_template_versions
list_versions-SameTables env namespace uid s = ground arith

after_delete-Keeps :
    (x : Result (Unit {0}) × Store) → WellFormed x.1 → WellFormed (Archive.after_delete x).1
unfolding Archive.after_delete
after_delete-Keeps (ok u, t) h = h
after_delete-Keeps (err e, t) h = elim (Bool-cases (Base.contains (message e) "not found")) [
  | inl b ↦ rw b h
  | inr b ↦ rw b h
]

archive_page-Keeps :
    (env : Env) (namespace : String) (rest : M Store Progress) (page : List ExecutionRow)
    → Keeps WellFormed rest
    → Keeps WellFormed (Archive.archive_page env namespace rest page)
unfolding Archive.archive_page
archive_page-Keeps env namespace rest [] k = State.pure-Keeps WellFormed finished
archive_page-Keeps env namespace rest (e ∷ es) k =
    State.next-Keeps WellFormed (Archive.hide (State.each _ (e ∷ es))) _
      (hide-Keeps (State.each _ (e ∷ es)) (
        State.each-Keeps WellFormed _ (λ x. archive_workflow_execution-Keeps env namespace x.uid)
          (e ∷ es)))
      k

list_workflow_executions-Keeps :
    (env : Env) (namespace uid : String) (n : ℕ)
    → Keeps WellFormed (Archive.list_workflow_executions env namespace uid n)
unfolding Archive.list_workflow_executions
list_workflow_executions-Keeps env namespace uid n =
    State.next-Keeps WellFormed (attempt env _) _ (attempt-Keeps env _)
      (State.gets-Keeps WellFormed _)

archive_executions-Keeps :
    (fuel : ℕ) (env : Env) (namespace uid : String) (n : ℕ)
    → Keeps WellFormed (Archive.archive_executions fuel env namespace uid n)
unfolding Archive.archive_executions
archive_executions-Keeps zero env namespace uid n = State.pure-Keeps WellFormed spent
archive_executions-Keeps (suc fuel) env namespace uid n =
    State.bind-Keeps WellFormed
      (Archive.hide (Archive.list_workflow_executions env namespace uid n)) _
      (hide-Keeps _ (list_workflow_executions-Keeps env namespace uid n))
      λ page.
        archive_page-Keeps env namespace _ page (archive_executions-Keeps fuel env namespace uid n)

go_on-Keeps :
    (rest : M Store Progress) (p : Progress)
    → Keeps WellFormed rest
    → Keeps WellFormed (Archive.go_on rest p)
unfolding Archive.go_on
go_on-Keeps rest finished k = k
go_on-Keeps rest spent k = State.pure-Keeps WellFormed spent
go_on-Keeps rest left_early k = State.pure-Keeps WellFormed left_early

delete_version-Keeps :
    (env : Env) (namespace uid : String) (v : VersionRow)
    → Keeps WellFormed (Archive.delete_version env namespace uid v)
unfolding Archive.delete_version
delete_version-Keeps env namespace uid v s w =
    after_delete-Keeps (Create.delete_argo_copy env namespace (Archive.copy_name uid v) s) (
      same-Keeps (Create.delete_argo_copy env namespace (Archive.copy_name uid v))
        (delete_argo_copy-SameTables env namespace (Archive.copy_name uid v)) s w)

archive_versions-Keeps :
    (fuel : ℕ) (env : Env) (namespace uid : String) (vs : List VersionRow)
    → Keeps WellFormed (Archive.archive_versions fuel env namespace uid vs)
unfolding Archive.archive_versions Archive.archive_version
archive_versions-Keeps fuel env namespace uid [] = State.pure-Keeps WellFormed finished
archive_versions-Keeps fuel env namespace uid (v ∷ vs) =
    State.bind-Keeps WellFormed (Archive.archive_version fuel env namespace uid v) _
      (State.bind-Keeps WellFormed (Archive.archive_executions fuel env namespace uid v.version) _
        (archive_executions-Keeps fuel env namespace uid v.version)
        λ p. go_on-Keeps _ p (delete_version-Keeps env namespace uid v))
      λ p. go_on-Keeps _ p (archive_versions-Keeps fuel env namespace uid vs)

finish_archive-Keeps :
    (env : Env) (namespace uid : String) (p : Progress)
    → Keeps WellFormed (Archive.finish_archive env namespace uid p)
unfolding Archive.finish_archive
finish_archive-Keeps env namespace uid spent = State.pure-Keeps WellFormed none
finish_archive-Keeps env namespace uid left_early = State.pure-Keeps WellFormed (some true)
finish_archive-Keeps env namespace uid finished =
    State.next-Keeps WellFormed (Archive.hide _) _
      (hide-Keeps _ (
        State.next-Keeps WellFormed (attempt env _) _ (attempt-Keeps env _)
          (State.modify-Keeps WellFormed _ (archive_rows-WellFormed namespace uid))))
      (State.pure-Keeps WellFormed (some true))

-- ArchiveWorkflowTemplate keeps the invariant, whatever fails.
pub archive-WellFormed :
    (fuel : ℕ) (env : Env) (namespace uid : String)
    → Keeps WellFormed (Archive.archive_workflow_template fuel env namespace uid)
unfolding Archive.archive_workflow_template
archive-WellFormed fuel env namespace uid =
    State.bind-Keeps WellFormed (Archive.hide (Get.get_workflow_template env namespace uid (pos 0)))
      _ (hide-Keeps _ (get_workflow_template-Keeps env namespace uid (pos 0)))
      λ found.
        State.next-Keeps WellFormed (State.lift (Archive.found_latest found)) _
          (State.lift-Keeps WellFormed _)
          (State.bind-Keeps WellFormed
            (Archive.hide (Archive.list_workflow_template_versions env namespace uid)) _
            (hide-Keeps _ (
              same-Keeps (Archive.list_workflow_template_versions env namespace uid)
                (list_versions-SameTables env namespace uid)))
            λ versions.
              State.bind-Keeps WellFormed (Archive.hide _) _
                (hide-Keeps _ (
                  State.next-Keeps WellFormed (attempt env _) _ (attempt-Keeps env _)
                    (State.gets-Keeps WellFormed (Archive.list_crons namespace uid))))
                λ crons.
                  State.next-Keeps WellFormed (Archive.hide (State.each _ crons)) _
                    (hide-Keeps _ (
                      State.each-Keeps WellFormed _
                        (λ c. archive_cron_workflow-Keeps env namespace c.name) crons))
                    (State.bind-Keeps WellFormed
                      (Archive.archive_versions fuel env namespace uid versions) _
                      (archive_versions-Keeps fuel env namespace uid versions)
                      λ progress. finish_archive-Keeps env namespace uid progress))

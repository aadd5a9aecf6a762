-- ===== src/WorkspaceTemplate/Created.antt =====
-- The steps of CreateWorkspaceTemplate (pkg/workspace_template.go), and the invariant of the versions.
use onepanel.Base.{
  ℕ, suc, String, Bool, true, ◌≡◌, ◌∙◌, refl, ap, Option, some, [], ◌∷◌, ◌++◌, map, Error, Result,
  ok, err, arith,
}
use onepanel.Base.State
use onepanel.Base.State.{M, ◌>>=◌, ◌>>◌, Keeps, after}
use onepanel.Template.Store
use onepanel.Template.Create
use onepanel.Template.Archive
use onepanel.Template.Invariant.{create_workflow_template-WellFormed}
use onepanel.Template.Archived.{archive-WellFormed}
use onepanel.Template.Latest
use onepanel.Template.Latest.{new-WellFormed}
use onepanel.WorkspaceTemplate.Store.{Row, World, WorkspaceTemplate, Env, attempt, on_workflows}
use onepanel.WorkspaceTemplate.Table.{
  insert_workspace_template, create_workspace_template_version_db, new_version, add_version,
  add_row,
}
use onepanel.WorkspaceTemplate.Create.{
  get_workspace_template_by_name, new_row, row_error, version_error, commit_error, archived_error,
  clean_up, resumed, or_clean, store_workspace_template, create_workspace_template, map_error,
  create,
}
use onepanel.WorkspaceTemplate.Generate.{for_workspace}
use onepanel.WorkspaceTemplate.Latest.{
  as_template, as_version, view, WellFormed, map-append, Started, Grows, on_workflows-Grows,
  on_workflows-WellFormed, attempt-WellFormed, transaction-WellFormed,
}

-- A property that a method on workflow templates keeps is kept by the clean-up.
module _ (P : World → Type 0) where
  clean_up-Keeps :
      (A : Type 0) (fuel : ℕ) (env : Env) (namespace uid : String) (f : Option Error → Error)
      → Keeps P (on_workflows (Archive.archive_workflow_template fuel env.inner namespace uid))
      → Keeps P (clean_up {A = A} fuel env namespace uid f)
  unfolding clean_up
  clean_up-Keeps A fuel env namespace uid f k w h =
      kept (on_workflows (Archive.archive_workflow_template fuel env.inner namespace uid) w) (k w h)
    where
      kept : (x : Result (Option Bool) × World) → P x.1 → P (archived_error {B = A} f x).1
      kept (ok a, v) p = unfold archived_error in p
      kept (err e, v) p = unfold archived_error in p

  or_clean-Keeps :
      {A : Type 0} (m : M World A) (undo : Error → M World A)
      → Keeps P m
      → ((e : Error) → Keeps P (undo e))
      → Keeps P (or_clean m undo)
  unfolding or_clean
  or_clean-Keeps {A} m undo k q w h = kept (m w) (k w h)
    where
      kept : (x : Result A × World) → P x.1 → P (resumed undo x).1
      kept (ok a, v) p = unfold resumed in p
      kept (err e, v) p = unfold resumed in q e v p

  pub map_error-Keeps :
      {A : Type 0} (f : Error → Error) (m : M World A)
      → Keeps P m
      → Keeps P (λ w. map_error f (m w))
  map_error-Keeps {A} f m k w h = kept (m w) (k w h)
    where
      kept : (x : Result A × World) → P x.1 → P (map_error f x).1
      kept (ok a, v) p = unfold map_error in p
      kept (err e, v) p = unfold map_error in p

-- a step that returns was not cleaned up after
or_clean-eq-ok :
    {A : Type 0} (m : M World A) (fuel : ℕ) (env : Env) (namespace uid : String)
    (f : Error → Option Error → Error) {a : A} (w v : World)
    → or_clean m (λ e. clean_up fuel env namespace uid (f e)) w ≡ (ok a, v)
    → m w ≡ (ok a, v)
unfolding or_clean clean_up
or_clean-eq-ok {A} m fuel env namespace uid f {a} w v e = step (m w) refl e
  where
    failed :
        (g : Option Error → Error) (x : Result (Option Bool) × World)
        → archived_error {B = A} g x ≡ (ok a, v)
        → m w ≡ (ok a, v)
    failed g (ok b, u) h = absurd (unfold archived_error in cc)
    failed g (err y, u) h = absurd (unfold archived_error in cc)

    step :
        (x : Result A × World)
        → m w ≡ x
        → resumed (λ e. clean_up fuel env namespace uid (f e)) x ≡ (ok a, v)
        → m w ≡ (ok a, v)
    step (ok b, u) p h = unfold resumed in p ∙ h
    step (err y, u) p h =
        failed (f y)
          (on_workflows (Archive.archive_workflow_template fuel env.inner namespace uid) u)
          (unfold resumed in h)

insert-eq-ok :
    (env : Env) (new : Row) {i : ℕ} (w v : World)
    → insert_workspace_template env new w ≡ (ok i, v)
    → (i ≡ w.serial)
      × (v.rows ≡ w.rows ++ record new { id = w.serial } ∷ [])
      × (v.versions ≡ w.versions)
      × (v.serial ≡ suc w.serial)
      × (v.workflows ≡ w.workflows)
unfolding insert_workspace_template add_row
insert-eq-ok env new w v e = ground arith

pub version-eq-ok :
    (env : Env) (t u : WorkspaceTemplate) (w v : World)
    → create_workspace_template_version_db env t w ≡ (ok u, v)
    → (v.versions ≡ w.versions ++ record (new_version t) { id = w.version_serial } ∷ [])
      × (v.rows ≡ w.rows)
      × (v.serial ≡ w.serial)
      × (v.workflows ≡ w.workflows)
unfolding create_workspace_template_version_db add_version
version-eq-ok env t u w v e = ground arith

insert-Grows : (env : Env) (new : Row) → Grows (insert_workspace_template env new)
unfolding insert_workspace_template add_row
insert-Grows env new n w h = ground (arith, h)

pub version-Grows :
    (env : Env) (t : WorkspaceTemplate) → Grows (create_workspace_template_version_db env t)
unfolding create_workspace_template_version_db add_version
version-Grows env t n w h = ground (arith, h)

store_workspace_template-Grows :
    (fuel : ℕ) (env : Env) (namespace : String) (t : WorkspaceTemplate) (workflow : Store.Template)
    → Grows (store_workspace_template fuel env namespace t workflow)
unfolding store_workspace_template
store_workspace_template-Grows fuel env namespace t workflow n =
    State.bind-Keeps (Started n) (or_clean _ _) _
      (or_clean-Keeps (Started n) (insert_workspace_template env _) _ (insert-Grows env _ n)
        (λ e. cleaned ℕ (row_error e)))
      λ id.
        or_clean-Keeps (Started n) (create_workspace_template_version_db env _) _
          (version-Grows env _ n) (λ e. cleaned WorkspaceTemplate (version_error e))
  where
    cleaned :
        (A : Type 0) (f : Option Error → Error)
        → Keeps (Started n) (clean_up {A = A} fuel env namespace workflow.uid f)
    cleaned A f = clean_up-Keeps (Started n) A fuel env namespace workflow.uid f (
        on_workflows-Grows (Archive.archive_workflow_template fuel env.inner namespace workflow.uid)
          (archive-WellFormed fuel env.inner namespace workflow.uid) n)

store_workspace_template-WellFormed :
    (fuel : ℕ) (env : Env) (namespace : String) (t : WorkspaceTemplate) (workflow : Store.Template)
    (a : WorkspaceTemplate) (w v : World)
    → WellFormed w
    → store_workspace_template fuel env namespace t workflow w ≡ (ok a, v)
    → WellFormed v
unfolding store_workspace_template
store_workspace_template-WellFormed fuel env namespace t workflow a w v h e =
    let new = new_row namespace t workflow in
    after (or_clean (insert_workspace_template env new) _) _ e λ i w₁ e₁ k₁.
      let stored = record t {
        id = i;
        version = workflow.version;
        is_latest = true;
        workflow = some workflow;
      } in
      let inserted = insert-eq-ok env new w w₁ (
        or_clean-eq-ok (insert_workspace_template env new) fuel env namespace workflow.uid row_error
          w w₁ e₁) in
      let versioned = version-eq-ok env stored a w₁ v (
        or_clean-eq-ok (create_workspace_template_version_db env stored) fuel env namespace
          workflow.uid version_error w₁ v k₁) in
      let row = record new { id = w.serial } in
      let version = record (new_version stored) { id = w₁.version_serial } in
      record {
        templates =
            new-WellFormed (view w) (view v) (as_template row) (as_version version)
              (ap (map as_template) (versioned.1 ∙ inserted.1)
                ∙ map-append as_template w.rows (row ∷ []))
              (ap (map as_version) (versioned.0 ∙ ap (λ vs. vs ++ version ∷ []) inserted.2)
                ∙ map-append as_version w.versions (version ∷ []))
              (ground (arith, inserted, versioned)) (unfold as_template in refl)
              (unfold as_version new_version in inserted.0) (unfold as_version new_version in refl)
              h.templates;
        workflows = rw (versioned.3, inserted.4) h.workflows;
      }

create_workspace_template-WellFormed :
    (fuel : ℕ) (env : Env) (namespace : String) (t : WorkspaceTemplate) (workflow : Store.Template)
    → Keeps WellFormed (create_workspace_template fuel env namespace t workflow)
unfolding create_workspace_template
create_workspace_template-WellFormed fuel env namespace t workflow =
    State.bind-Keeps WellFormed (State.lift _) _ (State.lift-Keeps WellFormed _) λ pair.
      State.next-Keeps WellFormed (State.lift _) _ (State.lift-Keeps WellFormed _) (
        State.bind-Keeps WellFormed (on_workflows (made pair.1)) _
          (on_workflows-WellFormed (made pair.1) (made-Keeps pair.1))
          λ created w h.
            transaction-WellFormed env (undo created)
              (store_workspace_template fuel env namespace pair.0 created)
              (λ e.
                clean_up-Keeps WellFormed WorkspaceTemplate fuel env namespace created.uid
                  (commit_error e)
                  (on_workflows-WellFormed
                    (Archive.archive_workflow_template fuel env.inner namespace created.uid)
                    (archive-WellFormed fuel env.inner namespace created.uid)))
              (store_workspace_template-Grows fuel env namespace pair.0 created) w
              (λ a v. store_workspace_template-WellFormed fuel env namespace pair.0 created a w v h)
              h)
  where
    made : Store.Template → M Store.Store Store.Template
    made system s =
        Create.map_error (Create.wrap_error "Workflow template")
          (Create.create_workflow_template env.inner namespace system s)

    undo : Store.Template → Error → M World WorkspaceTemplate
    undo created e = clean_up fuel env namespace created.uid (commit_error e)

    kept :
        (x : Result Store.Template × Store.Store)
        → Latest.WellFormed x.1
        → Latest.WellFormed (Create.map_error (Create.wrap_error "Workflow template") x).1
    kept (ok a, s) h = unfold Create.map_error in h
    kept (err e, s) h = unfold Create.map_error in h

    made-Keeps : (system : Store.Template) → Keeps Latest.WellFormed (made system)
    made-Keeps system s h =
        kept (Create.create_workflow_template env.inner namespace system s)
          (create_workflow_template-WellFormed env.inner namespace system s h)

-- CreateWorkspaceTemplate keeps the invariant, whatever fails.
pub create-WellFormed :
    (fuel : ℕ) (env : Env) (namespace : String) (t : WorkspaceTemplate)
    → Keeps WellFormed (create fuel env namespace t)
unfolding create get_workspace_template_by_name
create-WellFormed fuel env namespace t =
    State.next-Keeps WellFormed (State.lift _) _ (State.lift-Keeps WellFormed _) (
      State.bind-Keeps WellFormed (attempt env _ >> State.gets _) _
        (State.next-Keeps WellFormed (attempt env _) _ (attempt-WellFormed env _)
          (State.gets-Keeps WellFormed _))
        λ existing. State.next-Keeps WellFormed (State.lift _) _ (State.lift-Keeps WellFormed _) (
          State.bind-Keeps WellFormed (State.lift _) _ (State.lift-Keeps WellFormed _) λ workflow.
            map_error-Keeps WellFormed for_workspace
              (create_workspace_template fuel env namespace (record t { namespace = namespace })
                workflow)
              (create_workspace_template-WellFormed fuel env namespace
                (record t { namespace = namespace }) workflow)))

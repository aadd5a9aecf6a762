-- ===== src/WorkspaceTemplate/Updated.antt =====
-- The steps of UpdateWorkspaceTemplate (pkg/workspace_template.go), and the invariant of the versions.
use onepanel.Base.{
  ℕ, suc, ◌≤◌, ◌<◌, ℤ, pos, negsuc, Map, String, Bool, true, false, ◌≡◌, ◌≢◌, ◌∙◌, refl, ap, sym,
  subst, Option, none, some, List, [], ◌∷◌, ◌++◌, map, keep, Error, Result, ok, err, arith, leb,
  All, All-append, ◌==◌, ◌&&◌, if◌then◌else◌, Bool-cases, inl, inr, >>=-eq-ok,
}
use onepanel.Base
use onepanel.Base.State
use onepanel.Base.State.{M, ◌>>=◌, ◌>>◌, Keeps, Keeps-eq, after}
use onepanel.Template.Store
use onepanel.Template.Version
use onepanel.Template.Preserve.{create_version-WellFormed}
use onepanel.Template.Latest
use onepanel.Template.Latest.{outdated-WellFormed, same-WellFormed}
use onepanel.WorkspaceTemplate.Store.{
  Row, World, WorkspaceTemplate, Env, attempt, put_store, on_workflows, mark_outdated, update_row,
}
use onepanel.WorkspaceTemplate.Table.{
  new_version, outdate, outdate_versions, mark_workspace_template_versions_outdated_db,
  create_latest_workspace_template_version_db, write_row, write_rows,
}
use onepanel.WorkspaceTemplate.Generate.{for_workspace}
use onepanel.WorkspaceTemplate.Update.{
  publish_version, get_workspace_template, found_template, store_update, update_workspace_template,
  update_workspace_template_manifest,
}
use onepanel.WorkspaceTemplate.Joined.{get-below}
use onepanel.WorkspaceTemplate.Latest.{
  as_template, as_version, view, WellFormed, map-append, map-outdate, Started, Grows,
  on_workflows-WellFormed, attempt-Grows, attempt-WellFormed, transaction-WellFormed,
}
use onepanel.WorkspaceTemplate.Created.{map_error-Keeps, version-eq-ok, version-Grows}

pub get-WellFormed :
    (env : Env) (namespace uid : String) (v : ℤ)
    → Keeps WellFormed (get_workspace_template env namespace uid v)
unfolding get_workspace_template
get-WellFormed env namespace uid v =
    State.next-Keeps WellFormed (attempt env _) _ (attempt-WellFormed env _) (
      State.bind-Keeps WellFormed (State.gets _) _ (State.gets-Keeps WellFormed _)
        λ found. State.lift-Keeps WellFormed _)

-- what the statement writes, seen on the view
written : WorkspaceTemplate → Store.TemplateRow → Store.TemplateRow
written t r =
    if r.uid == t.uid && r.namespace == t.namespace then record r { labels = t.labels } else r

write_rows-WellFormed :
    (t : WorkspaceTemplate) (w : World) → WellFormed w → WellFormed (write_rows t w)
unfolding write_rows
write_rows-WellFormed t w h = record {
  templates =
      subst (λ ts. Latest.WellFormed (record (view w) { templates = ts })) (viewed w.rows)
        (Latest.map-WellFormed (written t) (λ r. unfold written in ground arith) (view w)
          h.templates);
  workflows = h.workflows;
}
  where
    one : (r : Row) → written t (as_template r) ≡ as_template (write_row t r)
    one r = unfold written as_template write_row in ground arith

    ap2 :
        {x y : Store.TemplateRow} {xs ys : List Store.TemplateRow}
        → x ≡ y
        → xs ≡ ys
        → x ∷ xs ≡ y ∷ ys
    ap2 p q = cc

    viewed :
        (rs : List Row)
        → map (written t) (map as_template rs) ≡ map as_template (map (write_row t) rs)
    viewed [] = refl
    viewed (r ∷ rs) = ap2 (one r) (viewed rs)

create_latest-Grows :
    (env : Env) (t : WorkspaceTemplate) → Grows (create_latest_workspace_template_version_db env t)
unfolding create_latest_workspace_template_version_db mark_workspace_template_versions_outdated_db
create_latest-Grows env t n =
    State.next-Keeps (Started n) (State.require _ _) _ (State.require-Keeps (Started n) _ _) (
      State.next-Keeps (Started n) (attempt env mark_outdated >> State.modify _) _
        (State.next-Keeps (Started n) (attempt env mark_outdated) _
          (attempt-Grows env mark_outdated n)
          (State.modify-Keeps (Started n) (outdate_versions t.id)
            (λ w h. unfold outdate_versions in h)))
        (version-Grows env (record t { is_latest = true }) n))

store_update-Grows : (env : Env) (t : WorkspaceTemplate) → Grows (store_update env t)
unfolding store_update
store_update-Grows env t n =
    State.bind-Keeps (Started n) (create_latest_workspace_template_version_db env t) _
      (create_latest-Grows env t n)
      λ written. State.next-Keeps (Started n) (attempt env _) _ (attempt-Grows env _ n) (
        State.next-Keeps (Started n) (State.modify (write_rows written)) _
          (State.modify-Keeps (Started n) (write_rows written) (λ w h. unfold write_rows in h))
          (State.pure-Keeps (Started n) _))

outdated-eq-ok :
    (env : Env) (id : ℕ) {u : Unit {0}} (w v : World)
    → mark_workspace_template_versions_outdated_db env id w ≡ (ok u, v)
    → (v.versions ≡ map (outdate id) w.versions)
      × (v.rows ≡ w.rows)
      × (v.serial ≡ w.serial)
      × (v.workflows ≡ w.workflows)
unfolding mark_workspace_template_versions_outdated_db attempt State.check State.modify
    outdate_versions
outdated-eq-ok env id w v e = ground arith

create_latest-WellFormed :
    (env : Env) (t u : WorkspaceTemplate) (w v : World)
    → t.id < w.serial
    → WellFormed w
    → create_latest_workspace_template_version_db env t w ≡ (ok u, v)
    → WellFormed v
unfolding create_latest_workspace_template_version_db
create_latest-WellFormed env t u w v lt h e = after (State.require _ _) _ e λ u₁ w₁ e₁ k₁.
    after (mark_workspace_template_versions_outdated_db env t.id) _ k₁ λ u₂ w₂ e₂ k₂.
      let stored = record t { is_latest = true } in
      let required : w₁ ≡ w = unfold State.require in ground arith in
      let outdated = outdated-eq-ok env t.id w₁ w₂ e₂ in
      let versioned = version-eq-ok env stored u w₂ v k₂ in
      let version = record (new_version stored) { id = w₂.version_serial } in
      record {
        templates =
            outdated-WellFormed (view w) (view v) t.id (as_version version)
              (ap (map as_template) (versioned.1 ∙ outdated.1 ∙ ap (λ x. x.rows) required))
              (ap (map as_version) (
                  versioned.0
                  ∙ ap (λ vs. vs ++ version ∷ [])
                      (outdated.0 ∙ ap (λ x. map (outdate t.id) x.versions) required))
                ∙ map-append as_version (map (outdate t.id) w.versions) (version ∷ [])
                ∙ ap (λ vs. vs ++ as_version version ∷ []) (map-outdate t.id w.versions))
              (versioned.2 ∙ outdated.2 ∙ ap (λ x. x.serial) required)
              (unfold as_version new_version in refl) (unfold as_version new_version in refl) lt
              h.templates;
        workflows = rw (versioned.3, outdated.3, required) h.workflows;
      }

store_update-WellFormed :
    (env : Env) (t a : WorkspaceTemplate) (w v : World)
    → t.id < w.serial
    → WellFormed w
    → store_update env t w ≡ (ok a, v)
    → WellFormed v
unfolding store_update
store_update-WellFormed env t a w v lt h e =
    after (create_latest_workspace_template_version_db env t) _ e λ written w₁ e₁ k₁.
      Keeps-eq WellFormed (rest written) (rest-Keeps written)
        (create_latest-WellFormed env t written w w₁ lt h e₁) k₁
  where
    rest : WorkspaceTemplate → M World WorkspaceTemplate
    rest written =
        attempt env update_row >> (State.modify (write_rows written) >> State.pure written)

    rest-Keeps : (written : WorkspaceTemplate) → Keeps WellFormed (rest written)
    rest-Keeps written =
        State.next-Keeps WellFormed (attempt env update_row) _ (attempt-WellFormed env update_row) (
          State.next-Keeps WellFormed (State.modify (write_rows written)) _
            (State.modify-Keeps WellFormed (write_rows written) (write_rows-WellFormed written))
            (State.pure-Keeps WellFormed written))

publish_version-WellFormed :
    (env : Env) (namespace : String) (t old : WorkspaceTemplate) (workflow : Store.Template)
    (w : World)
    → WellFormed w × (old.id < w.serial)
    → WellFormed (publish_version env namespace t old workflow w).1
unfolding publish_version
publish_version-WellFormed env namespace t old workflow =
    State.bind-into Held WellFormed (State.lift _) _ (State.lift-Keeps Held _) (λ w h. h.0)
      λ generated.
        State.bind-into Held WellFormed _ _
          (map_error-Keeps Held for_workspace (on_workflows (published generated))
            (published-Held generated))
          (λ w h. h.0)
          λ made w h.
            transaction-WellFormed env State.raise (store_update env (stored made))
              (λ e. State.raise-Keeps WellFormed WorkspaceTemplate e)
              (store_update-Grows env (stored made)) w
              (λ a v. store_update-WellFormed env (stored made) a w v h.1 h.0) h.0
  where
    Held : World → Type 0
    Held w = WellFormed w × (old.id < w.serial)

    published : Store.Template → M Store.Store Store.Template
    published generated =
        Version.create_workflow_template_version env.inner namespace
          (record generated { id = workflow.id; uid = workflow.uid; labels = t.labels })

    stored : Store.Template → WorkspaceTemplate
    stored made = record t {
      id = old.id;
      name = old.uid;
      namespace = old.namespace;
      version = made.version;
      is_latest = true;
    }

    kept : (generated : Store.Template) → Keeps Latest.WellFormed (published generated)
    kept generated =
        create_version-WellFormed env.inner namespace
          (record generated { id = workflow.id; uid = workflow.uid; labels = t.labels })

    published-Held : (generated : Store.Template) → Keeps Held (on_workflows (published generated))
    published-Held generated w h = (
      on_workflows-WellFormed (published generated) (kept generated) w h.0,
      unfold on_workflows put_store in h.1,
    )

-- UpdateWorkspaceTemplate keeps the invariant, whatever fails.
pub update-WellFormed :
    (env : Env) (namespace : String) (t : WorkspaceTemplate)
    → Keeps WellFormed (update_workspace_template env namespace t)
unfolding update_workspace_template found_template State.lift
update-WellFormed env namespace t w h =
    started (get_workspace_template env namespace t.uid t.version w).0
      (get_workspace_template env namespace t.uid t.version w).1 refl
  where
    published :
        (old : WorkspaceTemplate) (x : Option Store.Template) (v : World)
        → WellFormed v × (old.id < v.serial)
        → WellFormed
            (State.resume {A = WorkspaceTemplate × Store.Template} {B = WorkspaceTemplate}
              (elim x [ none ↦ err Base.panic | some workflow ↦ ok (old, workflow) ])
              v
              (λ p. publish_version env namespace t p.0 p.1)).1
    published old none v k = k.0
    published old (some workflow) v k = publish_version-WellFormed env namespace t old workflow v k

    started :
        (r : Result (Option WorkspaceTemplate)) (v : World)
        → get_workspace_template env namespace t.uid t.version w ≡ (r, v)
        → WellFormed
            (State.resume r v λ existing. State.lift (found_template existing) >>= λ p.
              publish_version env namespace t p.0 p.1).1
    started (err x) v e =
        Keeps-eq WellFormed (get_workspace_template env namespace t.uid t.version)
          (get-WellFormed env namespace t.uid t.version) h e
    started (ok none) v e =
        Keeps-eq WellFormed (get_workspace_template env namespace t.uid t.version)
          (get-WellFormed env namespace t.uid t.version) h e
    started (ok (some old)) v e =
        let (same, lt) = get-below env namespace t.uid t.version old w v h e in
        published old old.workflow v (rw same (h, lt))

pub update_manifest-WellFormed :
    (env : Env) (namespace uid manifest : String)
    → Keeps WellFormed (update_workspace_template_manifest env namespace uid manifest)
unfolding update_workspace_template_manifest
update_manifest-WellFormed env namespace uid manifest =
    State.bind-Keeps WellFormed (get_workspace_template env namespace uid (pos 0)) _
      (get-WellFormed env namespace uid (pos 0))
      λ existing.
        State.bind-Keeps WellFormed (State.lift _) _ (State.lift-Keeps WellFormed _)
          λ t. update-WellFormed env namespace t

-- ===== src/WorkspaceTemplate/Run.antt =====
-- Sequences of requests on workspace templates, from empty tables.
use onepanel.Base.{
  ℕ, ℤ, pos, String, true, ◌≡◌, refl, subst, List, [], ◌∷◌, map, arith, ◌&&◌, not, ◌==◌,
  if◌then◌else◌,
}
use onepanel.Base.State
use onepanel.Base.State.{M, ◌>>=◌, ◌>>◌, Keeps}
use onepanel.Template.Store
use onepanel.Template.Archive as TemplateArchive
use onepanel.Template.Latest
use onepanel.Template.Archived.{archive-WellFormed}
use onepanel.Template.Run as TemplateRun
use onepanel.WorkspaceTemplate.Store.{Row, World, WorkspaceTemplate, Env, attempt}
use onepanel.WorkspaceTemplate.Table.{is_current, hide_row, hide_rows}
use onepanel.WorkspaceTemplate.Create
use onepanel.WorkspaceTemplate.Update
use onepanel.WorkspaceTemplate.Archive
use onepanel.WorkspaceTemplate.Latest.{
  as_template, view, WellFormed, on_workflows-WellFormed, attempt-WellFormed,
}
use onepanel.WorkspaceTemplate.Created.{create-WellFormed, map_error-Keeps}
use onepanel.WorkspaceTemplate.Updated.{
  get-WellFormed, update-WellFormed, update_manifest-WellFormed,
}

hide-Keeps : {A : Type 0} (m : M World A) → Keeps WellFormed m → Keeps WellFormed (Archive.hide m)
unfolding Archive.hide
hide-Keeps m k = map_error-Keeps WellFormed Archive.unable m k

-- what the statement hides, seen on the view
hidden : String → String → Store.TemplateRow → Store.TemplateRow
hidden namespace uid r =
    if r.uid == uid && r.namespace == namespace && not r.is_archived
    then record r { is_archived = true }
    else r

hide_rows-WellFormed :
    (namespace uid : String) (w : World) → WellFormed w → WellFormed (hide_rows namespace uid w)
unfolding hide_rows
hide_rows-WellFormed namespace uid w h = record {
  templates =
      subst (λ ts. Latest.WellFormed (record (view w) { templates = ts })) (viewed w.rows)
        (Latest.map-WellFormed (hidden namespace uid) (λ r. unfold hidden in ground arith) (view w)
          h.templates);
  workflows = h.workflows;
}
  where
    one : (r : Row) → hidden namespace uid (as_template r) ≡ as_template (hide_row namespace uid r)
    one r = unfold hidden as_template hide_row is_current in ground arith

    both :
        {x y : Store.TemplateRow} {xs ys : List Store.TemplateRow}
        → x ≡ y
        → xs ≡ ys
        → x ∷ xs ≡ y ∷ ys
    both p q = cc

    viewed :
        (rs : List Row)
        → map (hidden namespace uid) (map as_template rs)
          ≡ map as_template (map (hide_row namespace uid) rs)
    viewed [] = refl
    viewed (r ∷ rs) = both (one r) (viewed rs)

archive_db-Keeps :
    (env : Env) (namespace uid : String)
    → Keeps WellFormed (Archive.archive_workspace_template_db env namespace uid)
unfolding Archive.archive_workspace_template_db
archive_db-Keeps env namespace uid =
    State.next-Keeps WellFormed (attempt env _) _ (attempt-WellFormed env _) (
      State.bind-Keeps WellFormed (State.gets _) _ (State.gets-Keeps WellFormed _) λ changed.
        State.next-Keeps WellFormed (State.modify (hide_rows namespace uid)) _
          (State.modify-Keeps WellFormed (hide_rows namespace uid)
            (hide_rows-WellFormed namespace uid))
          (State.pure-Keeps WellFormed changed))

-- ArchiveWorkspaceTemplate keeps the invariant, whatever fails.
pub archive_workspace_template-WellFormed :
    (fuel : ℕ) (env : Env) (namespace uid : String)
    → Keeps WellFormed (Archive.archive_workspace_template fuel env namespace uid)
unfolding Archive.archive_workspace_template
archive_workspace_template-WellFormed fuel env namespace uid =
    State.bind-Keeps WellFormed
      (Archive.hide (Update.get_workspace_template env namespace uid (pos 0))) _
      (hide-Keeps _ (get-WellFormed env namespace uid (pos 0)))
      λ existing. State.bind-Keeps WellFormed (State.lift _) _ (State.lift-Keeps WellFormed _) λ t.
        State.bind-Keeps WellFormed (Archive.hide (State.lift _)) _
          (hide-Keeps _ (State.lift-Keeps WellFormed _))
          λ workspaces.
            State.next-Keeps WellFormed (Archive.hide (State.each _ workspaces)) _
              (hide-Keeps (State.each _ workspaces) (
                State.each-Keeps WellFormed _
                  (λ u. State.check-Keeps WellFormed (env.archive_workspace namespace u))
                  workspaces))
              (State.next-Keeps WellFormed (Archive.hide _) _
                (hide-Keeps _ (
                  State.bind-Keeps WellFormed
                    (Archive.archive_workspace_template_db env namespace t.uid) _
                    (archive_db-Keeps env namespace t.uid)
                    (λ changed. State.pure-Keeps WellFormed tt)))
                (hide-Keeps _ (
                  on_workflows-WellFormed
                    (TemplateArchive.archive_workflow_template fuel env.inner namespace t.uid)
                    (archive-WellFormed fuel env.inner namespace t.uid))))

-- a request, each with what it sees of the outside; the fuel is that of ArchiveWorkflowTemplate
pub data Request : Type 0 where
  create : ℕ → Env → String → WorkspaceTemplate → Request
  get : Env → String → String → ℤ → Request
  update : Env → String → WorkspaceTemplate → Request
  update_manifest : Env → String → String → String → Request
  archive : ℕ → Env → String → String → Request
  workflow : TemplateRun.Request → Request

unfoldable pub handle : Request → World → World
unfolding TemplateRun.serve
handle (create fuel env namespace t) w = (Create.create fuel env namespace t w).1
handle (get env namespace uid v) w = (Update.get_workspace_template env namespace uid v w).1
handle (update env namespace t) w = (Update.update_workspace_template env namespace t w).1
handle (update_manifest env namespace uid manifest) w =
    (Update.update_workspace_template_manifest env namespace uid manifest w).1
handle (archive fuel env namespace uid) w =
    (Archive.archive_workspace_template fuel env namespace uid w).1
handle (workflow r) w = record w { workflows = TemplateRun.serve r w.workflows }

handle-WellFormed : (r : Request) (w : World) → WellFormed w → WellFormed (handle r w)
unfolding handle
handle-WellFormed (create fuel env namespace t) = create-WellFormed fuel env namespace t
handle-WellFormed (get env namespace uid v) = get-WellFormed env namespace uid v
handle-WellFormed (update env namespace t) = update-WellFormed env namespace t
handle-WellFormed (update_manifest env namespace uid manifest) =
    update_manifest-WellFormed env namespace uid manifest
handle-WellFormed (archive fuel env namespace uid) =
    archive_workspace_template-WellFormed fuel env namespace uid
handle-WellFormed (workflow r) = λ w h. record {
  templates =
      Latest.same-WellFormed (view w) (view (handle (workflow r) w)) refl refl refl h.templates;
  workflows = TemplateRun.serve-WellFormed r w.workflows h.workflows;
}

unfoldable pub handle_all : List Request → World → World
unfolding handle
handle_all [] w = w
handle_all (r ∷ rs) w = handle_all rs (handle r w)

handle_all-WellFormed :
    (rs : List Request) (w : World) → WellFormed w → WellFormed (handle_all rs w)
unfolding handle_all
handle_all-WellFormed [] w h = h
handle_all-WellFormed (r ∷ rs) w h = handle_all-WellFormed rs (handle r w) (handle-WellFormed r w h)

-- empty tables, whatever Argo holds
unfoldable pub empty : Store.Store → World
unfolding TemplateRun.fresh
empty s = record {
  rows = [];
  versions = [];
  serial = 1;
  version_serial = 1;
  workflows = TemplateRun.fresh s;
}

-- From empty tables, after any sequence of requests on workspace templates and on workflow templates, every
-- workspace template and every workflow template has exactly one latest version, and an id from 1 below
-- its serial; whichever calls of the database and of Argo fail in each request, also where the failure of a
-- creation is cleaned up after.
pub handle_all-empty-WellFormed :
    (rs : List Request) (s : Store.Store) → WellFormed (handle_all rs (empty s))
unfolding TemplateRun.serve_all
handle_all-empty-WellFormed rs s = handle_all-WellFormed rs (empty s) (
    unfold empty in
    record {
      templates = record { serial = omega arith; latest = tt; below = tt };
      workflows = TemplateRun.serve_all-fresh-WellFormed [] s;
    })

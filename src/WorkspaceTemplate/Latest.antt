-- ===== src/WorkspaceTemplate/Latest.antt =====
-- The invariant of the versions of workspace templates. The two tables are viewed as those of workflow
-- templates, for which Template/Latest has the lemmas.
use onepanel.Base.{
  ℕ, ◌≤◌, false, ◌≡◌, refl, ap, List, [], ◌∷◌, ◌++◌, map, Error, Result, ok, err, arith,
  Option-cases, inl, inr,
}
use onepanel.Base.State
use onepanel.Base.State.{M, Keeps}
use onepanel.Template.Store
use onepanel.Template.Table
use onepanel.Template.Latest.{same-WellFormed, rollback-WellFormed}
use onepanel.Template.Latest
use onepanel.WorkspaceTemplate.Store.{
  Row, VersionRow, World, Call, Env, attempt, put_store, on_workflows, rollback, close_transaction,
  transaction,
}
use onepanel.WorkspaceTemplate.Table.{outdate}

unfoldable pub as_template : Row → Store.TemplateRow
as_template r = record {
  id = r.id;
  uid = r.uid;
  name = r.name;
  namespace = r.namespace;
  is_archived = r.is_archived;
  is_system = false;
  labels = r.labels;
}

unfoldable pub as_version : VersionRow → Store.VersionRow
as_version v = record {
  id = v.id;
  template_id = v.template_id;
  version = 0;
  is_latest = v.is_latest;
  manifest = v.manifest;
  parameters = [];
  labels = v.labels;
  description = "";
}

abbrev pub view : World → Store.Store
view w = record w.workflows {
  templates = map as_template w.rows;
  versions = map as_version w.versions;
  template_serial = w.serial;
}

-- both kinds of templates have one latest version each
pub record WellFormed (w : World) : Type 0 where
  pub templates : Latest.WellFormed (view w)
  pub workflows : Latest.WellFormed w.workflows

pub map-append :
    {A B : Type 0} (f : A → B) (xs ys : List A) → map f (xs ++ ys) ≡ map f xs ++ map f ys
map-append f [] ys = refl
map-append f (x ∷ xs) ys = ap (λ zs. f x ∷ zs) (map-append f xs ys)

pub map-outdate :
    (i : ℕ) (vs : List VersionRow)
    → map as_version (map (outdate i) vs) ≡ map (Table.outdate i) (map as_version vs)
unfolding as_version outdate Table.outdate
map-outdate i [] = refl
map-outdate i (v ∷ vs) = ground (arith, map-outdate i vs)

-- a change of the rows that leaves the ids and the versions
pub same-Rows :
    (w v : World)
    → v.rows ≡ w.rows
    → v.versions ≡ w.versions
    → v.serial ≡ w.serial
    → Latest.WellFormed (view w)
    → Latest.WellFormed (view v)
same-Rows w v p q r =
    same-WellFormed (view w) (view v) (ap (map as_template) p) (ap (map as_version) q) r

-- what a block does before it returns
abbrev pub Started : ℕ → World → Type 0
Started n w = (n ≤ w.serial) × Latest.WellFormed w.workflows

abbrev pub Grows : {A : Type 0} → M World A → Type 0
Grows m = (n : ℕ) → Keeps (Started n) m

pub on_workflows-Grows :
    {A : Type 0} (m : M Store.Store A) → Keeps Latest.WellFormed m → Grows (on_workflows m)
unfolding on_workflows put_store
on_workflows-Grows m k n w h = (h.0, k w.workflows h.1)

pub on_workflows-WellFormed :
    {A : Type 0} (m : M Store.Store A)
    → Keeps Latest.WellFormed m
    → Keeps WellFormed (on_workflows m)
unfolding on_workflows put_store
on_workflows-WellFormed m k w h = record {
  templates = same-Rows w (on_workflows m w).1 refl refl refl h.templates;
  workflows = k w.workflows h.workflows;
}

pub attempt-Grows : (env : Env) (c : Call) → Grows (attempt env c)
unfolding attempt
attempt-Grows env c n = State.check-Keeps (Started n) (env.fails c)

pub attempt-WellFormed : (env : Env) (c : Call) → Keeps WellFormed (attempt env c)
unfolding attempt
attempt-WellFormed env c = State.check-Keeps WellFormed (env.fails c)

rolled-WellFormed : (w v : World) → WellFormed w → Started w.serial v → WellFormed (rollback w v)
unfolding rollback
rolled-WellFormed w v h g = record {
  templates =
      same-WellFormed (Store.rollback (view w) (view v)) (view (rollback w v))
        (unfold Store.rollback in refl) (unfold Store.rollback in refl)
        (unfold Store.rollback in refl) (rollback-WellFormed (view w) (view v) h.templates g.0);
  workflows = g.1;
}

-- A transaction keeps the invariant, if its block does when it returns, and the clean-up does.
module _ {A : Type 0} (env : Env) (undo : Error → M World A) (m : M World A)
    (undone : (e : Error) → Keeps WellFormed (undo e)) (grows : Grows m) (w : World)
    (done : (a : A) (v : World) → m w ≡ (ok a, v) → WellFormed v) where
  closed :
      (r : Result A) (v : World)
      → WellFormed w
      → m w ≡ (r, v)
      → Started w.serial v
      → WellFormed (close_transaction env undo w (r, v)).1
  unfolding close_transaction
  closed (err x) v h e g = rolled-WellFormed w v h g
  closed (ok a) v h e g = elim (Option-cases (env.fails Call.commit)) [
    | inl c ↦ rw (c, close_transaction) (done a v e)
    | inr (x, c) ↦ rw (c, close_transaction) (undone x (rollback w v) (rolled-WellFormed w v h g))
  ]

  pub transaction-WellFormed : WellFormed w → WellFormed (transaction env undo m w).1
  unfolding transaction
  transaction-WellFormed h = elim (Option-cases (env.fails Call.begin)) [
    | inr (x, c) ↦ rw (c, transaction) h
    | inl c ↦
        rw (c, transaction)
          (closed (m w).0 (m w).1 h refl (grows w.serial w (omega arith, h.workflows)))
  ]

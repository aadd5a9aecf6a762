-- ===== src/Template/Invariant.antt =====
-- Transactions and CreateWorkflowTemplate of pkg/workflow_template.go, and the invariant of the versions.
use onepanel.Base.{
  ℕ, suc, ◌≤◌, String, ◌≡◌, refl, List, [], ◌∷◌, ◌++◌, Result, ok, err, arith, Option-cases, inl,
  inr,
}
use onepanel.Base.State
use onepanel.Base.State.{M, ◌>>=◌, ◌>>◌, Keeps, after}
use onepanel.Params.{Parameter}
use onepanel.Template.Store.{
  Store, TemplateRow, ArgoCopy, Template, Call, Env, rollback, transaction, close_transaction,
}
use onepanel.Template.Table
use onepanel.Template.Create
use onepanel.Template.Create.{add_label, label_resource}
use onepanel.Template.Latest.{WellFormed, rollback-WellFormed, same-WellFormed, new-WellFormed}
use onepanel.Template.Steps.{
  same-eq, create_argo_copy-SameTables, delete_argo_copy-SameTables, Grows, Reached, Tables,
  create_argo_copy-Tables, insert_workflow_template-Grows, create_version_db-Grows,
}

-- What returns keeps the invariant; what fails is rolled back.
module _ {A : Type 0} (env : Env) (undo : A → M Store (Unit {0})) (m : M Store A)
    (undone : (a : A) → Keeps WellFormed (undo a)) (grows : Grows m)
    (done : (a : A) (s t : Store) → WellFormed s → m s ≡ (ok a, t) → WellFormed t) where
  committed :
      (a : A) (s t : Store)
      → WellFormed s
      → WellFormed t
      → s.template_serial ≤ t.template_serial
      → WellFormed (close_transaction env undo s (ok a, t)).1
  unfolding close_transaction
  committed a s t w w' g = elim (Option-cases (env.fails Call.commit)) [
    | inl e ↦ rw (e, close_transaction) w'
    | inr (x, e) ↦ rw (e, close_transaction) (undone a (rollback s t) (rollback-WellFormed s t w g))
  ]

  closed :
      (r : Result A) (s t : Store)
      → WellFormed s
      → m s ≡ (r, t)
      → s.template_serial ≤ t.template_serial
      → WellFormed (close_transaction env undo s (r, t)).1
  closed (ok a) s t w e g = committed a s t w (done a s t w e) g
  closed (err x) s t w e g = unfold close_transaction in rollback-WellFormed s t w g

  pub transaction-WellFormed : Keeps WellFormed (transaction env undo m)
  unfolding transaction
  transaction-WellFormed s w = elim (Option-cases (env.fails Call.begin)) [
    | inr (x, e) ↦ rw (e, transaction) w
    | inl e ↦
        rw (e, transaction)
          (closed (m s).0 s (m s).1 w refl (grows s.template_serial s (omega arith)))
  ]

store_workflow_template-Grows :
    (env : Env) (namespace : String) (t : Template)
    → Grows (Create.store_workflow_template env namespace t)
unfolding Create.store_workflow_template
store_workflow_template-Grows env namespace t n =
    State.bind-Keeps T (Table.insert_workflow_template env (Create.template_row namespace t)) _
      (insert_workflow_template-Grows env (Create.template_row namespace t) n)
      λ id. State.bind-Keeps T (State.lift _) _ (State.lift-Keeps T _) λ parameters.
        State.bind-Keeps T (Table.create_workflow_template_version_db env id t parameters) _
          (create_version_db-Grows env id t parameters n)
          λ version_id. State.bind-Keeps T (State.lift _) _ (State.lift-Keeps T _) λ (copy, named).
            State.next-Keeps T (Create.create_argo_copy env _) _
              (create_argo_copy-Tables (Reached n) env _) (State.pure-Keeps T _)
  where
    T : Store → Type 0
    T = Tables (Reached n)

insert-eq-ok :
    (env : Env) (row : TemplateRow) {i : ℕ} (s t : Store)
    → Table.insert_workflow_template env row s ≡ (ok i, t)
    → (i ≡ s.template_serial)
      × (t.templates ≡ s.templates ++ record row { id = s.template_serial } ∷ [])
      × (t.versions ≡ s.versions)
      × (t.template_serial ≡ suc s.template_serial)
unfolding Table.insert_workflow_template
insert-eq-ok env row s t e = ground arith

pub version_db-eq-ok :
    (env : Env) (i : ℕ) (m : Template) (ps : List Parameter) {j : ℕ} (s t : Store)
    → Table.create_workflow_template_version_db env i m ps s ≡ (ok j, t)
    → (t.templates ≡ s.templates)
      × (t.versions
          ≡ s.versions ++ record (Table.new_version env i m ps) { id = s.version_serial } ∷ [])
      × (t.template_serial ≡ s.template_serial)
unfolding Table.create_workflow_template_version_db Table.insert_workflow_template_version
    Table.add_version State.require
version_db-eq-ok env i m ps s t e = ground arith

store_workflow_template-WellFormed :
    (env : Env) (namespace : String) (m : Template) (a : Template × ArgoCopy) (s t : Store)
    → WellFormed s
    → Create.store_workflow_template env namespace m s ≡ (ok a, t)
    → WellFormed t
unfolding Create.store_workflow_template Table.new_version
store_workflow_template-WellFormed env namespace m a s t w e =
    let row = Create.template_row namespace m in
    after (Table.insert_workflow_template env row) _ e λ i s₁ e₁ k₁.
      after (State.lift _) _ k₁ λ ps s₂ e₂ k₂.
        after (Table.create_workflow_template_version_db env i m ps) _ k₂ λ j s₃ e₃ k₃.
          after (State.lift _) _ k₃ λ pair s₄ e₄ k₄.
            after (Create.create_argo_copy env _) _ k₄ λ u s₅ e₅ k₅.
              let inserted = insert-eq-ok env row s s₁ e₁ in
              let versioned = version_db-eq-ok env i m ps s₂ s₃ e₃ in
              let copied =
                same-eq (Create.create_argo_copy env _) (create_argo_copy-SameTables env _) e₅ in
              let parsed = State.lift-eq-ok _ e₂ in
              let made = State.lift-eq-ok _ e₄ in
              let returned = State.pure-eq-ok _ k₅ in
              let new = record (Table.new_version env i m ps) { id = s₂.version_serial } in
              new-WellFormed s t (record row { id = s.template_serial }) new
                (ground (arith, inserted, versioned, copied, parsed, made, returned))
                (ground (arith, inserted, versioned, copied, parsed, made, returned))
                (ground (arith, inserted, versioned, copied, parsed, made, returned)) refl
                inserted.0 refl w

pub create_workflow_template-WellFormed :
    (env : Env) (namespace : String) (m : Template)
    → Keeps WellFormed (Create.create_workflow_template env namespace m)
unfolding Create.create_workflow_template
create_workflow_template-WellFormed env namespace m =
    State.bind-Keeps WellFormed (State.lift _) _ (State.lift-Keeps WellFormed _) λ named.
      State.bind-Keeps WellFormed
        (transaction env _ (Create.store_workflow_template env namespace named)) _
        (transaction-WellFormed env _ (Create.store_workflow_template env namespace named) undone
          (store_workflow_template-Grows env namespace named)
          (store_workflow_template-WellFormed env namespace named))
        λ made. State.pure-Keeps WellFormed made.0
  where
    undone :
        (made : Template × ArgoCopy)
        → Keeps WellFormed (Create.delete_argo_copy env namespace made.1.name)
    undone made s w =
        let e = delete_argo_copy-SameTables env namespace made.1.name s in
        same-WellFormed s _ e.0 e.1 e.2 w

-- CreateWorkflowTemplate keeps the invariant, whatever fails.
pub create-WellFormed :
    (env : Env) (namespace : String) (m : Template)
    → Keeps WellFormed (Create.create env namespace m)
unfolding Create.create
create-WellFormed env namespace m =
    State.bind-Keeps WellFormed (State.lift _) _ (State.lift-Keeps WellFormed _) λ checked s w.
      mapped (Create.create_workflow_template env namespace m s)
        (create_workflow_template-WellFormed env namespace m s w)
  where
    mapped :
        (x : Result Template × Store)
        → WellFormed x.1
        → WellFormed (Create.map_error (Create.wrap_error "Workflow template") x).1
    mapped (ok a, t) h = unfold Create.map_error in h
    mapped (err e, t) h = unfold Create.map_error in h

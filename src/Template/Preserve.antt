-- ===== src/Template/Preserve.antt =====
-- The steps of CreateWorkflowTemplateVersion, and the invariant of the versions.
use onepanel.Base.{
  ℕ, zero, suc, ◌+◌, ◌≤◌, ◌<◌, ℤ, pos, String, Bool, true, false, not, ◌≡◌, refl, subst, Option,
  none, some, List, [], ◌∷◌, ◌++◌, map, Result, ok, err, arith, Option-cases, Bool-cases, inl, inr,
  leb, All, ◌==◌,
}
use onepanel.Base
use onepanel.Base.State
use onepanel.Base.State.{M, ◌>>=◌, ◌>>◌, Keeps, Keeps-eq, after}
use onepanel.Template.Store.{Store, TemplateRow, VersionRow, ArgoCopy, Template, Call, Env, attempt}
use onepanel.Template.Table
use onepanel.Template.Argo
use onepanel.Template.Create
use onepanel.Template.Version
use onepanel.Template.Latest.{
  WellFormed, HasLatest, same-WellFormed, outdated-WellFormed, write_labels-WellFormed,
}
use onepanel.Template.Steps.{
  SameTables, create_argo_copy-SameTables, get_argo_workflow_template-SameTables,
  select_current-SameTables, same-eq, Grows, Reached, Tables, attempt-Tables,
  create_argo_copy-Tables, update_argo_copy-Tables, get_argo_workflow_template-Tables,
  select_current-Tables, create_version_db-Grows,
}
use onepanel.Template.Invariant.{transaction-WellFormed, version_db-eq-ok}

-- a method that leaves the tables
pub same-Keeps :
    {A : Type 0} (m : M Store A) → ((s : Store) → SameTables s (m s).1) → Keeps WellFormed m
same-Keeps m h s w = same-WellFormed s (m s).1 (h s).0 (h s).1 (h s).2 w

update_argo_copy-SameTables :
    (env : Env) (c : ArgoCopy) (s : Store) → SameTables s (Create.update_argo_copy env c s).1
unfolding Create.update_argo_copy attempt State.check State.modify
update_argo_copy-SameTables env c s = ground arith

pub attempt-SameTables : (env : Env) (c : Call) (s : Store) → SameTables s (attempt env c s).1
unfolding attempt State.check
attempt-SameTables env c s = ground arith

create_argo_copy-Keeps :
    (env : Env) (c : ArgoCopy) → Keeps WellFormed (Create.create_argo_copy env c)
create_argo_copy-Keeps env c =
    same-Keeps (Create.create_argo_copy env c) (create_argo_copy-SameTables env c)

update_argo_copy-Keeps :
    (env : Env) (c : ArgoCopy) → Keeps WellFormed (Create.update_argo_copy env c)
update_argo_copy-Keeps env c =
    same-Keeps (Create.update_argo_copy env c) (update_argo_copy-SameTables env c)

pub attempt-Keeps : (env : Env) (c : Call) → Keeps WellFormed (attempt env c)
attempt-Keeps env c = same-Keeps (attempt env c) (attempt-SameTables env c)

create_latest-Grows :
    (env : Env) (i : ℕ) (m : Template)
    → Grows (Table.create_latest_workflow_template_version_db env i m)
unfolding Table.create_latest_workflow_template_version_db
create_latest-Grows env i m n =
    State.next-Keeps T (State.require _ _) _ (State.require-Keeps T _ _) (
      State.next-Keeps T (attempt env _) _ (attempt-Tables (Reached n) env _) (
        State.next-Keeps T (State.modify (Table.outdate_versions i)) _
          (State.modify-Keeps T _ (λ s h. unfold Table.outdate_versions in h))
          (State.bind-Keeps T (State.lift _) _ (State.lift-Keeps T _)
            λ ps. create_version_db-Grows env i m ps n)))
  where
    T : Store → Type 0
    T = Tables (Reached n)

publish_version-Grows :
    (env : Env) (namespace : String) (m : Template) (i j : ℕ)
    → Grows (Version.publish_version env namespace m i j)
unfolding Version.publish_version
publish_version-Grows env namespace m i j n =
    State.bind-Keeps T (State.lift _) _ (State.lift-Keeps T _) λ pair.
      State.bind-Keeps T (State.lift _) _ (State.lift-Keeps T _) λ strings.
        State.bind-Keeps T (Argo.get_argo_workflow_template env namespace pair.1.uid Argo.latest) _
          (get_argo_workflow_template-Tables (Reached n) env namespace pair.1.uid Argo.latest)
          λ older.
            State.next-Keeps T (Create.create_argo_copy env _) _
              (create_argo_copy-Tables (Reached n) env _)
              (State.next-Keeps T (Create.update_argo_copy env _) _
                (update_argo_copy-Tables (Reached n) env _)
                (State.next-Keeps T (attempt env _) _ (attempt-Tables (Reached n) env _) (
                  State.next-Keeps T (State.modify (Table.write_labels i m.labels)) _
                    (State.modify-Keeps T _ (λ s h. unfold Table.write_labels in h))
                    (State.pure-Keeps T _))))
  where
    T : Store → Type 0
    T = Tables (Reached n)

store_version-Grows :
    (env : Env) (namespace : String) (m : Template) → Grows (Version.store_version env namespace m)
unfolding Version.store_version
store_version-Grows env namespace m n =
    State.bind-Keeps (Tables (Reached n)) (Version.select_current env namespace m.uid) _
      (select_current-Tables (Reached n) env namespace m.uid)
      λ row.
        State.bind-Keeps (Tables (Reached n))
          (Table.create_latest_workflow_template_version_db env row.id m) _
          (create_latest-Grows env row.id m n) λ j. publish_version-Grows env namespace m row.id j n

found-HasLatest :
    (n : ℕ) (vs : List VersionRow) (test : TemplateRow → Bool) (ts : List TemplateRow)
    → All (HasLatest n vs) ts
    → (row : TemplateRow) → Table.find_template test ts ≡ some row
    → HasLatest n vs row
unfolding Table.find_template
found-HasLatest n vs test [] h row e = absurd (cc)
found-HasLatest n vs test (t ∷ ts) h row e = elim (Bool-cases (test t)) [
  | inl b ↦ let same : t ≡ row = ground arith in subst (HasLatest n vs) same h.0
  | inr b ↦ found-HasLatest n vs test ts h.1 row (rw b at e)
]

select_current-HasLatest :
    (env : Env) (namespace uid : String) (row : TemplateRow) (s t : Store)
    → WellFormed s
    → Version.select_current env namespace uid s ≡ (ok row, t)
    → HasLatest s.template_serial s.versions row
unfolding Version.select_current
select_current-HasLatest env namespace uid row s t w e =
    elim (Option-cases (Table.find_template (Table.is_current namespace uid) s.templates)) [
      | inl missing ↦ absurd (unfold Version.found_row in ground arith)
      | inr (r, found) ↦
          let same : r ≡ row = unfold Version.found_row in ground arith in
          subst (HasLatest s.template_serial s.versions) same (
            found-HasLatest s.template_serial s.versions (Table.is_current namespace uid)
              s.templates w.latest r found)
    ]

outdate-tables :
    (i : ℕ) (s t : Store) {u : Unit {0}}
    → State.modify (Table.outdate_versions i) s ≡ (ok u, t)
    → (t.templates ≡ s.templates)
      × (t.versions ≡ map (Table.outdate i) s.versions)
      × (t.template_serial ≡ s.template_serial)
unfolding State.modify Table.outdate_versions
outdate-tables i s t e = ground arith

require-same :
    (b : Bool) (x : Base.Error) {r : Result (Unit {0})} {s t : Store}
    → State.require b x s ≡ (r, t)
    → t ≡ s
unfolding State.require
require-same true x e = ground arith
require-same false x e = ground arith

-- The new version, when its insert is done.
create_latest-WellFormed :
    (env : Env) (i : ℕ) (m : Template) (j : ℕ) (s t : Store)
    → i < s.template_serial
    → WellFormed s
    → Table.create_latest_workflow_template_version_db env i m s ≡ (ok j, t)
    → WellFormed t
unfolding Table.create_latest_workflow_template_version_db Table.new_version
create_latest-WellFormed env i m j s t lt w e = after (State.require _ _) _ e λ u₁ s₁ e₁ k₁.
    after (attempt env _) _ k₁ λ u₂ s₂ e₂ k₂.
      after (State.modify (Table.outdate_versions i)) _ k₂ λ u₃ s₃ e₃ k₃.
        after (State.lift _) _ k₃ λ ps s₄ e₄ k₄.
          let required = require-same _ _ e₁ in
          let attempted = same-eq (attempt env _) (attempt-SameTables env _) e₂ in
          let outdated = outdate-tables i s₂ s₃ e₃ in
          let parsed = State.lift-eq-ok _ e₄ in
          let versioned = version_db-eq-ok env i m ps s₄ t k₄ in
          let new = record (Table.new_version env i m ps) { id = s₄.version_serial } in
          outdated-WellFormed s t i new
            (ground (arith, required, attempted, outdated, parsed, versioned))
            (ground (arith, required, attempted, outdated, parsed, versioned))
            (ground (arith, required, attempted, outdated, parsed, versioned)) refl refl lt w

publish_version-Keeps :
    (env : Env) (namespace : String) (m : Template) (i j : ℕ)
    → Keeps WellFormed (Version.publish_version env namespace m i j)
unfolding Version.publish_version
publish_version-Keeps env namespace m i j =
    State.bind-Keeps WellFormed (State.lift _) _ (State.lift-Keeps WellFormed _) λ pair.
      State.bind-Keeps WellFormed (State.lift _) _ (State.lift-Keeps WellFormed _) λ strings.
        State.bind-Keeps WellFormed
          (Argo.get_argo_workflow_template env namespace pair.1.uid Argo.latest) _
          (same-Keeps (Argo.get_argo_workflow_template env namespace pair.1.uid Argo.latest)
            (get_argo_workflow_template-SameTables env namespace pair.1.uid Argo.latest))
          λ older.
            State.next-Keeps WellFormed (Create.create_argo_copy env _) _
              (create_argo_copy-Keeps env _)
              (State.next-Keeps WellFormed (Create.update_argo_copy env _) _
                (update_argo_copy-Keeps env _)
                (State.next-Keeps WellFormed (attempt env _) _ (attempt-Keeps env _) (
                  State.next-Keeps WellFormed (State.modify (Table.write_labels i m.labels)) _
                    (State.modify-Keeps WellFormed _ (write_labels-WellFormed i m.labels))
                    (State.pure-Keeps WellFormed _))))

store_version-WellFormed :
    (env : Env) (namespace : String) (m a : Template) (s t : Store)
    → WellFormed s
    → Version.store_version env namespace m s ≡ (ok a, t)
    → WellFormed t
unfolding Version.store_version
store_version-WellFormed env namespace m a s t w e =
    after (Version.select_current env namespace m.uid) _ e λ row s₁ e₁ k₁.
      after (Table.create_latest_workflow_template_version_db env row.id m) _ k₁ λ j s₂ e₂ k₂.
        let w₁ =
          Keeps-eq WellFormed (Version.select_current env namespace m.uid)
            (same-Keeps (Version.select_current env namespace m.uid)
              (select_current-SameTables env namespace m.uid))
            w e₁ in
        let read =
          same-eq (Version.select_current env namespace m.uid)
            (select_current-SameTables env namespace m.uid) e₁ in
        let held = select_current-HasLatest env namespace m.uid row s s₁ w e₁ in
        let w₂ =
          create_latest-WellFormed env row.id m j s₁ s₂ (ground (arith, held.given, read.2)) w₁
            e₂ in
        Keeps-eq WellFormed (Version.publish_version env namespace m row.id j)
          (publish_version-Keeps env namespace m row.id j) w₂ k₂

-- CreateWorkflowTemplateVersion keeps the invariant, whatever fails.
pub create_version-WellFormed :
    (env : Env) (namespace : String) (m : Template)
    → Keeps WellFormed (Version.create_workflow_template_version env namespace m)
unfolding Version.create_workflow_template_version
create_version-WellFormed env namespace m =
    State.next-Keeps WellFormed (State.require _ _) _ (State.require-Keeps WellFormed _ _) (
      State.next-Keeps WellFormed (State.lift _) _ (State.lift-Keeps WellFormed _) (
        transaction-WellFormed env _ (Version.store_version env namespace m)
          (λ a. State.pure-Keeps WellFormed tt) (store_version-Grows env namespace m)
          (store_version-WellFormed env namespace m)))

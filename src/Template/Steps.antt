-- ===== src/Template/Steps.antt =====
-- What the parts of the methods do to the tables of templates and versions: the serial of the templates
-- grows, and the calls of Argo leave the tables.
use onepanel.Base.{ℕ, ◌≤◌, String, ◌≡◌, subst, List, map, Result, arith, leb}
use onepanel.Base.State
use onepanel.Base.State.{M, Keeps}
use onepanel.Params.{Parameter}
use onepanel.Template.Store.{Store, TemplateRow, VersionRow, ArgoCopy, Template, Call, Env, attempt}
use onepanel.Template.Table.{
  insert_workflow_template, insert_workflow_template_version, add_version, new_version,
  create_workflow_template_version_db,
}
use onepanel.Template.Argo.{Wanted, get_argo_workflow_template}
use onepanel.Template.Create.{
  create_argo_copy, update_argo_copy, delete_argo_copy, replace_copy, drop_copy,
}
use onepanel.Template.Version.{select_current}

-- the tables of templates and versions and the serial are as before
abbrev pub SameTables : Store → Store → Type 0
SameTables s t =
    (t.templates ≡ s.templates)
    × (t.versions ≡ s.versions)
    × (t.template_serial ≡ s.template_serial)

pub same-eq :
    {A : Type 0} (m : M Store A)
    → ((s : Store) → SameTables s (m s).1)
    → {r : Result A} {s t : Store} → m s ≡ (r, t)
    → SameTables s t
same-eq m h {r} {s} {t} e = subst (λ p. SameTables s p.1) e (h s)

pub create_argo_copy-SameTables :
    (env : Env) (c : ArgoCopy) (s : Store) → SameTables s (create_argo_copy env c s).1
unfolding create_argo_copy
create_argo_copy-SameTables env c s = ground arith

pub delete_argo_copy-SameTables :
    (env : Env) (namespace name : String) (s : Store)
    → SameTables s (delete_argo_copy env namespace name s).1
unfolding delete_argo_copy drop_copy
delete_argo_copy-SameTables env namespace name s = ground arith

pub get_argo_workflow_template-SameTables :
    (env : Env) (namespace uid : String) (w : Wanted) (s : Store)
    → SameTables s (get_argo_workflow_template env namespace uid w s).1
unfolding get_argo_workflow_template
get_argo_workflow_template-SameTables env namespace uid w s = ground arith

pub select_current-SameTables :
    (env : Env) (namespace uid : String) (s : Store)
    → SameTables s (select_current env namespace uid s).1
unfolding select_current
select_current-SameTables env namespace uid s = ground arith

-- A property of the tables of templates and versions and of the serial.
module _ (Q : List TemplateRow → List VersionRow → ℕ → Type 0) where
  abbrev pub Tables : Store → Type 0
  Tables s = Q s.templates s.versions s.template_serial

  same-Tables : (s t : Store) → SameTables s t → Tables s → Tables t
  same-Tables s t e h = rw (e.0, e.1, e.2) h

  -- a method that leaves these tables
  call-Tables : {A : Type 0} (m : M Store A) → ((s : Store) → SameTables s (m s).1) → Keeps Tables m
  call-Tables m e s = same-Tables s (m s).1 (e s)

  pub attempt-Tables : (env : Env) (c : Call) → Keeps Tables (attempt env c)
  unfolding attempt
  attempt-Tables env c = State.check-Keeps Tables (env.fails c)

  pub create_argo_copy-Tables : (env : Env) (c : ArgoCopy) → Keeps Tables (create_argo_copy env c)
  create_argo_copy-Tables env c =
      call-Tables (create_argo_copy env c) (create_argo_copy-SameTables env c)

  pub update_argo_copy-Tables : (env : Env) (c : ArgoCopy) → Keeps Tables (update_argo_copy env c)
  unfolding update_argo_copy
  update_argo_copy-Tables env c =
      State.next-Keeps Tables (attempt env Call.update_copy) _ (attempt-Tables env Call.update_copy)
        (State.modify-Keeps Tables (λ s. record s { copies = map (replace_copy c) s.copies })
          (λ s h. h))

  pub delete_argo_copy-Tables :
      (env : Env) (namespace name : String) → Keeps Tables (delete_argo_copy env namespace name)
  delete_argo_copy-Tables env namespace name =
      call-Tables (delete_argo_copy env namespace name)
        (delete_argo_copy-SameTables env namespace name)

  pub get_argo_workflow_template-Tables :
      (env : Env) (namespace uid : String) (w : Wanted)
      → Keeps Tables (get_argo_workflow_template env namespace uid w)
  get_argo_workflow_template-Tables env namespace uid w =
      call-Tables (get_argo_workflow_template env namespace uid w)
        (get_argo_workflow_template-SameTables env namespace uid w)

  pub select_current-Tables :
      (env : Env) (namespace uid : String) → Keeps Tables (select_current env namespace uid)
  select_current-Tables env namespace uid =
      call-Tables (select_current env namespace uid) (select_current-SameTables env namespace uid)

-- the serial has reached `n`
abbrev pub Reached : ℕ → List TemplateRow → List VersionRow → ℕ → Type 0
Reached n ts vs serial = n ≤ serial

abbrev pub Grows : {A : Type 0} → M Store A → Type 0
Grows m = (n : ℕ) → Keeps (Tables (Reached n)) m

pub insert_workflow_template-Grows :
    (env : Env) (row : TemplateRow) → Grows (insert_workflow_template env row)
unfolding insert_workflow_template
insert_workflow_template-Grows env row n s h = ground arith

pub insert_version-Grows :
    (env : Env) (v : VersionRow) → Grows (insert_workflow_template_version env v)
unfolding insert_workflow_template_version add_version
insert_version-Grows env v n s h = ground arith

pub create_version_db-Grows :
    (env : Env) (i : ℕ) (t : Template) (ps : List Parameter)
    → Grows (create_workflow_template_version_db env i t ps)
unfolding create_workflow_template_version_db
create_version_db-Grows env i t ps n =
    State.next-Keeps (Tables (Reached n)) (State.require (leb 1 i) _) _
      (State.require-Keeps (Tables (Reached n)) (leb 1 i) _)
      (insert_version-Grows env (new_version env i t ps) n)

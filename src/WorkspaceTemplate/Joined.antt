-- ===== src/WorkspaceTemplate/Joined.antt =====
-- The rows that GetWorkspaceTemplate of pkg/workspace_template.go finds.
use onepanel.Base.{
  ℕ, ◌<◌, ℤ, Map, String, Bool, ◌≡◌, ◌∙◌, ap, sym, subst, Option, none, some, List, [], ◌∷◌, map,
  keep, ok, arith, All, All-append, Bool-cases, inl, inr, >>=-eq-ok,
}
use onepanel.Base.State
use onepanel.Base.State.{M, ◌>>=◌, ◌>>◌, Keeps, after}
use onepanel.Template.Store
use onepanel.Template.Latest
use onepanel.Template.Latest.{outdated-WellFormed, same-WellFormed}
use onepanel.WorkspaceTemplate.Store.{
  Row, VersionRow, World, WorkspaceTemplate, Env, attempt, select_template,
}
use onepanel.WorkspaceTemplate.Table.{is_current}
use onepanel.WorkspaceTemplate.Generate.{inject_runtime_parameters}
use onepanel.WorkspaceTemplate.Update.{
  get_workspace_template, first_of, with_runtime, joined, flat_map, scanned,
}
use onepanel.WorkspaceTemplate.Latest.{as_template, as_version, WellFormed}

All-keep : {A : Type 0} (P : A → Type 0) (p : A → Bool) (xs : List A) → All P xs → All P (keep p xs)
All-keep P p [] h = tt
All-keep P p (x ∷ xs) h = elim (Bool-cases (p x)) [
  | inl e ↦ rw (e, keep) (h.0, All-keep P p xs h.1)
  | inr e ↦ rw (e, keep) (All-keep P p xs h.1)
]

All-flat_map :
    {A B : Type 0} (P : A → Type 0) (Q : B → Type 0) (f : A → List B)
    → ((a : A) → P a → All Q (f a))
    → (xs : List A) → All P xs
    → All Q (flat_map f xs)
unfolding flat_map
All-flat_map P Q f k [] h = tt
All-flat_map P Q f k (x ∷ xs) h =
    All-append Q (f x) (flat_map f xs) (k x h.0) (All-flat_map P Q f k xs h.1)

any-All : {A : Type 0} (xs : List A) → All (λ a. Unit {0}) xs
any-All [] = tt
any-All (x ∷ xs) = (tt, any-All xs)

rows-below :
    (n : ℕ) (vs : List Store.VersionRow) (rs : List Row)
    → All (Latest.HasLatest n vs) (map as_template rs)
    → All (λ (r : Row). r.id < n) rs
rows-below n vs [] h = tt
rows-below n vs (r ∷ rs) h = (below r h.0, rows-below n vs rs h.1)
  where
    below : (r : Row) → Latest.HasLatest n vs (as_template r) → r.id < n
    below r k = unfold as_template in k.given

scanned-below :
    (n : ℕ) (r : Row) (v : VersionRow) (t : Store.TemplateRow) (us : List Store.VersionRow)
    → r.id < n
    → All (λ (x : WorkspaceTemplate). x.id < n) (map (scanned r v t) us)
unfolding scanned
scanned-below n r v t [] h = tt
scanned-below n r v t (u ∷ us) h = (h, scanned-below n r v t us h)

-- the rows of the join are of templates whose id was given out
joined-below :
    (namespace uid : String) (version : ℤ) (w : World)
    → WellFormed w
    → All (λ t. t.id < w.serial) (joined namespace uid version w)
unfolding joined
joined-below namespace uid version w h =
    All-flat_map (λ r. r.id < w.serial) Below _
      (λ r k.
        All-flat_map (λ v. Unit {0}) Below _
          (λ v j.
            All-flat_map (λ t. Unit {0}) Below _
              (λ t i. scanned-below w.serial r v t (keep _ w.workflows.versions) k)
              (keep _ w.workflows.templates) (any-All (keep _ w.workflows.templates)))
          (keep _ w.versions) (any-All (keep _ w.versions)))
      (keep (is_current namespace uid) w.rows)
      (All-keep (λ r. r.id < w.serial) (is_current namespace uid) w.rows
        (rows-below w.serial (map as_version w.versions) w.rows h.templates.latest))
  where
    Below : WorkspaceTemplate → Type 0
    Below t = t.id < w.serial

inject-id :
    (env : Env) (config : Map String) (t u : WorkspaceTemplate)
    → inject_runtime_parameters env config t ≡ ok u
    → u.id ≡ t.id
unfolding inject_runtime_parameters
inject-id env config t u e = ground arith

runtime-id :
    (env : Env) (t u : WorkspaceTemplate) → with_runtime env (some t) ≡ ok (some u) → u.id ≡ t.id
unfolding with_runtime
runtime-id env t u e =
    let (config, p, q) = >>=-eq-ok env.config _ e in
    let (x, r, k) = >>=-eq-ok (inject_runtime_parameters env config t) _ q in
    let same : x ≡ u = ground arith in subst (λ y. y.id ≡ t.id) same (inject-id env config t x r)

first_of-below :
    (n : ℕ) (ts : List WorkspaceTemplate) (t : WorkspaceTemplate)
    → All (λ (x : WorkspaceTemplate). x.id < n) ts
    → first_of ts ≡ some t
    → t.id < n
first_of-below n [] t h e = absurd (cc)
first_of-below n (x ∷ xs) t h e =
    let same : x ≡ t = ground arith in subst (λ (y : WorkspaceTemplate). y.id < n) same h.0

runtime-below :
    (env : Env) (n : ℕ) (ts : List WorkspaceTemplate) (found : Option WorkspaceTemplate)
    (t : WorkspaceTemplate)
    → All (λ (x : WorkspaceTemplate). x.id < n) ts
    → first_of ts ≡ found
    → with_runtime env found ≡ ok (some t)
    → t.id < n
runtime-below env n ts none t h e k = absurd (unfold with_runtime in cc)
runtime-below env n ts (some x) t h e k = rw (runtime-id env x t k) (first_of-below n ts x h e)

-- a template that is found has an id that was given out
pub get-below :
    (env : Env) (namespace uid : String) (version : ℤ) (t : WorkspaceTemplate) (w v : World)
    → WellFormed w
    → get_workspace_template env namespace uid version w ≡ (ok (some t), v)
    → (v ≡ w) × (t.id < w.serial)
unfolding get_workspace_template attempt
get-below env namespace uid version t w v h e =
    after (State.check (env.fails select_template)) _ e λ u w₁ e₁ k₁.
      after (State.gets (λ x. first_of (joined namespace uid version x))) _ k₁ λ found w₂ e₂ k₂.
        let checked = State.check-eq-ok (env.fails select_template) e₁ in
        let read = State.gets-eq-ok (λ x. first_of (joined namespace uid version x)) e₂ in
        let lifted = State.lift-eq-ok (with_runtime env found) k₂ in
        let here : first_of (joined namespace uid version w) ≡ found =
          ap (λ x. first_of (joined namespace uid version x)) (sym checked) ∙ inner read.0 in
        (
          lifted.1 ∙ read.1 ∙ checked,
          runtime-below env w.serial (joined namespace uid version w) found t
              (joined-below namespace uid version w h) here lifted.0,
        )
  where
    inner : {a b : Option WorkspaceTemplate} → ok a ≡ ok b → a ≡ b
    inner p = cc

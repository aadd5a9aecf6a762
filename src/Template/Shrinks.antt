-- ===== src/Template/Shrinks.antt =====
-- The archiving of executions and the number of rows that pass a test (ArchiveWorkflowExecution of
-- pkg/workflow_execution.go).
use onepanel.Base.{
  ℕ, ◌≤◌, ◌<◌, String, Bool, true, false, ◌≡◌, sym, ap, subst, List, [], ◌∷◌, map, keep, length, ok,
  arith, inl, inr, ◌⊎◌, eq_iff,
}
use onepanel.Base.State
use onepanel.Base.State.{M, ◌>>=◌, ◌>>◌}
use onepanel.Template.Store.{Store, ExecutionRow, Env}
use onepanel.Template.Archive.{
  archive_execution_row, archive_workflow_execution, mark_execution, drop_workflow,
}

-- the number of rows that pass a test
abbrev pub count : {A : Type 0} → (A → Bool) → List A → ℕ
count p xs = length (keep p xs)

-- the row stands in the table
abbrev pub Has : ExecutionRow → List ExecutionRow → Type 0
Has e [] = ⊥
Has e (x ∷ xs) = (e ≡ x) ⊎ Has e xs

module _ (namespace : String) (p : ExecutionRow → Bool) where
  -- no archived row passes the test
  abbrev pub Respects : Type 0
  Respects = (e : ExecutionRow) → p (record e { is_archived = true }) ≡ false

  count-archive_le :
      (uid : String) (xs : List ExecutionRow)
      → Respects
      → count p (map (archive_execution_row namespace uid) xs) ≤ count p xs
  unfolding archive_execution_row
  count-archive_le uid [] h = omega arith
  count-archive_le uid (x ∷ xs) h = ground (arith, count-archive_le uid xs h, h x)

  count-archive_lt :
      (e : ExecutionRow) (xs : List ExecutionRow)
      → Respects
      → Has e xs
      → p e ≡ true
      → e.namespace ≡ namespace
      → count p (map (archive_execution_row namespace e.uid) xs) < count p xs
  unfolding archive_execution_row
  count-archive_lt e [] h m t n = elim m [ ]
  count-archive_lt e (x ∷ xs) h (inl here) t n =
      let here' : p x ≡ true = subst (λ y. p y ≡ true) here t in
      let uid : x.uid ≡ e.uid = ap (λ y. y.uid) (sym here) in
      let same : x.namespace ≡ namespace = subst (λ y. y.namespace ≡ namespace) here n in
      ground (
        arith,
        count-archive_le e.uid xs h,
        h x,
        here',
        uid,
        same,
        eq_iff x.uid e.uid,
        eq_iff x.namespace namespace,
      )
  count-archive_lt e (x ∷ xs) h (inr m) t n = ground (arith, count-archive_lt e xs h m t n, h x)

pub archive-eq-ok :
    (env : Env) (namespace uid : String) (s t : Store) {u : Unit {0}}
    → archive_workflow_execution env namespace uid s ≡ (ok u, t)
    → (t.templates ≡ s.templates)
      × (t.versions ≡ s.versions)
      × (t.executions ≡ map (archive_execution_row namespace uid) s.executions)
unfolding archive_workflow_execution mark_execution drop_workflow
archive-eq-ok env namespace uid s t e = ground arith

-- what the archiving of executions leaves, of the table and of the number of rows that pass a test
abbrev Shrinks : (ExecutionRow → Bool) → Store → Store → Type 0
Shrinks p s t =
    (t.templates ≡ s.templates)
    × (t.versions ≡ s.versions)
    × (count p t.executions ≤ count p s.executions)

module _ (env : Env) (namespace : String) (p : ExecutionRow → Bool) (h : Respects namespace p) where
  pub each-Shrinks :
      (xs : List ExecutionRow) (s t : Store) {u : Unit {0}}
      → State.each (λ x. archive_workflow_execution env namespace x.uid) xs s ≡ (ok u, t)
      → Shrinks p s t
  unfolding State.each
  each-Shrinks [] s t e =
      let same = State.pure-eq-ok tt e in (ground arith, ground arith, ground arith)
  each-Shrinks (x ∷ xs) s t e =
      State.after (archive_workflow_execution env namespace x.uid) _ e λ u s₁ e₁ k₁.
        let first = archive-eq-ok env namespace x.uid s s₁ e₁ in
        let rest = each-Shrinks xs s₁ t k₁ in
        (
          ground arith,
          ground arith,
          ground (arith, count-archive_le namespace p x.uid s.executions h),
        )

  pub each_lt :
      (x : ExecutionRow) (xs : List ExecutionRow) (s t : Store) {u : Unit {0}}
      → Has x s.executions
      → p x ≡ true
      → x.namespace ≡ namespace
      → State.each (λ y. archive_workflow_execution env namespace y.uid) (x ∷ xs) s ≡ (ok u, t)
      → count p t.executions < count p s.executions
  unfolding State.each
  each_lt x xs s t m q n e =
      State.after (archive_workflow_execution env namespace x.uid) _ e λ u s₁ e₁ k₁.
        let first = archive-eq-ok env namespace x.uid s s₁ e₁ in
        let rest = each-Shrinks xs s₁ t k₁ in
        ground (arith, count-archive_lt namespace p x s.executions h m q n)

-- ===== src/Execution/Roots.antt =====
-- The tasks of the entrypoint after the injection of the status call.
use onepanel.Base.{
  String, ◌==◌, ◌≡◌, ◌⊎◌, false, refl, Option, none, some, List, [], ◌∷◌, ◌++◌, map, arith, eq_iff,
  Bool-cases, Option-cases, inl, inr, ok, err, panic, >>=-eq-ok, if◌then◌else◌,
}
use onepanel.Execution.Workflow.{DagTask, Template, Workflow}
use onepanel.Execution.Inject.{
  own_task, change_first, wait_for, add_status_task, status_caller,
  inject_workflow_execution_status_caller,
}

-- the first template of a name
unfoldable pub find_first : String → List Template → Option Template
find_first name [] = none
find_first name (t ∷ ts) = if t.name == name then some t else find_first name ts

-- A task whose dependencies were nil depends on the task of the name alone, and is the same otherwise; any
-- other task has not changed.
abbrev pub Waits : String → DagTask → DagTask → Type 0
Waits name t u =
    ((t.dependencies ≡ none) × (u ≡ record t { dependencies = some (name ∷ []) }))
    ⊎ ((ds : List String) × (t.dependencies ≡ some ds) × (u ≡ t))

-- the tasks one by one, in their order
abbrev pub AllWait : String → List DagTask → List DagTask → Type 0
AllWait name [] [] = Unit
AllWait name (t ∷ ts) (u ∷ us) = Waits name t u × AllWait name ts us
AllWait name _ _ = ⊥

wait_for-Waits : (name : String) (t : DagTask) → Waits name t (wait_for name t)
unfolding wait_for
wait_for-Waits name t = elim (Option-cases t.dependencies) [
  | inl n ↦ inl (n, ground arith)
  | inr (ds, s) ↦ inr (ds, s, ground arith)
]

map-AllWait : (name : String) (ts : List DagTask) → AllWait name ts (map (wait_for name) ts)
map-AllWait name [] = tt
map-AllWait name (t ∷ ts) = (wait_for-Waits name t, map-AllWait name ts)

-- The entrypoint after the injection: the old tasks, of which those with nil dependencies wait for the call,
-- and the call itself, which depends on nothing. Of every other name the first template is the same.
pub record IsRooted (caller : Template) (entrypoint : String) (old : List DagTask)
    (ts us : List Template) : Type 0 where
  pub root : Template
  pub waiting : List DagTask
  pub tasks : root.dag ≡ some (waiting ++ own_task caller ∷ [])
  pub waits : AllWait caller.name old waiting
  pub lookups :
      (name : String)
      → find_first name us ≡ (if name == entrypoint then some root else find_first name ts)

change_first-found :
    (name : String) (f : Template → Option Template) (u : Template) (ts us : List Template)
    → ((t v : Template) → f t ≡ some v → v.name ≡ t.name)
    → change_first name f ts ≡ ok us
    → (t : Template) → find_first name ts ≡ some t
    → f t ≡ some u
    → find_first name us ≡ some u
unfolding change_first find_first
change_first-found name f u [] us k e t m g = absurd (cc)
change_first-found name f u (x ∷ xs) us k e t m g = elim (Bool-cases (x.name == name)) [
  | inl b ↦
      let same : x ≡ t = ground arith in
      let changed : f x ≡ some u = rw same g in
      let named = k x u changed in
      let result : us ≡ u ∷ xs = ground arith in
      rw result (ground (arith, eq_iff x.name name, eq_iff u.name name))
  | inr b ↦
      let (vs, p, q) = >>=-eq-ok (change_first name f xs) (λ us. ok (x ∷ us)) (rw b at e) in
      let result : us ≡ x ∷ vs = ground arith in
      rw result (rw b (change_first-found name f u xs vs k p t (rw b at m) g))
]

change_first-other :
    (name other : String) (f : Template → Option Template) (ts us : List Template)
    → ((t v : Template) → f t ≡ some v → v.name ≡ t.name)
    → change_first name f ts ≡ ok us
    → (other == name) ≡ false
    → find_first other us ≡ find_first other ts
unfolding change_first find_first
change_first-other name other f [] us k e d = ground arith
change_first-other name other f (x ∷ xs) us k e d = elim (Bool-cases (x.name == name)) [
  | inl b ↦ elim (Option-cases (f x)) [
    | inl n ↦ absurd (ground arith)
    | inr (u, s) ↦
        let named = k x u s in
        let result : us ≡ u ∷ xs = ground arith in
        rw result (
          ground (
            arith,
            eq_iff x.name name,
            eq_iff u.name other,
            eq_iff x.name other,
            eq_iff other name,
          ))
  ]
  | inr b ↦
      let (vs, p, q) = >>=-eq-ok (change_first name f xs) (λ us. ok (x ∷ us)) (rw b at e) in
      let result : us ≡ x ∷ vs = ground arith in
      rw result (rw (change_first-other name other f xs vs k p d) refl)
]

change_first-lookups :
    (name : String) (f : Template → Option Template) (u t : Template) (ts us : List Template)
    → ((t v : Template) → f t ≡ some v → v.name ≡ t.name)
    → change_first name f ts ≡ ok us
    → find_first name ts ≡ some t
    → f t ≡ some u
    → (other : String)
    → find_first other us ≡ (if other == name then some u else find_first other ts)
change_first-lookups name f u t ts us k e m g other = elim (Bool-cases (other == name)) [
  | inl b ↦ rw b (rw ((eq_iff other name).0 b) (change_first-found name f u ts us k e t m g))
  | inr b ↦ rw b (change_first-other name other f ts us k e b)
]

change_first-panics :
    (name : String) (f : Template → Option Template) (ts : List Template) (t : Template)
    → find_first name ts ≡ some t
    → f t ≡ none
    → change_first name f ts ≡ err panic
unfolding change_first find_first
change_first-panics name f [] t m g = absurd (cc)
change_first-panics name f (x ∷ xs) t m g = elim (Bool-cases (x.name == name)) [
  | inl b ↦
      let same : x ≡ t = ground arith in
      let nothing : f x ≡ none = rw same g in rw (b, nothing, change_first) refl
  | inr b ↦ rw (b, change_first, change_first-panics name f xs t (rw b at m) g) refl
]

change_first-ok :
    (name : String) (f : Template → Option Template) (u : Template) (ts : List Template)
    (t : Template)
    → find_first name ts ≡ some t
    → f t ≡ some u
    → (us : List Template) × (change_first name f ts ≡ ok us)
unfolding change_first find_first
change_first-ok name f u [] t m g = absurd (cc)
change_first-ok name f u (x ∷ xs) t m g = elim (Bool-cases (x.name == name)) [
  | inl b ↦
      let same : x ≡ t = ground arith in
      let changed : f x ≡ some u = rw same g in (u ∷ xs, rw (b, changed, change_first) refl)
  | inr b ↦
      let (us, p) = change_first-ok name f u xs t (rw b at m) g in
      (x ∷ us, rw (b, change_first, p) refl)
]

add_status_task-name : (caller t v : Template) → add_status_task caller t ≡ some v → v.name ≡ t.name
unfolding add_status_task
add_status_task-name caller t v e = ground arith

add_status_task-some :
    (caller t : Template) (old : List DagTask)
    → t.dag ≡ some old
    → add_status_task caller t
      ≡ some (record t { dag = some (map (wait_for caller.name) old ++ own_task caller ∷ []) })
unfolding add_status_task
add_status_task-some caller t old e = ground arith

-- When the first template of the entrypoint's name, the status call counted as the last template, has a
-- DAG: the injection of the status call returns. In the entrypoint each task whose dependencies were nil
-- depends on the call alone, every other task is as it was, and the call, which depends on nothing, is last.
-- The lookup of any other name among the templates, the call's own included, gives what it gave with the
-- call added. The entrypoint stays the same.
pub inject_workflow_execution_status_caller-IsRooted :
    (wf : Workflow) (phase : String) (t : Template) (old : List DagTask)
    → find_first wf.entrypoint (wf.templates ++ status_caller phase ∷ []) ≡ some t
    → t.dag ≡ some old
    → (wf' : Workflow) × (inject_workflow_execution_status_caller wf phase ≡ ok wf')
      × (wf'.entrypoint ≡ wf.entrypoint)
      × IsRooted
          (status_caller phase)
          wf.entrypoint
          old
          (wf.templates ++ status_caller phase ∷ [])
          wf'.templates
unfolding inject_workflow_execution_status_caller
inject_workflow_execution_status_caller-IsRooted wf phase t old m d =
    let caller = status_caller phase in
    let ts = wf.templates ++ caller ∷ [] in
    let u = record t { dag = some (map (wait_for caller.name) old ++ own_task caller ∷ []) } in
    let changed = add_status_task-some caller t old d in
    let (us, p) = change_first-ok wf.entrypoint (add_status_task caller) u ts t m changed in
    (
      record wf { templates = us },
      rw p refl,
      refl,
      record {
        root = u;
        waiting = map (wait_for caller.name) old;
        tasks = refl;
        waits = map-AllWait caller.name old;
        lookups =
            change_first-lookups wf.entrypoint (add_status_task caller) u t ts us
              (add_status_task-name caller) p m changed;
      },
    )

add_status_task-none : (caller t : Template) → t.dag ≡ none → add_status_task caller t ≡ none
unfolding add_status_task
add_status_task-none caller t e = ground arith

-- When the first template of the entrypoint's name has no DAG, the injection of the status call panics.
pub inject_workflow_execution_status_caller_panics :
    (wf : Workflow) (phase : String) (t : Template)
    → find_first wf.entrypoint (wf.templates ++ status_caller phase ∷ []) ≡ some t
    → t.dag ≡ none
    → inject_workflow_execution_status_caller wf phase ≡ err panic
unfolding inject_workflow_execution_status_caller
inject_workflow_execution_status_caller_panics wf phase t m d =
    rw
      (change_first-panics wf.entrypoint (add_status_task (status_caller phase))
        (wf.templates ++ status_caller phase ∷ []) t m
        (add_status_task-none (status_caller phase) t d))
      refl

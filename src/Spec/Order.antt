-- ===== src/Spec/Order.antt =====
-- The order of the tasks of a workspace's workflow, and the phase that each action ends in.
use onepanel.Base.{
  String, Bool, true, false, ◌&&◌, ◌||◌, ◌==◌, ◌≡◌, ◌∙◌, subst, refl, Option, none, some, List, [],
  ◌∷◌, ◌++◌, map, any, is_nil, arith, All, if◌then◌else◌, Result, ok, >>=-eq-ok, eq_iff,
}
use onepanel.Spec.Defs.{WorkspaceSpec, claim_items, all_mounts}
use onepanel.Spec.Tasks.{
  Plan, PostExecution, post_templates, Task, workspace_tasks, post_execution, template_names,
  unmarshal_workflow_template,
}

abbrev is_one_of : String → List String → Bool
is_one_of n ns = any (λ m. m == n) ns

-- one of the comparisons of a condition
unfoldable pub matches : String → String → Bool
matches action a = action == a

-- the condition of a task holds for an action
unfoldable pub runs : String → Task → Bool
runs action t = is_nil t.actions || any (matches action) t.actions

-- every dependency is a task before it, its template is one of those given, and no task before it has
-- its name
abbrev pub AreOrdered : List String → List String → List Task → Type 0
AreOrdered templates seen [] = Unit
AreOrdered templates seen (t ∷ ts) =
    All (λ d. is_one_of d seen ≡ true) t.dependencies
    × (is_one_of t.template templates ≡ true)
    × (is_one_of t.name seen ≡ false)
    × AreOrdered templates (t.name ∷ seen) ts

-- the phases that the tasks report under an action
unfoldable pub phases : String → List Task → List String
unfolding runs
phases action [] = []
phases action (t ∷ ts) =
    let rest = phases action ts in
    if t.template == "sys-update-status" && runs action t
    then map (λ a. a.1) t.arguments ++ rest
    else rest

-- the phase that an action should end in
unfoldable pub final_phase : String → List String
final_phase action =
    if matches action "create" || matches action "update"
    then "Running" ∷ []
    else if matches action "pause"
    then "Paused" ∷ []
    else if matches action "delete"
    then "Terminated" ∷ []
    else []

-- a task of the name runs under the action
unfoldable pub name_runs : String → String → List Task → Bool
unfolding runs
name_runs action n [] = false
name_runs action n (t ∷ ts) = (t.name == n && runs action t) || name_runs action n ts

-- the dependencies of the tasks that run under an action run under it
abbrev pub AreClosed : String → List Task → List Task → Type 0
AreClosed action all [] = Unit
AreClosed action all (t ∷ ts) =
    (runs action t ≡ true → All (λ d. name_runs action d all ≡ true) t.dependencies)
    × AreClosed action all ts

-- what the tasks of a workspace owe to an action
pub record IsPlan (templates : List String) (action : String) (ts : List Task) : Type 0 where
  pub ordered : AreOrdered templates [] ts
  pub phase : phases action ts ≡ final_phase action

tests-phases :
    (action : String) (items : List String) (ts : List Task)
    → ((matches action "create" || matches action "update")
        && (matches action "pause" || matches action "delete"))
      ≡ false
    → (matches action "pause" && matches action "delete") ≡ false
    → phases action ts ≡ []
    → phases action (workspace_tasks items ++ ts) ≡ final_phase action
unfolding workspace_tasks phases final_phase runs
tests-phases action items ts h k e = ground arith

apart : (action a b : String) → (a == b) ≡ false → (matches action a && matches action b) ≡ false
unfolding matches
apart action a b h = ground (arith, eq_iff action a, eq_iff action b, eq_iff a b)

workspace_tasks-phases :
    (action : String) (items : List String) (ts : List Task)
    → phases action ts ≡ []
    → phases action (workspace_tasks items ++ ts) ≡ final_phase action
workspace_tasks-phases action items ts e =
    tests-phases action items ts
      (ground (
        arith,
        apart action "create" "pause" refl,
        apart action "create" "delete" refl,
        apart action "update" "pause" refl,
        apart action "update" "delete" refl,
      ))
      (apart action "pause" "delete" refl) e

-- Of the tasks of the workspace itself, those that run under an action have dependencies that run.
pub workspace_tasks-AreClosed :
    (action : String) (items : List String)
    → AreClosed action (workspace_tasks items) (workspace_tasks items)
unfolding workspace_tasks name_runs runs
workspace_tasks-AreClosed action items = ground arith

-- the names of the tasks of the workspace itself
abbrev names_after : List String → List Task → List String
names_after seen [] = seen
names_after seen (t ∷ ts) = names_after (t.name ∷ seen) ts

abbrev pub task_names : List String → List String
task_names items = names_after [] (workspace_tasks items)

-- the entrypoint of the workflow after the execution has a name of its own
abbrev pub IsFresh : Option PostExecution → Type 0
IsFresh none = Unit
IsFresh (some p) =
    (is_one_of p.entrypoint (task_names []) ≡ false)
    × (is_one_of p.entrypoint template_names ≡ false)

-- the workflow after the execution has a template of the name of its entrypoint
abbrev pub HasEntrypoint : Option PostExecution → Type 0
HasEntrypoint none = Unit
HasEntrypoint (some p) = is_one_of p.entrypoint p.templates ≡ true

AreOrdered-append :
    (T T' : List String) (seen : List String) (ts us : List Task)
    → ((m : String) → is_one_of m T ≡ true → is_one_of m T' ≡ true)
    → AreOrdered T seen ts
    → AreOrdered T' (names_after seen ts) us
    → AreOrdered T' seen (ts ++ us)
AreOrdered-append T T' seen [] us w h k = k
AreOrdered-append T T' seen (t ∷ ts) us w h k =
    (h.0, w t.template h.1, h.2, AreOrdered-append T T' (t.name ∷ seen) ts us w h.3 k)

is_one_of-append :
    (m : String) (xs ys : List String) → is_one_of m (xs ++ ys) ≡ (is_one_of m xs || is_one_of m ys)
is_one_of-append m [] ys = refl
is_one_of-append m (x ∷ xs) ys = ground (arith, is_one_of-append m xs ys)

workspace_tasks-AreOrdered :
    (items : List String) → AreOrdered template_names [] (workspace_tasks items)
unfolding workspace_tasks
workspace_tasks-AreOrdered items = ground arith

post_execution-AreOrdered :
    (items : List String) (p : PostExecution)
    → IsFresh (some p)
    → HasEntrypoint (some p)
    → AreOrdered (template_names ++ p.templates) (task_names items) (post_execution (some p))
unfolding workspace_tasks post_execution
post_execution-AreOrdered items p h k = (
  (refl, (refl, (refl, tt))),
  is_one_of-append p.entrypoint template_names p.templates ∙ ground arith,
  h.0,
  tt,
)

tasks-AreOrdered :
    (items : List String) (after : Option PostExecution)
    → IsFresh after
    → HasEntrypoint after
    → AreOrdered
        (template_names ++ post_templates after)
        []
        (workspace_tasks items ++ post_execution after)
tasks-AreOrdered items none h k =
    AreOrdered-append template_names (template_names ++ []) [] (workspace_tasks items)
      (post_execution none) (λ m e. is_one_of-append m template_names [] ∙ ground arith)
      (workspace_tasks-AreOrdered items) (unfold post_execution in tt)
tasks-AreOrdered items (some p) h k =
    AreOrdered-append template_names (template_names ++ p.templates) [] (workspace_tasks items)
      (post_execution (some p))
      (λ m e. is_one_of-append m template_names p.templates ∙ ground arith)
      (workspace_tasks-AreOrdered items) (post_execution-AreOrdered items p h k)

post_execution-phases :
    (action : String) (after : Option PostExecution)
    → IsFresh after
    → phases action (post_execution after) ≡ []
unfolding phases post_execution
post_execution-phases action none h = refl
post_execution-phases action (some p) h = silent h.1
  where
    silent :
        is_one_of p.entrypoint template_names ≡ false → phases action (post_execution (some p)) ≡ []
    silent e = ground arith

-- When the tasks of a workspace's workflow are generated, and the entrypoint of a workflow after the
-- execution, if there is one, is the name of one of that workflow's templates, but neither of a task nor of a
-- template of the workspace: each task comes after its dependencies, under a new name and with a template
-- that is among those generated; and under each action the tasks that run report exactly its phase:
-- Running for `create` and `update`, Paused for `pause`, Terminated for `delete`, and none for another.
pub unmarshal_workflow_template-IsPlan :
    (parse_item : String → Result String) (spec : WorkspaceSpec) (after : Option PostExecution)
    (action : String) (plan : Plan)
    → unmarshal_workflow_template parse_item spec after ≡ ok plan
    → IsFresh after
    → HasEntrypoint after
    → IsPlan plan.templates action plan.tasks
unfolding unmarshal_workflow_template
unmarshal_workflow_template-IsPlan parse_item spec after action plan e h k =
    let (items, p, q) = >>=-eq-ok (claim_items parse_item [] (all_mounts spec.containers)) _ e in
    subst (λ (x : Plan). IsPlan x.templates action x.tasks) (result q)
      (record {
        ordered = tasks-AreOrdered items after h k;
        phase =
            workspace_tasks-phases action items (post_execution after)
              (post_execution-phases action after h);
      })
  where
    result : {x : Plan} → ok x ≡ ok plan → x ≡ plan
    result q = cc

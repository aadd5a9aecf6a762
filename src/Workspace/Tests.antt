-- ===== src/Workspace/Tests.antt =====
-- The operations on workspaces at concrete tables.
use Prim.Native.String.{len}
use onepanel.Workspace.Slug.{generate_workspace_uid-Lacks}
use onepanel.Base.{
  split, ◌⊕◌, Lacks, ◌≤◌, String, Bool, true, false, ◌≡◌, refl, none, some, [], ◌∷◌, Map, plain,
  panic, Result, ok, err, arith, lookup,
}
use onepanel.Params.{named}
use onepanel.Workspace.Phase.{
  Row, status_of, updating, running, terminated, is_terminated, failed, failed_to_launch,
}
use onepanel.Workspace.World.{World, Env, WorkspaceTemplate, WorkflowTemplate}
use onepanel.Workspace.Table.{select_live, is_live, update_rows}
use onepanel.Workspace.Update.{host_of, get_workspace, workspace_not_found, update_workspace}
use onepanel.Workspace.Create.{NewWorkspace, create_workspace, new_row, prepare, launch}
use onepanel.Workspace.Uid.{generate_workspace_uid}
use onepanel.Workspace.Status.{update_workspace_status}
use onepanel.Workspace.Effect.{move_row}
use onepanel.Workspace.Machine.{create, report, serve}
use onepanel.Workspace.Rows.{Extends, Keeps}
use onepanel.Workspace.Invariant.{WellFormed, IsFresh}
use onepanel.Workspace.Run.{Reach, here, next, empty, Reach-empty-WellFormed, Reach-Extends}
use onepanel.Workspace.Failure.{IsHealthy, launch_failure, missing_failure}
use onepanel.Workspace.Outcome.{update_workspace_refused}
use onepanel.Workspace.Submit.{Submits, update_workspace-Submits}
use onepanel.Workspace.Created.{Creates, create_workspace-Creates}

abbrev config : Map String
config = ("ONEPANEL_DOMAIN", "example.com") ∷ []

abbrev workflow_template : WorkflowTemplate
workflow_template = record {
  arguments = named "x" (some "1") ∷ [];
  templates = record { name = "stateful-set-resource"; manifest = "m" } ∷ [];
}

abbrev workspace_template : WorkspaceTemplate
workspace_template = record {
  id = 3;
  version = 5;
  workflow_template = some (record { uid = "t"; version = 5 });
}

-- no call fails
abbrev env : Env
env = record {
  now = 10;
  select_error = none;
  exec_error = none;
  config = ok config;
  inject_error = none;
  template_uid = λ _. "t";
  workspace_template = λ _ _ _. ok (some workspace_template);
  workflow_template = λ _ _ _. ok workflow_template;
  runtime_parameters = λ _. ok [];
  add_runtime_fields = λ m _ _ _. ok m;
  execution_error = none;
  validate = λ _. ok true;
  new_id = 7;
}

abbrev request : NewWorkspace
request = record {
  name = "My Box";
  parameters = named "sys-name" (some "My Box") ∷ [];
  template_uid = "t";
  template_version = 5;
  labels = [];
  capture_node = false;
}

abbrev allow : String → Result Bool
allow _ = ok true

abbrev deny : String → Result Bool
deny _ = err (plain "denied")

abbrev launched : World
launched = (serve allow env "ns" (create request) empty).1

abbrev row : Row
row = new_row env "ns" "box" request

abbrev one : World
one = record { rows = row ∷ []; executions = [] }

one-WellFormed : WellFormed one.rows
one-WellFormed = record {
  unique_ids = (tt, tt);
  one_live = λ n u. unfold onepanel.Workspace.Table.rows_affected in ground arith;
  unpaused = (refl, tt);
}

healthy : IsHealthy env
healthy = record { select = refl; exec = refl; config = config; configured = refl; inject = refl }

-- tests
created_uid :
    (create_workspace env "ns" request empty).0
    ≡ ok (record (new_row env "ns" "my-box" request) { template_id = 3; template_version = 5 })
unfolding create_workspace generate_workspace_uid get_workspace prepare launch lookup
created_uid = refl

reach : Reach empty launched
reach = next allow env "ns" (create request) here tt tt

Reach-empty-WellFormed_example : WellFormed launched.rows
Reach-empty-WellFormed_example = Reach-empty-WellFormed reach

-- a terminated workspace of the same uid before the live one
abbrev gone : Row
gone = record row { id = 3; status = record (status_of terminated) { terminated_at = some 4 } }

abbrev two : World
two = record one { rows = gone ∷ row ∷ [] }

two-WellFormed : WellFormed two.rows
two-WellFormed = record {
  unique_ids = (((λ e. omega (arith, e)), tt), (tt, tt));
  one_live =
      λ n u. unfold onepanel.Workspace.Table.rows_affected is_live is_terminated in ground arith;
  unpaused = (tt, (refl, tt));
}

abbrev later : Env
later = record env { now = 20; new_id = 8 }

-- the report of a phase, and a creation
abbrev moved : World
moved =
    (serve allow later "ns" (create request)
      (serve allow later "ns" (report "box" running) two).1).1

later_requests : Reach two moved
later_requests =
    next allow later "ns" (create request)
      (next allow later "ns" (report "box" running) here (λ e. cc) fresh) tt fresh_after
  where
    fresh : IsFresh 8 two.rows
    fresh = ((λ e. omega (arith, e)), ((λ e. omega (arith, e)), tt))

    fresh_after : IsFresh 8 (serve allow later "ns" (report "box" running) two).1.rows
    fresh_after =
        unfold serve update_workspace_status onepanel.Workspace.Status.write_status in fresh

Reach-Extends_example : Extends Keeps (gone ∷ row ∷ []) (
    gone
    ∷ record row {
      status = record (status_of running) { started_at = some 10 };
      modified_at = some 20;
    }
    ∷ record (new_row later "ns" "my-box" request) { template_id = 3; template_version = 5 }
    ∷ [])
unfolding serve update_workspace_status create_workspace generate_workspace_uid get_workspace
    prepare launch lookup onepanel.Workspace.Status.write_status
Reach-Extends_example = Reach-Extends two-WellFormed later_requests

update_workspace-Submits_example :
    Submits env "ns" "box" "update" "apply" updating [] one
      (update_workspace env "ns" "box" "update" "apply" (status_of updating) [] one).1
update_workspace-Submits_example =
    update_workspace-Submits env "ns" "box" "update" "apply" updating [] one
      (unfold update_workspace lookup in refl)

update_workspace_refused_example :
    (update_workspace env "ns" "none" "update" "apply" (status_of updating) [] one).1.rows
    ≡ row ∷ []
update_workspace_refused_example =
    update_workspace_refused env "ns" "none" "update" "apply" (status_of updating) [] one
      workspace_not_found (unfold update_workspace in refl)

create_workspace-Creates_example :
    Creates env "ns" request
      (record (new_row env "ns" "my-box" request) { template_id = 3; template_version = 5 })
      empty
      (create_workspace env "ns" request empty).1
create_workspace-Creates_example = create_workspace-Creates env "ns" request _ empty created_uid

launch_failure_example : update_workspace_status env "ns" "box" (status_of failed) one ≡ (
  ok tt,
  record one {
    rows = update_rows (is_live "ns" "box") (move_row failed_to_launch 10 none) one.rows;
  },
)
launch_failure_example =
    launch_failure env "ns" "box" one failed row healthy one-WellFormed tt
      (unfold select_live in refl) refl

missing_failure_example :
    update_workspace_status env "ns" "none" (status_of failed) one ≡ (err panic, one)
missing_failure_example =
    missing_failure env "ns" "none" one failed healthy tt (unfold select_live in refl)

generate_workspace_uid-Lacks_example :
    (len "my-box" ≤ 30)
    × Lacks "." "my-box"
    × (split "." (host_of "my-box" "ns" "example.com")
        ≡ ("my-box" ⊕ "--" ⊕ "ns") ∷ split "." "example.com")
generate_workspace_uid-Lacks_example =
    generate_workspace_uid-Lacks "My Box" "my-box" "ns" "example.com"
      (unfold generate_workspace_uid in refl) (refl, (refl, tt))

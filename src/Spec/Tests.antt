-- ===== src/Spec/Tests.antt =====
-- The workflow of a workspace at concrete values.
use onepanel.Base.{
  Option, String, ◌≡◌, refl, none, some, List, [], ◌∷◌, Map, Result, ok, All, lookup, true, ◌++◌,
}
use onepanel.Params.{named, Parameter, ParameterOption}
use onepanel.Spec.Defs.{
  WorkspaceSpec, hidden, system_parameters, generate_arguments, generate_runtime_parameters,
  create_stateful_set, volume_parameters, is_in, all_mounts, storage_is_set, claim_items, size_name,
}
use onepanel.Spec.Tasks.{
  PostExecution, Plan, workspace_tasks, post_execution, template_names, unmarshal_workflow_template,
}
use onepanel.Spec.Volumes.{IsMounted, IsSized, create_stateful_set-IsSized}
use onepanel.Spec.Order.{IsPlan, unmarshal_workflow_template-IsPlan}

abbrev spec : WorkspaceSpec
spec = record {
  arguments = none;
  containers =
      record {
        name = "editor";
        mounts =
            record { name = "data"; mount_path = "/data" }
            ∷ record { name = "home"; mount_path = "/home" }
            ∷ [];
      }
      ∷ [];
  claim_templates =
      record { name = "data"; storage_class = none; access_modes = []; requests = none }
      ∷ record {
        name = "cache";
        storage_class = some "fast";
        access_modes = [];
        requests = some (("storage", "1Gi") ∷ []);
      }
      ∷ [];
}

abbrev config : Map String
config = ("ONEPANEL_DOMAIN", "example.com") ∷ ("applicationNodePoolLabel", "pool") ∷ []

abbrev options : Result (List ParameterOption)
options = ok (record { name = "Small"; value = "s" } ∷ [])

abbrev runtime : List Parameter
runtime =
    hidden "sys-host" (some "example.com")
    ∷ hidden "sys-node-pool-label" (some "pool")
    ∷ record (named "sys-node-pool" (some "s")) {
      type = "select.nodepool";
      options = some (record { name = "Small"; value = "s" } ∷ []);
      display_name = some "Node pool";
      hint = some "Name of node pool or group";
      required = true;
    }
    ∷ []

abbrev disk : Parameter
disk = record (named "sys-home-volume-size" (some "20480")) {
  type = "input.number";
  display_name = some "Disk size for \"home\"";
  hint = some "Disk size in MB for volume mounted at `/home`";
  required = true;
}

abbrev generated : WorkspaceSpec
generated = record spec {
  arguments = some (
      ((system_parameters ++ runtime) ++ [])
      ++ record disk {
        name = "sys-data-volume-size";
        display_name = some "Disk size for \"data\"";
        hint = some "Disk size in MB for volume mounted at `/data`";
      }
        ∷ disk
        ∷ []);
}

mounted : All (IsMounted spec) spec.claim_templates
unfolding storage_is_set is_in all_mounts
mounted = (
  record { mounted = λ e. refl; user_volume = λ e. refl; unsized = λ e. refl },
  (record { mounted = λ e. absurd (cc); user_volume = λ e. refl; unsized = λ e. absurd (cc) }, tt),
)

create_stateful_set-IsSized_example :
    (ps : List Parameter) × (generated.arguments ≡ some ps)
    × All (IsSized ps) (create_stateful_set generated).0
create_stateful_set-IsSized_example =
    create_stateful_set-IsSized spec generated config options
      (unfold generate_arguments generate_runtime_parameters lookup volume_parameters storage_is_set
          all_mounts is_in size_name in
        refl)
      mounted

abbrev after : Option PostExecution
after = some (record { entrypoint = "notify"; templates = "mail" ∷ "notify" ∷ [] })

abbrev plan : Plan
plan = record {
  tasks = workspace_tasks ("\"data\"" ∷ "\"home\"" ∷ []) ++ post_execution after;
  templates = template_names ++ "mail" ∷ "notify" ∷ [];
}

unmarshal_workflow_template-IsPlan_example : IsPlan plan.templates "delete" plan.tasks
unfolding workspace_tasks
unmarshal_workflow_template-IsPlan_example =
    unmarshal_workflow_template-IsPlan (λ i. ok i) spec after "delete" plan
      (unfold unmarshal_workflow_template claim_items all_mounts is_in in refl) (refl, refl) refl

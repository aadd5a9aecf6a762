-- ===== src/Spec/Defs.antt =====
-- The arguments, the volume claims and the items of the workflow that pkg/workspace_template.go
-- generates from a workspace's specification.
use onepanel.Base.{
  String, Bool, true, false, ◌||◌, ◌==◌, ◌⊕◌, Option, none, some, List, [], ◌∷◌, ◌++◌, map, Map,
  lookup, plain, Result, ok, err, ◌>>=◌, if◌then◌else◌,
}
use onepanel.Params.{Parameter, ParameterOption, named}

pub record Mount : Type 0 where
  pub name : String
  pub mount_path : String

pub record Container : Type 0 where
  pub name : String
  pub mounts : List Mount

-- a PersistentVolumeClaim of the specification; a nil map of requests is `none`
pub record ClaimTemplate : Type 0 where
  pub name : String
  pub storage_class : Option String
  pub access_modes : List String
  pub requests : Option (Map String)

-- the fields of `WorkspaceSpec` that are read or written here
pub record WorkspaceSpec : Type 0 where
  pub arguments : Option (List Parameter)
  pub containers : List Container
  pub claim_templates : List ClaimTemplate

abbrev pub hidden : String → Option String → Parameter
hidden n v = record (named n v) { type = "input.hidden" }

-- generateRuntimeParameters, of the configuration and the options of the node pools
unfoldable pub generate_runtime_parameters :
    Map String → Result (List ParameterOption) → Result (List Parameter)
unfolding lookup
generate_runtime_parameters config pool_options = pool_options >>= λ options. elim options [
  | [] ↦ err (plain "no node pool options in config")
  | o ∷ os ↦ ok (
      hidden "sys-host" (lookup "ONEPANEL_DOMAIN" config)
      ∷ hidden "sys-node-pool-label" (lookup "applicationNodePoolLabel" config)
      ∷ record (named "sys-node-pool" (some o.value)) {
        type = "select.nodepool";
        options = some (o ∷ os);
        display_name = some "Node pool";
        hint = some "Name of node pool or group";
        required = true;
      }
      ∷ [])
]

-- the parameters of every workspace
abbrev pub system_parameters : List Parameter
system_parameters =
    record (named "sys-name" (some "name")) {
      type = "input.text";
      display_name = some "Workspace name";
      hint = some "Must be between 3-30 characters, contain only alphanumeric or `-` characters";
      required = true;
    }
    ∷ hidden "sys-resource-action" (some "apply")
    ∷ hidden "sys-workspace-action" (some "create")
    ∷ hidden "sys-uid" (some "uid")
    ∷ []

unfoldable pub size_name : String → String
size_name volume = ("sys-" ⊕ volume) ⊕ "-volume-size"

abbrev volume_parameter : Mount → Parameter
volume_parameter m = record (named (size_name m.name) (some "20480")) {
  type = "input.number";
  display_name = some (("Disk size for \"" ⊕ m.name) ⊕ "\"");
  hint = some (("Disk size in MB for volume mounted at `" ⊕ m.mount_path) ⊕ "`");
  required = true;
}

-- the keys of one of the maps from names to `true`
unfoldable pub is_in : String → List String → Bool
is_in name [] = false
is_in name (n ∷ ns) = n == name || is_in name ns

-- the mounts of all containers, in the order of the two loops
unfoldable pub all_mounts : List Container → List Mount
all_mounts [] = []
all_mounts (c ∷ cs) = c.mounts ++ all_mounts cs

-- `Requests != nil`
abbrev pub has_requests : ClaimTemplate → Bool
has_requests v = elim v.requests [ none ↦ false | some r ↦ true ]

-- volumeStorageQuantityIsSet
unfoldable pub storage_is_set : List ClaimTemplate → List String
storage_is_set [] = []
storage_is_set (v ∷ vs) =
    let rest = storage_is_set vs in if has_requests v then v.name ∷ rest else rest

abbrev pub system_volumes : List String
system_volumes = "sys-dshm" ∷ "sys-namespace-config" ∷ []

-- The loop over the mounts: a parameter for each volume that is not mapped and has no size.
unfoldable pub volume_parameters : List String → List String → List Mount → List Parameter
unfolding is_in size_name
volume_parameters mapped sized [] = []
volume_parameters mapped sized (m ∷ ms) =
    let skipped = volume_parameters mapped sized ms in
    let added = volume_parameters (m.name ∷ mapped) sized ms in
    if is_in m.name mapped || is_in m.name sized then skipped else volume_parameter m ∷ added

abbrev pub own_arguments : WorkspaceSpec → List Parameter
own_arguments spec = elim spec.arguments [ none ↦ [] | some ps ↦ ps ]

-- generateArguments
unfoldable pub generate_arguments :
    WorkspaceSpec → Map String → Result (List ParameterOption) → Result WorkspaceSpec
unfolding generate_runtime_parameters volume_parameters storage_is_set all_mounts
generate_arguments spec config pool_options =
    generate_runtime_parameters config pool_options >>= λ runtime. ok (record spec {
      arguments = some (
          ((system_parameters ++ runtime) ++ own_arguments spec)
          ++ volume_parameters system_volumes (storage_is_set spec.claim_templates)
              (all_mounts spec.containers));
    })

-- the size of a claim: the quantity of the specification, or the parameter of this name in MiB
pub data Storage : Type 0 where
  fixed : Option String → Storage
  dynamic : String → Storage

-- a claim of the stateful set
pub record Claim : Type 0 where
  pub name : String
  pub access_modes : List String
  pub storage_class : String
  pub storage : Storage

unfoldable pub claim_of : ClaimTemplate → Claim
unfolding size_name lookup
claim_of v = record {
  name = v.name;
  access_modes = v.access_modes;
  storage_class = elim v.storage_class [ none ↦ "onepanel" | some c ↦ c ];
  storage = elim v.requests [
    | none ↦ dynamic (size_name v.name)
    | some r ↦ fixed (lookup "storage" r)
  ];
}

abbrev mount_claim : Mount → Claim
mount_claim m = record {
  name = m.name;
  access_modes = "ReadWriteOnce" ∷ [];
  storage_class = "onepanel";
  storage = dynamic (size_name m.name);
}

-- the claims of the user, each name once, with the names that are mapped after the loop
unfoldable pub user_claims : List String → List ClaimTemplate → List Claim × List String
unfolding is_in claim_of
user_claims mapped [] = ([], mapped)
user_claims mapped (v ∷ vs) =
    let skipped = user_claims mapped vs in
    let added = user_claims (v.name ∷ mapped) vs in
    if is_in v.name mapped then skipped else (claim_of v ∷ added.0, added.1)

-- the claims of the mounts that are not mapped
unfoldable pub mount_claims : List String → List Mount → List Claim
unfolding is_in size_name
mount_claims mapped [] = []
mount_claims mapped (m ∷ ms) =
    let skipped = mount_claims mapped ms in
    let added = mount_claims (m.name ∷ mapped) ms in
    if is_in m.name mapped then skipped else mount_claim m ∷ added

-- the mount that every container gets after the loop over its own
abbrev pub shared_memory : Mount
shared_memory = record { name = "sys-dshm"; mount_path = "/dev/shm" }

unfoldable pub add_shared_memory : Container → Container
add_shared_memory c = record c { mounts = c.mounts ++ shared_memory ∷ [] }

-- createStatefulSetManifest: the volume claims, and the specification with its containers changed
unfoldable pub create_stateful_set : WorkspaceSpec → List Claim × WorkspaceSpec
unfolding user_claims mount_claims all_mounts add_shared_memory
create_stateful_set spec =
    let user = user_claims [] spec.claim_templates in
    (
      user.0 ++ mount_claims (system_volumes ++ user.1) (all_mounts spec.containers),
      record spec { containers = map add_shared_memory spec.containers },
    )

-- unmarshalWorkflowTemplate: the items of the task that deletes the claims, each name once
unfoldable pub claim_items :
    (String → Result String) → List String → List Mount → Result (List String)
unfolding is_in
claim_items parse_item mapped [] = ok []
claim_items parse_item mapped (m ∷ ms) =
    let skipped = claim_items parse_item mapped ms in
    let added = claim_items parse_item (m.name ∷ mapped) ms in
    if is_in m.name mapped
    then skipped
    else parse_item (("\"" ⊕ m.name) ⊕ "\"") >>= λ i. added >>= λ is. ok (i ∷ is)

-- ===== src/Execution/Variables.antt =====
-- What injectAutomatedFields of pkg/workflow_execution.go writes into every template, with the
-- environment variables of pkg/util/env/env.go.
use onepanel.Base.{
  String, Bool, true, false, not, ◌&&◌, ◌||◌, ◌==◌, Option, none, some, List, [], ◌∷◌, ◌++◌, map,
  any, Map, lookup, insert, Result, ok, err, panic, ◌>>=◌, nat_eq, split, contains, if◌then◌else◌,
}
use Prim.Native.Char.{code}
use onepanel.Params.{Parameter}
use onepanel.Config.{NodePoolOption, node_pool_option_by_value}
use onepanel.Execution.Workflow.{
  EnvVar, VolumeMount, Container, Sidecar, S3, Gcs, Artifact, Template, Workflow,
}

-- envVarValueInSidecars and hasEnvVarValue
unfoldable pub has_env_var_value : List EnvVar → String → String → Bool
has_env_var_value env name value = any (λ (e : EnvVar). e.name == name && e.value == value) env

unfoldable pub env_var_value_in_sidecars : List Sidecar → String → String → Bool
unfolding has_env_var_value
env_var_value_in_sidecars [] name value = false
env_var_value_in_sidecars (s ∷ ss) name value =
    has_env_var_value s.env name value || env_var_value_in_sidecars ss name value

-- PrependEnvVarToContainer: a variable of the container is kept
abbrev pub is_set : String → List EnvVar → Bool
is_set name env = any (λ (e : EnvVar). e.name == name) env

unfoldable pub prepend_env_var : String → String → List EnvVar → List EnvVar
prepend_env_var name value env =
    if is_set name env then env else record { name = name; value = value } ∷ env

-- a missing key of the configuration reads as the empty text
unfoldable pub config_value : Map String → String → String
unfolding lookup
config_value config key = elim (lookup key config) [ none ↦ "" | some v ↦ v ]

-- injectEnvironmentVariables
unfoldable pub inject_env : Map String → List EnvVar → List EnvVar
unfolding prepend_env_var config_value
inject_env config env = prepend_env_var "ONEPANEL_RESOURCE_UID" "{{workflow.name}}" (
    prepend_env_var "ONEPANEL_RESOURCE_NAMESPACE" "{{workflow.namespace}}" (
      prepend_env_var "ONEPANEL_PROVIDER" (config_value config "ONEPANEL_PROVIDER") (
        prepend_env_var "ONEPANEL_DOMAIN" (config_value config "ONEPANEL_DOMAIN") (
          prepend_env_var "ONEPANEL_FQDN" (config_value config "ONEPANEL_FQDN")
            (prepend_env_var "ONEPANEL_API_URL" (config_value config "ONEPANEL_API_URL") env)))))

unfoldable pub inject_environment_variables : Map String → Container → Container
unfolding inject_env
inject_environment_variables config c = record c {
  env_from = c.env_from ++ "onepanel-default-env" ∷ [];
  env = inject_env config c.env;
}

-- the repository of a namespace's configuration
pub record Repository : Type 0 where
  pub s3 : S3
  pub gcs : Option (String × String)  -- the bucket and the format of the key

-- injectArtifactRepositoryConfig: an S3 artifact with a key and no bucket
unfoldable pub inject_s3 : S3 → S3 → S3
inject_s3 config a =
    if not (a.key == "") && a.bucket == "" then record config { key = a.key } else a

unfoldable pub inject_gcs : Option (String × String) → Gcs → Gcs
inject_gcs none a = a
inject_gcs (some (bucket, key)) a = record {
  bucket = bucket;
  key = key;
  service_account = ("onepanel", "artifactRepositoryGCSServiceAccountKey");
}

unfoldable pub inject_artifact_repository_config : Repository → Artifact → Artifact
unfolding inject_s3 inject_gcs
inject_artifact_repository_config r a = record a {
  s3 = elim a.s3 [ none ↦ none | some s ↦ some (inject_s3 r.s3 s) ];
  gcs = elim a.gcs [ none ↦ none | some g ↦ some (inject_gcs r.gcs g) ];
  is_uncompressed = true;
}

-- the annotations that keep Istio out, or let it in for a sidecar that is reached by HTTP
unfoldable pub istio_annotations : Template → Map String
unfolding env_var_value_in_sidecars insert
istio_annotations t =
    if env_var_value_in_sidecars t.sidecars "ONEPANEL_INTERACTIVE_SIDECAR" "true"
    then insert "traffic.sidecar.istio.io/includeOutboundIPRanges" ""
        (insert "sidecar.istio.io/inject" "true" t.annotations)
    else insert "sidecar.istio.io/inject" "false" t.annotations

abbrev workflow_mounts : List VolumeMount
workflow_mounts =
    record { name = "sys-dshm"; mount_path = "/dev/shm" }
    ∷ record { name = "tmp"; mount_path = "/mnt/tmp" }
    ∷ []

abbrev metrics_artifact : Artifact
metrics_artifact = record {
  name = "sys-metrics";
  path = "/mnt/tmp/sys-metrics.json";
  optional = true;
  s3 = none;
  gcs = none;
  is_uncompressed = true;
}

abbrev runs_container : Template → Bool
runs_container t = elim t.container [
  | some c ↦ true
  | none ↦ elim t.script [ some c ↦ true | none ↦ false ]
]

-- strings.Replace(s, "}}", "", -1)
unfoldable pub drop_braces : String → String
drop_braces String.[] = String.[]
drop_braces (String.◌∷◌ c String.[]) = String.◌∷◌ c String.[]
drop_braces (String.◌∷◌ c (String.◌∷◌ d s)) =
    let rest = drop_braces (String.◌∷◌ d s) in
    let dropped = drop_braces s in
    if nat_eq (code c) b'}' && nat_eq (code d) b'}' then dropped else String.◌∷◌ c rest

-- parts[len(parts)-1]
unfoldable pub last_part : List String → String
last_part [] = ""
last_part (p ∷ []) = p
last_part (p ∷ q ∷ ps) = last_part (q ∷ ps)

-- the last parameter of the name, if any; a nil value is read through
unfoldable pub override_value : String → String → List Parameter → Result String
override_value name value [] = ok value
override_value name value (p ∷ ps) =
    let kept = override_value name value ps in
    if p.name == name
    then elim p.value [ none ↦ err panic | some v ↦ override_value name v ps ]
    else kept

-- the value of the first entry of the node selector, or of the workflow's parameter that it names
unfoldable pub node_pool_value : List Parameter → Map String → Result String
unfolding last_part drop_braces override_value split contains
node_pool_value parameters [] = ok ""
node_pool_value parameters ((key, value) ∷ rest) =
    if contains value "{{workflow."
    then override_value (last_part (split "." (drop_braces value))) value parameters
    else ok value

-- what the options of a template's node pool change: nothing, the ports, or also the resources
unfoldable pub host_ports :
    (String → Result (List NodePoolOption))
    → (String → Bool)
    → Map String
    → List Parameter
    → Template
    → Result (Option (Option String))
unfolding node_pool_value node_pool_option_by_value
host_ports unmarshal has_limits config parameters t = elim t.node_selector [
  | none ↦ ok none
  | some selector ↦ node_pool_value parameters selector >>= λ value.
      elim (node_pool_option_by_value unmarshal config value) [
        | err e ↦ ok none
        | ok none ↦ ok (some none)
        | ok (some n) ↦ ok (some (if has_limits n.resources then some n.resources else none))
      ]
]

-- injectHostPortAndResourcesToContainer, on one container
unfoldable pub inject_host_port_and_resources : Option (Option String) → Container → Container
inject_host_port_and_resources none c = c
inject_host_port_and_resources (some none) c = record c { ports = "node-capturer:80:80" ∷ [] }
inject_host_port_and_resources (some (some r)) c = record c {
  ports = "node-capturer:80:80" ∷ [];
  resources = r;
}

-- the fields of a template that runs a container or a script
unfoldable pub inject_running :
    Map String → Repository → String → Option (Option String) → Template → Template
unfolding inject_environment_variables inject_artifact_repository_config insert
    inject_host_port_and_resources
inject_running config repository uid ports t = record t {
  container = elim t.container [
    | none ↦ none
    | some c ↦ some (
        inject_environment_variables config (
          inject_host_port_and_resources ports (record c { mounts = c.mounts ++ workflow_mounts })))
  ];
  script = elim t.script [
    | none ↦ none
    | some c ↦ some (inject_environment_variables config (inject_host_port_and_resources ports c))
  ];
  outputs = map (inject_artifact_repository_config repository) (t.outputs ++ metrics_artifact ∷ []);
  inputs = map (inject_artifact_repository_config repository) t.inputs;
  labels =
      insert "onepanel.io/entity-uid" uid (insert "onepanel.io/entity-type" "Workflow" t.labels);
}

-- The options of the workflow, the configurations, and the decoder of the node pools.
pub record Options : Type 0 where
  pub unmarshal : String → Result (List NodePoolOption)
  pub has_limits : String → Bool
  pub config : Map String
  pub repository : Repository
  pub parameters : List Parameter
  pub template_uid : String
  pub pod_gc : Option String
  pub default_pod_gc : String  -- ARGO_POD_GC_STRATEGY, or its default

unfoldable pub inject_template : Options → Template → Result Template
unfolding istio_annotations host_ports inject_running
inject_template o t =
    let annotated = record t { annotations = istio_annotations t } in
    if runs_container t
    then (host_ports o.unmarshal o.has_limits o.config o.parameters t >>= λ ports.
        ok (inject_running o.config o.repository o.template_uid ports annotated))
    else ok annotated

unfoldable pub inject_templates : Options → List Template → Result (List Template)
unfolding inject_template
inject_templates o [] = ok []
inject_templates o (t ∷ ts) =
    let rest = inject_templates o ts in inject_template o t >>= λ u. rest >>= λ us. ok (u ∷ us)

-- injectAutomatedFields
unfoldable pub inject_automated_fields : Options → Workflow → Result Workflow
unfolding inject_templates
inject_automated_fields o wf = inject_templates o wf.templates >>= λ ts. ok (record wf {
  pod_gc = elim o.pod_gc [
    | some s ↦ some s
    | none ↦ elim wf.pod_gc [ none ↦ some o.default_pod_gc | some g ↦ some g ]
  ];
  volumes = wf.volumes ++ "sys-dshm" ∷ "tmp" ∷ "out" ∷ [];
  templates = ts;
})

-- ===== src/Execution/Workflow.antt =====
-- The parts of an Argo workflow that pkg/workflow_execution.go reads and writes.
use onepanel.Base.{ℕ, String, Bool, Option, none, List, [], Map}
use onepanel.Params.{Parameter}

-- a task of a DAG; nil dependencies are `none`
pub record DagTask : Type 0 where
  pub name : String
  pub template : String
  pub dependencies : Option (List String)

pub record EnvVar : Type 0 where
  pub name : String
  pub value : String

pub record VolumeMount : Type 0 where
  pub name : String
  pub mount_path : String

-- a container, or that of a script; resources and ports are kept as their texts
pub record Container : Type 0 where
  pub args : List String
  pub env : List EnvVar
  pub env_from : List String
  pub mounts : List VolumeMount
  pub ports : List String
  pub resources : String

pub record SidecarPort : Type 0 where
  pub name : String
  pub protocol : String
  pub container_port : ℕ

pub record Sidecar : Type 0 where
  pub name : String
  pub env : List EnvVar
  pub ports : List SidecarPort
  pub mirror_volume_mounts : Bool

-- the S3 part of an artifact; the secrets are a name and a key
pub record S3 : Type 0 where
  pub key : String
  pub bucket : String
  pub endpoint : String
  pub region : String
  pub insecure : Option Bool
  pub access_key : String × String
  pub secret_key : String × String

pub record Gcs : Type 0 where
  pub bucket : String
  pub key : String
  pub service_account : String × String

pub record Artifact : Type 0 where
  pub name : String
  pub path : String
  pub optional : Bool
  pub s3 : Option S3
  pub gcs : Option Gcs
  pub is_uncompressed : Bool  -- Archive is the `none` strategy

pub record Template : Type 0 where
  pub name : String
  pub dag : Option (List DagTask)
  pub container : Option Container
  pub script : Option Container
  pub sidecars : List Sidecar
  pub annotations : Map String
  pub labels : Map String
  pub inputs : List Artifact
  pub outputs : List Artifact
  pub node_selector : Option (Map String)
  pub output_parameters : List (String × String)
  pub resource : Option (String × String)  -- the action and the manifest

pub record Workflow : Type 0 where
  pub name : String
  pub generate_name : String
  pub labels : Map String
  pub entrypoint : String
  pub on_exit : String
  pub service_account : String
  pub pod_gc : Option String
  pub parameters : List Parameter
  pub volumes : List String
  pub templates : List Template

-- `&wfv1.Template{Name: name}`
abbrev pub empty_template : String → Template
empty_template n = record {
  name = n;
  dag = none;
  container = none;
  script = none;
  sidecars = [];
  annotations = [];
  labels = [];
  inputs = [];
  outputs = [];
  node_selector = none;
  output_parameters = [];
  resource = none;
}

abbrev pub empty_container : List String → Container
empty_container args = record {
  args = args;
  env = [];
  env_from = [];
  mounts = [];
  ports = [];
  resources = "";
}

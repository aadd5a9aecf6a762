-- ===== src/Execution/Services.antt =====
-- injectAccessForSidecars of pkg/workflow_execution.go: the service and the route of one sidecar, and the templates
-- that create and delete them.
use onepanel.Base.{
  ℕ, Map, ◌%◌, ◌^◌, ◌+◌, String, ◌⊕◌, some, List, [], ◌∷◌, map, user_error, invalid_argument,
  Result, ok, err,
}
use onepanel.Workspace.Uid.{generate_uid}
use onepanel.Workspace.Update.{message}
use onepanel.Execution.Workflow.{SidecarPort, Template, empty_template}

pub record ServicePort : Type 0 where
  pub name : String
  pub protocol : String
  pub port : ℕ
  pub target_port : ℕ

pub record Service : Type 0 where
  pub name : String
  pub ports : List ServicePort
  pub selector : Map String

pub record HttpRoute : Type 0 where
  pub uri_prefix : String
  pub host : String
  pub port_number : ℕ

pub record VirtualService : Type 0 where
  pub name : String
  pub http : List HttpRoute
  pub gateways : List String
  pub hosts : List String

-- the random names in the order of the calls, the domain of the system, and the encoder to YAML
pub record Access : Type 0 where
  pub uuid : ℕ → String
  pub domain : String
  pub marshal_service : Service → Result String
  pub marshal_virtual_service : VirtualService → Result String

-- the names of one sidecar
pub record Names : Type 0 where
  pub service : String  -- also the value of the label
  pub service_template : String
  pub service_task : String
  pub route_template : String
  pub route_task : String
  pub route : String

unfoldable pub names_of : Access → String → ℕ → Result Names
unfolding generate_uid message
names_of a namespace n = elim (generate_uid (("s" ⊕ a.uuid n) ⊕ ("--" ⊕ namespace)) 63) [
  | err e ↦ err (user_error invalid_argument (message e))
  | ok uid ↦ ok (record {
    service = uid;
    service_template = a.uuid (n + 1);
    service_task = "service-" ⊕ a.uuid (n + 2);
    route_template = a.uuid (n + 3);
    route_task = "virtual-service-" ⊕ a.uuid (n + 4);
    route = "vs-" ⊕ a.uuid (n + 5);
  })
]

abbrev pub host_name : Access → Names → String
host_name a names = (names.service ⊕ ".") ⊕ a.domain

unfoldable pub service_port : SidecarPort → ServicePort
service_port p = record {
  name = p.name;
  protocol = p.protocol;
  port = p.container_port;
  target_port = p.container_port;
}

-- the port of a route has 32 bits
unfoldable pub http_route : String → SidecarPort → HttpRoute
http_route service p = record {
  uri_prefix = "/";
  host = service;
  port_number = p.container_port % 2 ^ 32;
}

unfoldable pub service_of : Names → List SidecarPort → Service
unfolding service_port
service_of names ports = record {
  name = names.service;
  ports = map service_port ports;
  selector = (names.service_task, names.service) ∷ [];
}

unfoldable pub virtual_service_of : Access → Names → List SidecarPort → VirtualService
unfolding http_route
virtual_service_of a names ports = record {
  name = names.route;
  http = map (http_route names.service) ports;
  gateways = "istio-system/ingressgateway" ∷ [];
  hosts = host_name a names ∷ [];
}

-- a template that creates or deletes a resource, without Istio
unfoldable pub resource_template : String → String → String → Template
resource_template name action manifest = record (empty_template name) {
  annotations = ("sidecar.istio.io/inject", "false") ∷ [];
  resource = some (action, manifest);
}

-- the four templates of a sidecar, in their order
unfoldable pub access_templates : Names → String → String → List Template
unfolding resource_template
access_templates names service route =
    resource_template ("sys-k8s-service-template-add-" ⊕ names.service_template) "create" service
    ∷ resource_template ("sys-k8s-virtual-service-template-add-" ⊕ names.route_template) "create"
        route
    ∷ resource_template ("sys-k8s-service-template-delete-" ⊕ names.service_template) "delete"
        service
    ∷ resource_template ("sys-k8s-virtual-service-template-delete-" ⊕ names.route_template) "delete"
        route
    ∷ []

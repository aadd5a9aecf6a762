-- ===== src/Auth/Tests.antt =====
-- The checks of calls at concrete requests.
use onepanel.Base.{
  String, Bool, ◌≡◌, refl, Option, none, some, List, [], ◌∷◌, ◌==◌, Error, Result, ok,
  if◌then◌else◌, contains,
}
use onepanel.Auth.Token.{Metadata}
use onepanel.Auth.Login.{
  Cluster, LoginRequest, ServiceAccount, Proves, verify_login, verify_login-Proves,
}
use onepanel.Auth.Client.{KubeConfig, Client, Shared}
use onepanel.Auth.Authority.{parse_authority, parse_authority_dashes}
use onepanel.Auth.Interceptor.{
  Access, authorize, with_client, Env, IsChecked, intercept, workspace_access, intercept-host_of,
}

abbrev no_cookie : String → Option String
no_cookie _ = none

abbrev connect : KubeConfig → Option Error
connect _ = none

abbrev metadata : Metadata
metadata k =
    if k == "authorization"
    then "Bearer abc" ∷ []
    else if k == "x-original-authority"
    then "my-box--ns.example.com" ∷ []
    else []

abbrev config : KubeConfig
config = record {
  bearer_token = "old";
  bearer_token_file = "f";
  username = "";
  password = "";
  cert_data = "";
  cert_file = "";
}

abbrev shared : Shared
shared = record { config = config; clients = λ _. record { credentials = config; token = "" } }

abbrev client : Client
client = record {
  credentials = record config { bearer_token = "abc"; bearer_token_file = "" };
  token = "abc";
}

abbrev account : ServiceAccount
account = record { name = "ann"; secrets = "ann-docker" ∷ "ann-token-x" ∷ [] }

abbrev cluster : Cluster
cluster = record {
  enabled_namespaces = ok ("ns" ∷ []);
  service_accounts = λ n. ok (if n == "ns" then account ∷ [] else []);
  secret_token = λ _ _. ok "abc";
  md5_hex = λ s. s;
}

abbrev login : LoginRequest
login = record { username = "ann"; token = "abc" }

abbrev env : Env
env = record {
  connect = connect;
  cookie = no_cookie;
  cluster = cluster;
  default_error = none;
  config_error = none;
}

abbrev review : Access → Result Bool
review a = ok (a.verb == "get")

abbrev access : Access
access = record {
  namespace = "other";
  verb = "delete";
  group = "";
  resource = "secrets";
  name = "x";
}

verify_login-Proves_example :
    (more : List String) × (ok ("ns" ∷ []) ≡ ok more)
    × Proves cluster login "abc" ("onepanel" ∷ more)
verify_login-Proves_example =
    verify_login-Proves cluster login "abc" (unfold verify_login contains in refl)

parse_authority_dashes_example : parse_authority "a--b--ns.example.com" ≡ some ("a", "ns")
parse_authority_dashes_example =
    parse_authority_dashes "a" "b" "ns" "example.com" (refl, tt) (refl, tt) (refl, (refl, tt)) refl
      refl refl

intercept-host_of_example :
    (authorize (workspace_access ("my-box", "ns")) ≡ authorize (workspace_access ("my-box", "ns")))
    × IsChecked env (some metadata) (with_client client)
intercept-host_of_example =
    intercept-host_of env metadata access (authorize (workspace_access ("my-box", "ns")))
      (with_client client) config "my-box" "ns" "example.com" [] refl
      (refl, (refl, (refl, (refl, (refl, (refl, tt)))))) (refl, (refl, tt)) refl refl
      (unfold intercept in refl)

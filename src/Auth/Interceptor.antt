-- ===== src/Auth/Interceptor.antt =====
-- IsAuthorized and UnaryInterceptor of server/auth/auth.go: the check of each call before its handler. The
-- metadata that `md.Set` changes is the context's own, as grpc 1.33 hands it out.
use onepanel.Base.{
  String, Bool, true, false, ◌≡◌, refl, ◌∙◌, Option, none, some, List, [], ◌∷◌, ◌==◌, ◌⊕◌, arith,
  Error, user_error, plain, permission_denied, Result, ok, err, if◌then◌else◌, Lacks,
}
use onepanel.Workspace.Update.{host_of}
use onepanel.Auth.Token.{Metadata, get_bearer_token, prefix}
use onepanel.Auth.Login.{Cluster, LoginRequest, verify_login}
use onepanel.Auth.Client.{KubeConfig, Client, get_client}
use onepanel.Auth.Schedule.{HasToken, get_client-HasToken}
use onepanel.Auth.Authority.{parse_authority, parse_authority-host_of, is_clean}

-- the attributes of a review
pub record Access : Type 0 where
  pub namespace : String
  pub verb : String
  pub group : String
  pub resource : String
  pub name : String

abbrev pub denied : Access → Error
denied a = user_error permission_denied (
    "Permission denied. Namespace: '" ⊕ a.namespace ⊕ "', Verb: '" ⊕ a.verb ⊕ "', Group: '"
    ⊕ a.group ⊕ "', Resource '" ⊕ a.resource ⊕ "', Name: '" ⊕ a.name ⊕ "'")

-- IsAuthorized, by the review of Kubernetes
unfoldable pub is_authorized : (Access → Result Bool) → Access → Result Bool
is_authorized review a = elim (review a) [
  | err _ ↦ err (denied a)
  | ok allowed ↦ if allowed then ok true else err (denied a)
]

-- the message of a call
pub data Body : Type 0 where
  access_token valid_token : LoginRequest → Body
  authorize : Access → Body
  message : String → Body

-- the context that a handler is given: nil, or one with a client
pub data Context : Type 0 where
  nil : Context
  with_client : Client → Context

pub data Outcome : Type 0 where
  rejected : Error → Outcome
  handled : Context → Body → Outcome

pub record Env : Type 0 where
  pub connect : KubeConfig → Option Error
  pub cookie : String → Option String
  pub cluster : Cluster
  pub default_error : Option Error  -- of GetDefaultClientWithDB
  pub config_error : Option Error  -- of GetSystemConfig

abbrev pub no_metadata : Error
no_metadata = plain "unable to get metadata from incoming context"

abbrev pub invalid_request : Error
invalid_request = plain "invalid request object for GetAccessTokenRequest"

-- md.Set("authorization", "Bearer "+rawToken)
abbrev pub set_token : String → Metadata → Metadata
set_token raw md = λ k. if k == "authorization" then (prefix ⊕ raw) ∷ [] else md k

abbrev pub context_of : Result Client → Context
context_of (ok c) = with_client c
context_of (err _) = nil

abbrev pub handle_with : Body → Result Client × KubeConfig → Outcome × KubeConfig
handle_with body (c, shared) = (handled (context_of c) body, shared)

abbrev pub require_client : Body → Result Client × KubeConfig → Outcome × KubeConfig
require_client body (ok c, shared) = (handled (with_client c) body, shared)
require_client body (err e, shared) = (rejected e, shared)

-- the branch of both logins, from the default client on
unfoldable pub login_call : Env → Metadata → LoginRequest → Body → KubeConfig → Outcome × KubeConfig
unfolding get_client verify_login
login_call env md r body shared = elim env.default_error [
  | some e ↦ (rejected e, shared)
  | none ↦ elim (verify_login env.cluster r) [
    | err e ↦ (rejected e, shared)
    | ok raw ↦ elim env.config_error [
      | some e ↦ (rejected e, shared)
      | none ↦ handle_with body (get_client env.connect env.cookie (some (set_token raw md)) shared)
    ]
  ]
]

-- the access to the workspace of an original authority
abbrev pub workspace_access : String × String → Access
workspace_access (workspace, namespace) = record {
  namespace = namespace;
  verb = "get";
  group = "onepanel.io";
  resource = "workspaces";
  name = workspace;
}

unfoldable pub rewrite_access : Metadata → Body → Body
unfolding parse_authority
rewrite_access md (authorize a) = elim (md "x-original-authority") [
  | [] ↦ authorize a
  | x ∷ _ ↦ elim (parse_authority x) [
    | none ↦ authorize a
    | some w ↦ authorize (workspace_access w)
  ]
]
rewrite_access md body = body

pub data Method : Type 0 where
  get_access_token is_valid_token is_authorized_method other_method : Method

-- `info.FullMethod`
abbrev pub method_of : String → Method
method_of name =
    if name == "/api.AuthService/GetAccessToken"
    then get_access_token
    else if name == "/api.AuthService/IsValidToken"
    then is_valid_token
    else if name == "/api.AuthService/IsAuthorized"
    then is_authorized_method
    else other_method

unfoldable pub intercept_method :
    Env → Method → Option Metadata → Body → KubeConfig → Outcome × KubeConfig
unfolding login_call rewrite_access get_client
intercept_method env get_access_token none body shared = (rejected no_metadata, shared)
intercept_method env get_access_token (some md) (access_token r) shared =
    login_call env md r (access_token r) shared
intercept_method env get_access_token (some md) body shared = (rejected invalid_request, shared)
intercept_method env is_valid_token none body shared = (rejected no_metadata, shared)
intercept_method env is_valid_token (some md) (valid_token r) shared =
    login_call env md r (valid_token r) shared
intercept_method env is_valid_token (some md) body shared = (rejected invalid_request, shared)
intercept_method env is_authorized_method none body shared = (handled nil body, shared)
intercept_method env is_authorized_method (some md) body shared =
    require_client (rewrite_access md body) (get_client env.connect env.cookie (some md) shared)
intercept_method env other_method md body shared =
    require_client body (get_client env.connect env.cookie md shared)

-- UnaryInterceptor
unfoldable pub intercept : Env → String → Option Metadata → Body → KubeConfig → Outcome × KubeConfig
unfolding intercept_method
intercept env name md body shared = intercept_method env (method_of name) md body shared

require_client-handled :
    (body body' : Body) (ctx : Context) (r : Result Client × KubeConfig)
    → (require_client body r).0 ≡ handled ctx body'
    → (c : Client) × (r.0 ≡ ok c) × (ctx ≡ with_client c) × (body' ≡ body)
require_client-handled body body' ctx (ok c, shared) e = (c, refl, ground arith, ground arith)
require_client-handled body body' ctx (err x, shared) e = absurd (cc)

-- what the handler of a call was given
pub record IsChecked (env : Env) (md : Option Metadata) (ctx : Context) : Type 0 where
  pub client : Client
  pub given : ctx ≡ with_client client
  pub token : String
  pub found : get_bearer_token env.cookie md ≡ some token
  pub held : HasToken client token

get_client-IsChecked :
    (env : Env) (md : Option Metadata) (ctx : Context) (c : Client) (shared : KubeConfig)
    → (get_client env.connect env.cookie md shared).0 ≡ ok c
    → ctx ≡ with_client c
    → IsChecked env md ctx
get_client-IsChecked env md ctx c shared e given =
    let (token, found, _, held) =
      get_client-HasToken env.connect env.cookie md
        (record { config = shared; clients = λ _. record { credentials = shared; token = "" } }) 0 c
        e in
    record { client = c; given = given; token = token; found = found; held = held }

-- When the original authority is the host of a workspace, and neither its uid nor its namespace has a dot,
-- two dashes next to each other or a dash at the end, the handler of `IsAuthorized` is asked for nothing
-- but the right to get this workspace, whatever the request asks, and has a client of the request's token,
-- no other request touching the shared configuration meanwhile.
pub intercept-host_of :
    (env : Env) (md : Metadata) (a : Access) (body' : Body) (ctx : Context) (shared : KubeConfig)
    (uid namespace domain : String) (rest : List String)
    → md "x-original-authority" ≡ (host_of uid namespace domain ∷ rest)
    → Lacks "." uid
    → Lacks "." namespace
    → is_clean false uid ≡ true
    → is_clean false namespace ≡ true
    → (intercept env "/api.AuthService/IsAuthorized" (some md) (authorize a) shared).0
      ≡ handled ctx body'
    → (body' ≡ authorize (workspace_access (uid, namespace))) × IsChecked env (some md) ctx
unfolding intercept intercept_method rewrite_access
intercept-host_of env md a body' ctx shared uid namespace domain rest h u n cu cn e =
    let (c, got, given, same) =
      require_client-handled (rewrite_access md (authorize a)) body' ctx
        (get_client env.connect env.cookie (some md) shared) e in
    (
      same ∙ rw (h, parse_authority-host_of uid namespace domain u n cu cn, rewrite_access) refl,
      get_client-IsChecked env (some md) ctx c shared got given,
    )

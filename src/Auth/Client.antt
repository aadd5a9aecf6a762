-- ===== src/Auth/Client.antt =====
-- getClient of server/auth/auth.go and the credentials that NewClient of pkg/client.go reads: each request
-- writes its token to the one configuration that all requests share, and the requests are served at the
-- same time. The configuration and the database are not nil, as main.go passes them.
use onepanel.Base.{
  ℕ, String, Option, none, some, List, [], ◌∷◌, ◌==◌, Error, user_error, unauthenticated, Result,
  ok, err, nat_eq, if◌then◌else◌,
}
use onepanel.Auth.Token.{Metadata, get_bearer_token}

-- the credentials of `rest.Config`
pub record KubeConfig : Type 0 where
  pub bearer_token : String
  pub bearer_token_file : String
  pub username : String
  pub password : String
  pub cert_data : String
  pub cert_file : String

-- the credentials with which the client's connections were made, and `client.Token`
pub record Client : Type 0 where
  pub credentials : KubeConfig
  pub token : String

-- the reset of the other credentials in NewClient
unfoldable pub only_token : KubeConfig → KubeConfig
only_token c = if c.bearer_token == "" then c else record c {
  bearer_token_file = "";
  username = "";
  password = "";
  cert_data = "";
  cert_file = "";
}

abbrev pub missing_header : Error
missing_header = user_error unauthenticated "Missing or invalid \"authorization\" header."

-- the rest of getClient, for a request with a token; `connect` is the error of the two `NewForConfig`
unfoldable pub client_of :
    (KubeConfig → Option Error) → String → KubeConfig → Result Client × KubeConfig
unfolding only_token
client_of connect token shared =
    let config = only_token (record shared { bearer_token = token }) in
    (
      elim (connect config) [
        | some e ↦ err e
        | none ↦ ok (record { credentials = config; token = config.bearer_token })
      ],
      config,
    )

-- getClient
unfoldable pub get_client :
    (KubeConfig → Option Error)
    → (String → Option String)
    → Option Metadata
    → KubeConfig
    → Result Client × KubeConfig
unfolding client_of get_bearer_token
get_client connect cookie md shared = elim (get_bearer_token cookie md) [
  | none ↦ (err missing_header, shared)
  | some token ↦ client_of connect token shared
]

-- The accesses to the shared configuration: `kubeConfig.BearerToken = *bearerToken`, `NewClient`, and
-- `client.Token = kubeConfig.BearerToken`, each by the request of a number.
pub data Step : Type 0 where
  write_token : ℕ → String → Step
  new_client set_token : ℕ → Step

pub record Shared : Type 0 where
  pub config : KubeConfig
  pub clients : ℕ → Client

abbrev pub at : ℕ → (Client → Client) → (ℕ → Client) → ℕ → Client
at i f clients j = if nat_eq j i then f (clients j) else clients j

unfoldable pub step : Step → Shared → Shared
unfolding only_token
step (write_token i t) s = record s { config = record s.config { bearer_token = t } }
step (new_client i) s =
    let c = only_token s.config in
    record { config = c; clients = at i (λ x. record x { credentials = c }) s.clients }
step (set_token i) s = record s {
  clients = at i (λ x. record x { token = s.config.bearer_token }) s.clients;
}

unfoldable pub run : List Step → Shared → Shared
unfolding step
run [] s = s
run (x ∷ xs) s = run xs (step x s)

abbrev pub steps_of : ℕ → String → List Step
steps_of i token = write_token i token ∷ new_client i ∷ set_token i ∷ []

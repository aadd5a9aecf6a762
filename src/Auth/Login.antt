-- ===== src/Auth/Login.antt =====
-- verifyLogin of server/auth/auth.go: the account of a user name and a hashed token.
use onepanel.Base.{
  String, true, ◌≡◌, refl, sym, Option, none, some, List, [], ◌∷◌, ◌==◌, ◌⊕◌, arith, ◌⊎◌, ◌&&◌,
  eq_refl, inl, inr, any, Error, user_error, invalid_argument, Result, ok, err, contains, eq_iff,
  if◌then◌else◌, Option-cases, Result-cases, Bool-cases,
}

pub record ServiceAccount : Type 0 where
  pub name : String
  pub secrets : List String

pub record LoginRequest : Type 0 where
  pub username : String
  pub token : String

-- The calls of a login: the namespaces that are enabled, the service accounts of a namespace, the datum
-- `token` of a secret, and the MD5 of a text in hexadecimal.
pub record Cluster : Type 0 where
  pub enabled_namespaces : Result (List String)
  pub service_accounts : String → Result (List ServiceAccount)
  pub secret_token : String → String → Result String
  pub md5_hex : String → String

-- the loop on the secrets of an account, left at the first token
unfoldable pub token_secret : String → List String → String
token_secret found [] = found
token_secret found (s ∷ ss) = if contains s "-token-" then s else token_secret found ss

-- the loop on the accounts
unfoldable pub auth_token_secret : String → String → List ServiceAccount → String
unfolding token_secret
auth_token_secret user found [] = found
auth_token_secret user found (a ∷ rest) =
    auth_token_secret user (if a.name == user then token_secret found a.secrets else found) rest

abbrev pub unknown_login : String → Error
unknown_login user = user_error invalid_argument ("unknown username/token '" ⊕ user ⊕ "'")

-- the body of the loop on the namespaces: an error, a token, or `none` for the next namespace
unfoldable pub login_in : Cluster → LoginRequest → String → Result (Option String)
unfolding auth_token_secret
login_in k r namespace = elim (k.service_accounts namespace) [
  | err e ↦ err e
  | ok accounts ↦
      let name = auth_token_secret r.username "" accounts in
      if name == "" then ok none else elim (k.secret_token namespace name) [
        | err e ↦ err e
        | ok raw ↦ ok (if r.token == k.md5_hex raw then some raw else none)
      ]
]

unfoldable pub login_loop : Cluster → LoginRequest → List String → Result String
unfolding login_in
login_loop k r [] = err (unknown_login r.username)
login_loop k r (n ∷ ns) = elim (login_in k r n) [
  | err e ↦ err e
  | ok o ↦ elim o [ some raw ↦ ok raw | none ↦ login_loop k r ns ]
]

-- verifyLogin
unfoldable pub verify_login : Cluster → LoginRequest → Result String
unfolding login_loop
verify_login k r = elim k.enabled_namespaces [
  | err e ↦ err e
  | ok more ↦ login_loop k r ("onepanel" ∷ more)
]

-- the namespace of the list, the account and the secret whose token is the one that was asked for
pub record Proves (k : Cluster) (r : LoginRequest) (raw : String) (ns : List String) : Type 0 where
  pub namespace : String
  pub member : any (λ n. n == namespace) ns ≡ true
  pub accounts : List ServiceAccount
  pub listed : k.service_accounts namespace ≡ ok accounts
  pub secret : String
  pub held : any (λ a. a.name == r.username && any (λ s. s == secret) a.secrets) accounts ≡ true
  pub is_token : contains secret "-token-" ≡ true
  pub raw_token : k.secret_token namespace secret ≡ ok raw
  pub hashed : r.token ≡ k.md5_hex raw

abbrev Secret : List String → String → Type 0
Secret ss s = (any (λ x. x == s) ss ≡ true) × (contains s "-token-" ≡ true)

token_secret-found :
    (found : String) (ss : List String) (s : String)
    → token_secret found ss ≡ s
    → (s ≡ found) ⊎ Secret ss s
unfolding token_secret
token_secret-found found [] s e = inl (sym e)
token_secret-found found (x ∷ ss) s e = elim (Bool-cases (contains x "-token-")) [
  | inl c ↦ let same : x ≡ s = ground arith in inr (ground (arith, eq_iff x s), rw same at c)
  | inr c ↦ elim (token_secret-found found ss s (ground arith)) [
    | inl same ↦ inl same
    | inr (m, t) ↦ inr (ground arith, t)
  ]
]

abbrev Held : String → List ServiceAccount → String → Type 0
Held user accounts s =
    (any (λ a. a.name == user && any (λ x. x == s) a.secrets) accounts ≡ true)
    × (contains s "-token-" ≡ true)

auth_token_secret-found :
    (user found : String) (accounts : List ServiceAccount) (s : String)
    → auth_token_secret user found accounts ≡ s
    → (s ≡ found) ⊎ Held user accounts s
unfolding auth_token_secret
auth_token_secret-found user found [] s e = inl (sym e)
auth_token_secret-found user found (a ∷ rest) s e = elim (Bool-cases (a.name == user)) [
  | inr c ↦ elim (auth_token_secret-found user found rest s (ground arith)) [
    | inl same ↦ inl same
    | inr (m, t) ↦ inr (ground arith, t)
  ]
  | inl c ↦
      elim (auth_token_secret-found user (token_secret found a.secrets) rest s (ground arith)) [
        | inr (m, t) ↦ inr (ground arith, t)
        | inl same ↦ elim (token_secret-found found a.secrets s (sym same)) [
          | inl also ↦ inl also
          | inr (m, t) ↦ inr (ground arith, t)
        ]
      ]
]

login_in-Proves :
    (k : Cluster) (r : LoginRequest) (raw namespace : String) (ns : List String)
    → login_in k r namespace ≡ ok (some raw)
    → any (λ n. n == namespace) ns ≡ true
    → Proves k r raw ns
unfolding login_in
login_in-Proves k r raw namespace ns e m = elim (Result-cases (k.service_accounts namespace)) [
  | inr (x, c) ↦ absurd (ground arith)
  | inl (accounts, c) ↦ elim (auth_token_secret-found r.username "" accounts _ refl) [
    | inl empty ↦
        absurd (ground (arith, (eq_iff (auth_token_secret r.username "" accounts) "").1 empty))
    | inr (held, is_token) ↦ record {
      namespace = namespace;
      member = m;
      accounts = accounts;
      listed = c;
      secret = auth_token_secret r.username "" accounts;
      held = held;
      is_token = is_token;
      raw_token = ground arith;
      hashed = ground (arith, eq_iff r.token (k.md5_hex raw));
    }
  ]
]

Proves-more :
    (k : Cluster) (r : LoginRequest) (raw n : String) (ns : List String)
    → Proves k r raw ns
    → Proves k r raw (n ∷ ns)
Proves-more k r raw n ns p = record {
  namespace = p.namespace;
  member = rw p.member (ground arith);
  accounts = p.accounts;
  listed = p.listed;
  secret = p.secret;
  held = p.held;
  is_token = p.is_token;
  raw_token = p.raw_token;
  hashed = p.hashed;
}

login_loop-Proves :
    (k : Cluster) (r : LoginRequest) (raw : String) (ns : List String)
    → login_loop k r ns ≡ ok raw
    → Proves k r raw ns
unfolding login_loop
login_loop-Proves k r raw [] e = absurd (cc)
login_loop-Proves k r raw (n ∷ ns) e = elim (Result-cases (login_in k r n)) [
  | inr (x, c) ↦ absurd (ground arith)
  | inl (o, c) ↦ elim (Option-cases o) [
    | inl d ↦ Proves-more k r raw n ns (login_loop-Proves k r raw ns (ground arith))
    | inr (t, d) ↦
        let same : t ≡ raw = ground arith in
        login_in-Proves k r raw n (n ∷ ns) (rw (c, d, same) refl) (ground (arith, eq_refl n))
  ]
]

-- A login that succeeds returns the token of a secret whose name has `-token-`, of a service account of
-- the user's name in the namespace `onepanel` or an enabled one, and the MD5 of this token is the one of
-- the request.
pub verify_login-Proves :
    (k : Cluster) (r : LoginRequest) (raw : String)
    → verify_login k r ≡ ok raw
    → (more : List String) × (k.enabled_namespaces ≡ ok more) × Proves k r raw ("onepanel" ∷ more)
unfolding verify_login
verify_login-Proves k r raw e = elim (Result-cases k.enabled_namespaces) [
  | inr (x, c) ↦ absurd (ground arith)
  | inl (more, c) ↦ (more, c, login_loop-Proves k r raw ("onepanel" ∷ more) (ground arith))
]

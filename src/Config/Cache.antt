-- ===== src/Config/Cache.antt =====
-- What the cache of the system configuration holds.
use onepanel.Base.{
  String, false, ◌≡◌, refl, subst, Option, none, some, ◌==◌, arith, Map, lookup, insert,
  lookup-insert, Error, Result, ok, err, if◌then◌else◌, any, Option-cases, Result-cases, inl, inr,
}
use onepanel.Config.{
  Loaded, Source, at_key, add_secrets, secret_keys, new_system_config, get_system_config,
}

abbrev pub loaded : Map String → Loaded
loaded c = record { config = some c; error = none }

-- the configuration has the decoded secrets, and all else from the config map
pub record IsConfig (decode : String → Result String) (values secret c : Map String) : Type 0 where
  pub username : decode (at_key "databaseUsername" secret) ≡ ok (at_key "databaseUsername" c)
  pub password : decode (at_key "databasePassword" secret) ≡ ok (at_key "databasePassword" c)
  pub hmac : decode (at_key "hmac" secret) ≡ ok (at_key "hmac" c)
  pub others : (k : String) → any (λ j. j == k) secret_keys ≡ false → lookup k c ≡ lookup k values

-- three writes in their order
abbrev three : Map String → String → String → String → Map String
three m u p h = insert "hmac" h (insert "databasePassword" p (insert "databaseUsername" u m))

lookup-three :
    (k : String) (m : Map String) (u p h : String)
    → lookup k (three m u p h) ≡ (
        if "hmac" == k
        then some h
        else if "databasePassword" == k
        then some p
        else if "databaseUsername" == k
        then some u
        else lookup k m)
lookup-three k m u p h = ground (
  arith,
  lookup-insert "hmac" k h (insert "databasePassword" p (insert "databaseUsername" u m)),
  lookup-insert "databasePassword" k p (insert "databaseUsername" u m),
  lookup-insert "databaseUsername" k u m,
)

three-IsConfig :
    (decode : String → Result String) (values secret : Map String) (u p h : String)
    → decode (at_key "databaseUsername" secret) ≡ ok u
    → decode (at_key "databasePassword" secret) ≡ ok p
    → decode (at_key "hmac" secret) ≡ ok h
    → IsConfig decode values secret (three values u p h)
three-IsConfig decode values secret u p h du dp dh = record {
  username = rw lookup-three du;
  password = rw lookup-three dp;
  hmac = rw lookup-three dh;
  others = λ k other. ground (arith, lookup-three k values u p h);
}

new_system_config-IsConfig :
    (decode : String → Result String) (values : Option (Map String)) (secret c : Map String)
    → new_system_config decode values secret ≡ ok (loaded c)
    → (m : Map String) × (values ≡ some m) × IsConfig decode m secret c
unfolding new_system_config add_secrets
new_system_config-IsConfig decode values secret c e =
    elim (Result-cases (decode (at_key "databaseUsername" secret))) [
      | inr (x, du) ↦ absurd (ground arith)
      | inl (u, du) ↦ elim (Option-cases values) [
        | inl n ↦ absurd (ground arith)
        | inr (m, n) ↦ elim (Result-cases (decode (at_key "databasePassword" secret))) [
          | inr (x, dp) ↦ absurd (ground arith)
          | inl (p, dp) ↦ elim (Result-cases (decode (at_key "hmac" secret))) [
            | inr (x, dh) ↦ absurd (ground arith)
            | inl (h, dh) ↦
                let same : three m u p h ≡ c = ground arith in
                (
                  m,
                  n,
                  subst (IsConfig decode m secret) same
                      (three-IsConfig decode m secret u p h du dp dh),
                )
          ]
        ]
      ]
    ]

-- A first load without an error read the config map and the secret; its configuration has the three
-- decoded secrets and all else from the config map. It is cached, and every later load gives it again, whatever Kubernetes then holds.
pub get_system_config-IsConfig :
    (s : Source) (c : Map String)
    → (get_system_config s none).0 ≡ ok (loaded c)
    → ((m secret : Map String) × (s.config_map ≡ ok (some m))
        × (s.secret ≡ ok secret)
        × IsConfig s.decode m secret c)
      × ((get_system_config s none).1 ≡ some c)
      × ((later : Source)
          → get_system_config later (get_system_config s none).1 ≡ (ok (loaded c), some c))
unfolding get_system_config
get_system_config-IsConfig s c e = elim (Result-cases s.config_map) [
  | inr (x, d) ↦ absurd (ground arith)
  | inl (values, d) ↦ elim (Result-cases s.secret) [
    | inr (x, g) ↦ absurd (ground arith)
    | inl (secret, g) ↦
        let made : new_system_config s.decode values secret ≡ ok (loaded c) = ground arith in
        let (m, is, config) = new_system_config-IsConfig s.decode values secret c made in
        ((m, secret, rw is at d, g, config), rw (d, g, made) refl, λ later. rw (d, g, made) refl)
  ]
]

-- When the password of the database cannot be decoded, after the user name was, the first load returns the
-- error, but the next one returns the half-filled configuration as if
-- there were no error.
pub get_system_config_half :
    (s later : Source) (m secret : Map String) (u : String) (x : Error)
    → s.config_map ≡ ok (some m)
    → s.secret ≡ ok secret
    → s.decode (at_key "databaseUsername" secret) ≡ ok u
    → s.decode (at_key "databasePassword" secret) ≡ err x
    → ((get_system_config s none).0
        ≡ ok (record { config = some (insert "databaseUsername" u m); error = some x }))
      × (get_system_config later (get_system_config s none).1
          ≡ (ok (loaded (insert "databaseUsername" u m)), some (insert "databaseUsername" u m)))
unfolding get_system_config new_system_config add_secrets
get_system_config_half s later m secret u x d g du dp =
    (rw (d, g, du, dp) refl, rw (d, g, du, dp) refl)

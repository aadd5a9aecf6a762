-- ===== src/Auth/Schedule.antt =====
-- The clients that schedules of the accesses to the shared configuration make.
use onepanel.Base.{
  ℕ, String, ◌≡◌, refl, subst, sym, ◌∙◌, ◌==◌, eq_iff, ◌⊎◌, Option, some, List, [], ◌∷◌, ◌++◌,
  arith, Error, ok, All, nat_eq, nat_eq_iff, Option-cases, Bool-cases, inl, inr,
}
use onepanel.Auth.Token.{Metadata, get_bearer_token}
use onepanel.Auth.Client.{
  KubeConfig, Client, only_token, client_of, get_client, Step, write_token, new_client, set_token,
  Shared, step, run, steps_of,
}

abbrev pub IsQuiet : Step → Type 0
IsQuiet (write_token i t) = ⊥
IsQuiet _ = Unit

only_token-keeps : (c : KubeConfig) → (only_token c).bearer_token ≡ c.bearer_token
unfolding only_token
only_token-keeps c = ground arith

step-token :
    (x : Step) (s : Shared) → IsQuiet x → (step x s).config.bearer_token ≡ s.config.bearer_token
unfolding step
step-token (write_token i t) s h = absurd h
step-token (new_client i) s h = only_token-keeps s.config
step-token (set_token i) s h = refl

-- no credentials besides the bearer token
abbrev pub IsCleared : KubeConfig → Type 0
IsCleared c =
    (c.bearer_token_file ≡ "")
    × (c.username ≡ "")
    × (c.password ≡ "")
    × (c.cert_data ≡ "")
    × (c.cert_file ≡ "")

-- the bearer token is the one given; unless it is empty, there are no other credentials
abbrev pub IsOnly : KubeConfig → String → Type 0
IsOnly c t = (c.bearer_token ≡ t) × ((t ≡ "") ⊎ IsCleared c)

only_token-IsOnly : (c : KubeConfig) (t : String) → c.bearer_token ≡ t → IsOnly (only_token c) t
unfolding only_token
only_token-IsOnly c t h = elim (Bool-cases (c.bearer_token == "")) [
  | inl e ↦ rw e (h, inl (sym h ∙ (eq_iff c.bearer_token "").0 e))
  | inr e ↦ rw e (h, inr (refl, refl, refl, refl, refl))
]

-- the client is connected with the token of the request alone, and holds it
abbrev pub HasToken : Client → String → Type 0
HasToken c t = IsOnly c.credentials t × (c.token ≡ t)

abbrev Config : String → Shared → Type 0
Config t s = s.config.bearer_token ≡ t

abbrev Connected : ℕ → String → Shared → Type 0
Connected i t s = Config t s × IsOnly (s.clients i).credentials t

step-Connected :
    (x : Step) (i : ℕ) (t : String) (s : Shared)
    → IsQuiet x
    → Connected i t s
    → Connected i t (step x s)
unfolding step
step-Connected (write_token j u) i t s h c = absurd h
step-Connected (set_token j) i t s h c = (c.0, ground (arith, c.1))
step-Connected (new_client j) i t s h c =
    let kept = only_token-IsOnly s.config t c.0 in
    (kept.0, elim (Bool-cases (nat_eq i j)) [ inl e ↦ rw e kept | inr e ↦ rw e c.1 ])

run-Connected :
    (xs : List Step) (i : ℕ) (t : String) (s : Shared)
    → All IsQuiet xs
    → Connected i t s
    → Connected i t (run xs s)
unfolding run
run-Connected [] i t s h c = c
run-Connected (x ∷ xs) i t s h c =
    run-Connected xs i t (step x s) h.1 (step-Connected x i t s h.0 c)

run-token :
    (xs : List Step) (t : String) (s : Shared) → All IsQuiet xs → Config t s → Config t (run xs s)
unfolding run
run-token [] t s h c = c
run-token (x ∷ xs) t s h c = run-token xs t (step x s) h.1 (step-token x s h.0 ∙ c)

run-append : (xs ys : List Step) (s : Shared) → run (xs ++ ys) s ≡ run ys (run xs s)
unfolding run
run-append [] ys s = refl
run-append (x ∷ xs) ys s = run-append xs ys (step x s)

connects : (i : ℕ) (t : String) (s : Shared) → Config t s → Connected i t (step (new_client i) s)
unfolding step
connects i t s c =
    let kept = only_token-IsOnly s.config t c in (kept.0, rw ((nat_eq_iff i i).1 refl) kept)

finishes :
    (i : ℕ) (t : String) (s : Shared)
    → Connected i t s
    → HasToken ((step (set_token i) s).clients i) t
unfolding step
finishes i t s c = (rw ((nat_eq_iff i i).1 refl) c.1, rw ((nat_eq_iff i i).1 refl) c.0)

rest-HasToken :
    (i : ℕ) (t : String) (mid mid' : List Step) (s : Shared)
    → All IsQuiet mid
    → All IsQuiet mid'
    → Config t s
    → HasToken ((run (mid ++ (new_client i ∷ (mid' ++ set_token i ∷ []))) s).clients i) t
unfolding run
rest-HasToken i t mid mid' s h h' c =
    let connected = connects i t (run mid s) (run-token mid t s h c) in
    let after = run-Connected mid' i t (step (new_client i) (run mid s)) h' connected in
    rw (run-append mid (new_client i ∷ (mid' ++ set_token i ∷ [])) s) (
      rw (run-append mid' (set_token i ∷ []) (step (new_client i) (run mid s)))
        (finishes i t (run mid' (step (new_client i) (run mid s))) after))

-- Between the steps of a request others may stand: if none of them writes a token, the client of the
-- request is connected with the token of the request, holds it, and has no other credentials unless the
-- token is empty.
pub run-HasToken :
    (i : ℕ) (t : String) (mid mid' : List Step) (s : Shared)
    → All IsQuiet mid
    → All IsQuiet mid'
    → HasToken
        ((run (write_token i t ∷ (mid ++ (new_client i ∷ (mid' ++ set_token i ∷ [])))) s).clients i)
        t
unfolding run
run-HasToken i t mid mid' s h h' =
    rest-HasToken i t mid mid' (step (write_token i t) s) h h' (unfold step in refl)

abbrev made : KubeConfig → Client
made c = record { credentials = c; token = c.bearer_token }

run-steps :
    (i : ℕ) (token : String) (s : Shared)
    → (run (steps_of i token) s).clients i
      ≡ made (only_token (record s.config { bearer_token = token }))
unfolding run step
run-steps i token s = rw ((nat_eq_iff i i).1 refl) refl

client_of-made :
    (connect : KubeConfig → Option Error) (token : String) (shared : KubeConfig) (c : Client)
    → (client_of connect token shared).0 ≡ ok c
    → made (only_token (record shared { bearer_token = token })) ≡ c
unfolding client_of
client_of-made connect token shared c e = ground arith

made-HasToken :
    (token : String) (shared : KubeConfig)
    → HasToken (made (only_token (record shared { bearer_token = token }))) token
made-HasToken token shared =
    let kept = only_token-IsOnly (record shared { bearer_token = token }) token refl in
    (kept, kept.0)

pub get_client-HasToken :
    (connect : KubeConfig → Option Error) (cookie : String → Option String) (md : Option Metadata)
    (s : Shared) (i : ℕ) (c : Client)
    → (get_client connect cookie md s.config).0 ≡ ok c
    → (token : String) × (get_bearer_token cookie md ≡ some token)
      × ((run (steps_of i token) s).clients i ≡ c)
      × HasToken c token
unfolding get_client
get_client-HasToken connect cookie md s i c e = elim (Option-cases (get_bearer_token cookie md)) [
  | inl d ↦ absurd (ground arith)
  | inr (token, d) ↦
      let same = client_of-made connect token s.config c (ground arith) in
      (
        token,
        d,
        run-steps i token s ∙ same,
        subst (λ x. HasToken x token) same (made-HasToken token s.config),
      )
]

-- ===== src/Spec/Volumes.antt =====
-- The parameters that the volume claims of a workspace refer to (pkg/workspace_template.go).
use onepanel.Base.{
  String, Bool, true, false, not, ◌&&◌, ◌||◌, ◌==◌, ◌≡◌, ◌≢◌, refl, ap, subst, sym, Option, none,
  some, List, [], ◌∷◌, ◌++◌, map, any, Map, Result, ok, err, arith, eq_iff, All, All-append,
  Bool-cases, Option-cases, inl, inr, >>=-eq-ok,
}
use onepanel.Base
use onepanel.Params.{Parameter, ParameterOption}
use onepanel.Spec.Defs.{
  Mount, Container, ClaimTemplate, WorkspaceSpec, size_name, is_in, all_mounts, storage_is_set,
  system_volumes, volume_parameters, generate_arguments, generate_runtime_parameters, Storage,
  fixed, dynamic, Claim, system_parameters, own_arguments, claim_of, user_claims, mount_claims,
  create_stateful_set,
}

-- a parameter has the name
abbrev pub declares : String → List Parameter → Bool
declares n ps = any (λ p. p.name == n) ps

-- the size of the claim is fixed, or the parameter that it refers to is declared
abbrev pub IsSizedBy : List Parameter → Storage → Type 0
IsSizedBy ps (fixed q) = Unit
IsSizedBy ps (dynamic n) = declares n ps ≡ true

abbrev pub IsSized : List Parameter → Claim → Type 0
IsSized ps c = IsSizedBy ps c.storage

-- a mount has the name
abbrev pub is_mounted : String → List Mount → Bool
is_mounted n ms = any (λ m. m.name == n) ms

declares-volume_parameters :
    (n : String) (mapped sized : List String) (ms : List Mount)
    → is_in n mapped ≡ false
    → is_in n sized ≡ false
    → is_mounted n ms ≡ true
    → declares (size_name n) (volume_parameters mapped sized ms) ≡ true
unfolding volume_parameters is_in
declares-volume_parameters n mapped sized [] h k m = absurd (cc)
declares-volume_parameters n mapped sized (x ∷ xs) h k m = elim (Bool-cases (x.name == n)) [
  | inl e ↦
      let same : x.name ≡ n = (eq_iff x.name n).0 e in
      ground (
        arith,
        ap (λ y. is_in y mapped) same,
        ap (λ y. is_in y sized) same,
        ap size_name same,
        eq_iff (size_name x.name) (size_name n),
      )
  | inr e ↦ ground (
    arith,
    declares-volume_parameters n mapped sized xs,
    declares-volume_parameters n (x.name ∷ mapped) sized xs,
  )
]

declares-append :
    (n : String) (ps qs : List Parameter) → declares n qs ≡ true → declares n (ps ++ qs) ≡ true
declares-append n [] qs h = h
declares-append n (p ∷ ps) qs h = ground (arith, declares-append n ps qs h)

-- names outside a list of mapped names are outside the system's volumes and the sized ones
abbrev Covers : List String → List String → Type 0
Covers mapped sized =
    (n : String)
    → is_in n mapped ≡ false
    → (is_in n system_volumes ≡ false) × (is_in n sized ≡ false)

Covers-cons :
    (m : String) (mapped sized : List String) → Covers mapped sized → Covers (m ∷ mapped) sized
Covers-cons m mapped sized h n e = h n (unfold is_in in ground arith)

abbrev AllMounted : List Mount → List Mount → Type 0
AllMounted all ms = All (λ m. is_mounted m.name all ≡ true) ms

module _ (sized : List String) (all : List Mount) where
  abbrev declared : List Parameter
  declared = volume_parameters system_volumes sized all

  mount_claims-IsSized :
      (mapped : List String) (ms : List Mount)
      → Covers mapped sized
      → AllMounted all ms
      → All (IsSized declared) (mount_claims mapped ms)
  unfolding mount_claims
  mount_claims-IsSized mapped [] h k = tt
  mount_claims-IsSized mapped (m ∷ ms) h k = elim (Bool-cases (is_in m.name mapped)) [
    | inl e ↦ rw (e, mount_claims) (mount_claims-IsSized mapped ms h k.1)
    | inr e ↦
        rw (e, mount_claims)
          (
            declares-volume_parameters m.name system_volumes sized all (h m.name e).0 (h m.name e).1
                k.0,
            mount_claims-IsSized (m.name ∷ mapped) ms (Covers-cons m.name mapped sized h) k.1,
          )
  ]

-- A claim template that leaves its size open is mounted by a container under a name that is not one of
-- the system's, and no claim template of its name has a size.
pub record IsMounted (spec : WorkspaceSpec) (v : ClaimTemplate) : Type 0 where
  pub mounted : v.requests ≡ none → is_mounted v.name (all_mounts spec.containers) ≡ true
  pub user_volume : v.requests ≡ none → is_in v.name system_volumes ≡ false
  pub unsized : v.requests ≡ none → is_in v.name (storage_is_set spec.claim_templates) ≡ false

module _ (spec : WorkspaceSpec) where
  abbrev spec_parameters : List Parameter
  spec_parameters =
      volume_parameters system_volumes (storage_is_set spec.claim_templates)
        (all_mounts spec.containers)

  claim_of-IsSized : (v : ClaimTemplate) → IsMounted spec v → IsSized spec_parameters (claim_of v)
  unfolding claim_of
  claim_of-IsSized v h = by_requests v.requests refl
    where
      by_requests :
          (r : Option (Map String))
          → v.requests ≡ r
          → IsSizedBy spec_parameters (elim r [
            | none ↦ dynamic (size_name v.name)
            | some m ↦ fixed (Base.lookup "storage" m)
          ])
      by_requests (some m) e = tt
      by_requests none e =
          declares-volume_parameters v.name system_volumes (storage_is_set spec.claim_templates)
            (all_mounts spec.containers) (h.user_volume e) (h.unsized e) (h.mounted e)

  user_claims-IsSized :
      (mapped : List String) (vs : List ClaimTemplate)
      → All (IsMounted spec) vs
      → All (IsSized spec_parameters) (user_claims mapped vs).0
  unfolding user_claims
  user_claims-IsSized mapped [] h = tt
  user_claims-IsSized mapped (v ∷ vs) h = elim (Bool-cases (is_in v.name mapped)) [
    | inl e ↦ rw (e, user_claims) (user_claims-IsSized mapped vs h.1)
    | inr e ↦
        rw (e, user_claims) (claim_of-IsSized v h.0, user_claims-IsSized (v.name ∷ mapped) vs h.1)
  ]

-- every name of a claim template is mapped after the first loop
user_claims-mapped :
    (n : String) (mapped : List String) (vs : List ClaimTemplate)
    → is_in n (user_claims mapped vs).1 ≡ false
    → (is_in n mapped ≡ false) × (is_in n (storage_is_set vs) ≡ false)
unfolding user_claims storage_is_set is_in
user_claims-mapped n mapped [] h = (h, refl)
user_claims-mapped n mapped (v ∷ vs) h = elim (Bool-cases (is_in v.name mapped)) [
  | inl e ↦
      let rest = user_claims-mapped n mapped vs (rw (e, user_claims) at h) in
      (rest.0, ground (arith, rest.0, rest.1, eq_iff v.name n, e))
  | inr e ↦
      let rest = user_claims-mapped n (v.name ∷ mapped) vs (rw (e, user_claims) at h) in
      (ground (arith, rest.0), ground (arith, rest.0, rest.1))
]

is_in-append :
    (n : String) (xs ys : List String)
    → is_in n (xs ++ ys) ≡ false
    → (is_in n xs ≡ false) × (is_in n ys ≡ false)
unfolding is_in
is_in-append n [] ys h = (refl, h)
is_in-append n (x ∷ xs) ys h = ground (arith, is_in-append n xs ys)

self-mounted :
    (ms all : List Mount)
    → ((m : Mount) → is_mounted m.name ms ≡ true → is_mounted m.name all ≡ true)
    → AllMounted all ms
self-mounted [] all h = tt
self-mounted (m ∷ ms) all h =
    (h m (ground (arith, eq_iff m.name m.name)), self-mounted ms all (λ x e. h x (ground arith)))

IsSized-weaken :
    (ps qs : List Parameter) (cs : List Claim) → All (IsSized qs) cs → All (IsSized (ps ++ qs)) cs
IsSized-weaken ps qs [] h = tt
IsSized-weaken ps qs (c ∷ cs) h = (wider c.storage h.0, IsSized-weaken ps qs cs h.1)
  where
    wider : (s : Storage) → IsSizedBy qs s → IsSizedBy (ps ++ qs) s
    wider (fixed q) k = tt
    wider (dynamic n) k = declares-append n ps qs k

arguments-eq-ok :
    (spec spec' : WorkspaceSpec) (config : Map String) (options : Result (List ParameterOption))
    → generate_arguments spec config options ≡ ok spec'
    → (ps : List Parameter) × (spec'.arguments ≡ some (ps ++ spec_parameters spec))
      × (spec'.containers ≡ spec.containers)
      × (spec'.claim_templates ≡ spec.claim_templates)
unfolding generate_arguments
arguments-eq-ok spec spec' config options e =
    let (runtime, p, q) = >>=-eq-ok (generate_runtime_parameters config options) _ e in
    (
      (system_parameters ++ runtime) ++ own_arguments spec,
      sym (ap arguments_of q),
      sym (ap containers_of q),
      sym (ap templates_of q),
    )
  where
    arguments_of : Result WorkspaceSpec → Option (List Parameter)
    arguments_of (ok s) = s.arguments
    arguments_of (err x) = none

    containers_of : Result WorkspaceSpec → List Container
    containers_of (ok s) = s.containers
    containers_of (err x) = []

    templates_of : Result WorkspaceSpec → List ClaimTemplate
    templates_of (ok s) = s.claim_templates
    templates_of (err x) = []

-- When the arguments of a workspace template are generated, and each claim template that leaves its size
-- open is mounted by a container under a name that is not one of the system's and that no claim template
-- with a size has, then every volume claim of the stateful set has a fixed size, or refers to a parameter
-- that is among the generated arguments.
pub create_stateful_set-IsSized :
    (spec spec' : WorkspaceSpec) (config : Map String) (options : Result (List ParameterOption))
    → generate_arguments spec config options ≡ ok spec'
    → All (IsMounted spec) spec.claim_templates
    → (ps : List Parameter) × (spec'.arguments ≡ some ps)
      × All (IsSized ps) (create_stateful_set spec').0
unfolding create_stateful_set
create_stateful_set-IsSized spec spec' config options e h =
    let (ps, a, c, t) = arguments-eq-ok spec spec' config options e in
    let user = user_claims [] spec.claim_templates in
    let covers : Covers (system_volumes ++ user.1) (storage_is_set spec.claim_templates) = λ n k.
      let outside = is_in-append n system_volumes user.1 k in
      (outside.0, (user_claims-mapped n [] spec.claim_templates outside.1).1) in
    (
      ps ++ spec_parameters spec,
      a,
      rw (c, t)
          (IsSized-weaken ps (spec_parameters spec) _ (
            All-append (IsSized (spec_parameters spec)) user.0 _
              (user_claims-IsSized spec [] spec.claim_templates h)
              (mount_claims-IsSized (storage_is_set spec.claim_templates)
                (all_mounts spec.containers) (system_volumes ++ user.1) (all_mounts spec.containers)
                covers
                (self-mounted (all_mounts spec.containers) (all_mounts spec.containers)
                  (λ m k. k))))),
    )

-- ===== src/Auth/Authority.antt =====
-- The workspace and the namespace of an original authority, as UnaryInterceptor of server/auth/auth.go
-- reads them, for the host that pkg/workspace.go gives to a workspace.
use Prim.Native.Char.{Char, code}
use text.Mathlib.TextLemmas.{nil-append, cons-append, append_assoc}
use onepanel.Base.{
  String, Bool, true, false, not, ◌&&◌, ◌≡◌, refl, ap, ◌∙◌, Option, none, some, List, [], ◌∷◌, ◌⊕◌,
  arith, Lacks, Lacks-append, nat_eq, split, split-cons, push, if◌then◌else◌, Bool-cases, inl, inr,
}
use onepanel.Workspace.Update.{host_of}
use onepanel.Workspace.Slug.{split-host_of}

unfoldable pub is_dash : Char → Bool
is_dash c = nat_eq (code c) (code "-")

abbrev put_back : Option Char → List String → List String
put_back none ws = ws
put_back (some d) ws = push d ws

-- strings.Split(s, "--"); a dash that is not yet part of a separator is pending
unfoldable pub split_dashes : Option Char → String → List String
unfolding is_dash
split_dashes pending String.[] = put_back pending (String.[] ∷ [])
split_dashes pending (String.◌∷◌ c s) =
    let first_dash = split_dashes (some c) s in
    let rest = split_dashes none s in
    if is_dash c
    then elim pending [ none ↦ first_dash | some _ ↦ String.[] ∷ rest ]
    else put_back pending (push c rest)

-- `workspaceAndNamespace`, or nothing without a dot
abbrev pub before_dot : List String → Option String
before_dot (w ∷ _ ∷ _) = some w
before_dot _ = none

abbrev pub last_of : String → List String → String
last_of w [] = w
last_of _ (w ∷ ws) = last_of w ws

-- the first and the last piece, if there are two
abbrev pub ends : List String → Option (String × String)
ends (w ∷ v ∷ ws) = some (w, last_of v ws)
ends _ = none

unfoldable pub parse_authority : String → Option (String × String)
unfolding split split_dashes
parse_authority x = elim (before_dot (split "." x)) [
  | none ↦ none
  | some w ↦ ends (split_dashes none w)
]

-- no two dashes stand next to each other, and none at the end; the flag says that one stood before
abbrev pub is_clean : Bool → String → Bool
is_clean dash String.[] = not dash
is_clean dash (String.◌∷◌ c s) =
    let after = is_clean true s in
    let rest = is_clean false s in if nat_eq (code c) (code "-") then not dash && after else rest

abbrev is_pending : Option Char → Bool
is_pending none = false
is_pending (some _) = true

abbrev with_pending : Option Char → String → String
with_pending none s = s
with_pending (some d) s = String.◌∷◌ d s

split_dashes-clean :
    (pending : Option Char) (s : String)
    → is_clean (is_pending pending) s ≡ true
    → split_dashes pending s ≡ with_pending pending s ∷ []
unfolding split_dashes is_dash
split_dashes-clean none String.[] h = refl
split_dashes-clean (some d) String.[] h = absurd (cc)
split_dashes-clean none (String.◌∷◌ c s) h = elim (Bool-cases (is_dash c)) [
  | inl e ↦ rw e (split_dashes-clean (some c) s (ground arith))
  | inr e ↦ rw e (ap (push c) (split_dashes-clean none s (ground arith)))
]
split_dashes-clean (some d) (String.◌∷◌ c s) h = elim (Bool-cases (is_dash c)) [
  | inl e ↦ absurd (ground arith)
  | inr e ↦ rw e (ap (λ ws. push d (push c ws)) (split_dashes-clean none s (ground arith)))
]

split_dashes-append :
    (pending : Option Char) (s t : String)
    → is_clean (is_pending pending) s ≡ true
    → split_dashes pending (s ⊕ ("--" ⊕ t)) ≡ with_pending pending s ∷ split_dashes none t
unfolding split_dashes is_dash
split_dashes-append none String.[] t h = rw nil-append (dashes t)
  where
    dashes : (t : String) → split_dashes none ("--" ⊕ t) ≡ String.[] ∷ split_dashes none t
    dashes t = rw (cons-append "-" "-" t) (rw (cons-append "-" String.[] t) (rw nil-append refl))
split_dashes-append (some d) String.[] t h = absurd (cc)
split_dashes-append none (String.◌∷◌ c s) t h = rw cons-append (elim (Bool-cases (is_dash c)) [
  | inl e ↦ rw e (split_dashes-append (some c) s t (ground arith))
  | inr e ↦ rw e (ap (push c) (split_dashes-append none s t (ground arith)))
])
split_dashes-append (some d) (String.◌∷◌ c s) t h = rw cons-append (elim (Bool-cases (is_dash c)) [
  | inl e ↦ absurd (ground arith)
  | inr e ↦ rw e (ap (λ ws. push d (push c ws)) (split_dashes-append none s t (ground arith)))
])

before_dot-host :
    (uid namespace domain : String)
    → Lacks "." uid
    → Lacks "." namespace
    → before_dot (split "." (host_of uid namespace domain)) ≡ some (uid ⊕ ("--" ⊕ namespace))
before_dot-host uid namespace domain h k =
    let (w, ws, p) = split-cons "." domain in
    rw (split-host_of uid namespace domain h k) (rw p refl)

parse_pieces :
    (uid namespace domain : String)
    → Lacks "." uid
    → Lacks "." namespace
    → parse_authority (host_of uid namespace domain)
      ≡ ends (split_dashes none (uid ⊕ ("--" ⊕ namespace)))
unfolding parse_authority
parse_pieces uid namespace domain h k =
    rw (before_dot-host uid namespace domain h k, parse_authority) refl

-- The authority of a workspace's host gives back the workspace and the namespace, if neither has a dot,
-- two dashes next to each other, or a dash at the end.
pub parse_authority-host_of :
    (uid namespace domain : String)
    → Lacks "." uid
    → Lacks "." namespace
    → is_clean false uid ≡ true
    → is_clean false namespace ≡ true
    → parse_authority (host_of uid namespace domain) ≡ some (uid, namespace)
parse_authority-host_of uid namespace domain h k c d =
    parse_pieces uid namespace domain h k
    ∙ ap ends (
        split_dashes-append none uid namespace c
        ∙ ap (λ ws. uid ∷ ws) (split_dashes-clean none namespace d))

-- The authority of the host of a workspace whose uid has two dashes next to each other gives another
-- workspace: that of the part before them. The two parts of the uid and the namespace have no dot, no two
-- dashes next to each other, and no dash at the end.
pub parse_authority_dashes :
    (first second namespace domain : String)
    → Lacks "." first
    → Lacks "." second
    → Lacks "." namespace
    → is_clean false first ≡ true
    → is_clean false second ≡ true
    → is_clean false namespace ≡ true
    → parse_authority (host_of (first ⊕ "--" ⊕ second) namespace domain) ≡ some (first, namespace)
parse_authority_dashes first second namespace domain h i k c e d =
    parse_pieces (first ⊕ "--" ⊕ second) namespace domain
      (Lacks-append "." first ("--" ⊕ second) h (Lacks-append "." "--" second (refl, (refl, tt)) i))
      k
    ∙ ap ends (
        ap (split_dashes none) (
          append_assoc first ("--" ⊕ second) ("--" ⊕ namespace)
          ∙ ap (λ s. first ⊕ s) (append_assoc "--" second ("--" ⊕ namespace)))
        ∙ split_dashes-append none first (second ⊕ ("--" ⊕ namespace)) c
        ∙ ap (λ ws. first ∷ ws)
            (split_dashes-append none second namespace e
              ∙ ap (λ ws. second ∷ ws) (split_dashes-clean none namespace d)))

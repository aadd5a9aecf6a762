-- ===== src/Auth/Token.antt =====
-- getBearerToken of server/auth/auth.go.
use Prim.Native.Char.{Char}
use Prim.Native.String.{len}
use mathlib.Core.Bool.{false≢true}
use text.Mathlib.TextEquality.{starts_with_iff}
use text.Mathlib.TextPositions.{starts_with-append}
use text.Mathlib.TextLemmas.{nil-append, cons-append}
use onepanel.Base.{
  subst, ℕ, zero, suc, ◌-◌, String, true, false, ◌≡◌, refl, ap, sym, ◌∙◌, Option, none, some, List,
  [], ◌∷◌, ◌==◌, ◌⊕◌, starts_with, Lacks, if◌then◌else◌, Bool-cases, inl, inr,
}

-- `metadata.MD`: the values of a key
abbrev pub Metadata : Type 0
Metadata = String → List String

abbrev pub prefix : String
prefix = "Bearer "

-- strings.ReplaceAll(s, p, "") for a text `p` that is not empty; the number is that of the characters that
-- are still to be dropped
unfoldable pub drop_all : String → ℕ → String → String
drop_all p n String.[] = String.[]
drop_all p (suc n) (String.◌∷◌ c s) = drop_all p n s
drop_all p zero (String.◌∷◌ c s) = elim (starts_with (String.◌∷◌ c s) p) [
  | true ↦ drop_all p (len p - 1) s
  | false ↦ String.◌∷◌ c (drop_all p zero s)
]

-- the body of the loop on the values of `authorization`, which always returns
unfoldable pub bearer_of : String → Option String
unfolding drop_all
bearer_of t =
    let token = drop_all prefix 0 t in
    if starts_with t prefix then (if token == "null" then none else some token) else none

abbrev pub first : List String → Option String
first [] = none
first (t ∷ _) = some t

-- the loop on the cookies; `cookie` parses one and looks up `auth-token`
unfoldable pub first_cookie : (String → Option String) → List String → Option String
first_cookie cookie [] = none
first_cookie cookie (c ∷ cs) = elim (cookie c) [ some t ↦ some t | none ↦ first_cookie cookie cs ]

abbrev pub or_else : Option String → Option String → Option String
or_else (some t) o = some t
or_else none o = o

-- getBearerToken; `none` is a context without metadata
unfoldable pub get_bearer_token : (String → Option String) → Option Metadata → Option String
unfolding bearer_of first_cookie
get_bearer_token cookie none = none
get_bearer_token cookie (some md) = elim (md "authorization") [
  | t ∷ _ ↦ bearer_of t
  | [] ↦
      or_else (first_cookie cookie (md "grpcgateway-cookie"))
        (or_else (first (md "onepanel-auth-token")) (first (md "onepanel-access-token")))
]

Lacks-left : (sep : Char) (s t : String) → Lacks sep (s ⊕ t) → Lacks sep s
Lacks-left sep String.[] t h = tt
Lacks-left sep (String.◌∷◌ c s) t h =
    let split_up : Lacks sep (String.◌∷◌ c (s ⊕ t)) = rw cons-append at h in
    (split_up.0, Lacks-left sep s t split_up.1)

has_space : Lacks " " prefix → ⊥
has_space h = absurd (false≢true (sym h.1.1.1.1.1.1.0))

no_prefix : (s : String) → Lacks " " s → starts_with s prefix ≡ false
no_prefix s h = elim (Bool-cases (starts_with s prefix)) [
  | inr e ↦ e
  | inl e ↦
      let (r, is) = (starts_with_iff s prefix).0 e in
      absurd (has_space (Lacks-left " " prefix r (subst (Lacks " ") (sym is) h)))
]

drop_all-keep :
    (p : String) (c : Char) (s : String)
    → starts_with (String.◌∷◌ c s) p ≡ false
    → drop_all p 0 (String.◌∷◌ c s) ≡ String.◌∷◌ c (drop_all p 0 s)
unfolding drop_all
drop_all-keep p c s h = rw (h, drop_all) refl

drop_all-drop :
    (p : String) (c : Char) (s : String)
    → starts_with (String.◌∷◌ c s) p ≡ true
    → drop_all p 0 (String.◌∷◌ c s) ≡ drop_all p (len p - 1) s
unfolding drop_all
drop_all-drop p c s h = rw (h, drop_all) refl

drop_all-Lacks : (s : String) → Lacks " " s → drop_all prefix 0 s ≡ s
unfolding drop_all
drop_all-Lacks String.[] h = refl
drop_all-Lacks (String.◌∷◌ c s) h =
    drop_all-keep prefix c s (no_prefix (String.◌∷◌ c s) h)
    ∙ ap (String.◌∷◌ c) (drop_all-Lacks s h.1)

abbrev chars : String → ℕ
chars String.[] = 0
chars (String.◌∷◌ c s) = suc (chars s)

drop_all-chars : (p w s : String) → drop_all p (chars w) (w ⊕ s) ≡ drop_all p 0 s
unfolding drop_all
drop_all-chars p String.[] s = rw nil-append
drop_all-chars p (String.◌∷◌ c w) s = rw cons-append (drop_all-chars p w s)

drop_all-prefix : (s : String) → drop_all prefix 0 (prefix ⊕ s) ≡ drop_all prefix 0 s
drop_all-prefix s =
    let cons : prefix ⊕ s ≡ String.◌∷◌ "B" ("earer " ⊕ s) = cons-append "B" "earer " s in
    rw cons (
      drop_all-drop prefix "B" ("earer " ⊕ s) (rw (← cons) (starts_with-append prefix s))
      ∙ drop_all-chars prefix "earer " s)

-- A request whose first `authorization` value is `Bearer ` and a token without a space has this token,
-- unless the token is the text `null`, with which it has none. No other source of a token is read then.
pub get_bearer_token_bearer :
    (cookie : String → Option String) (md : Metadata) (token : String) (rest : List String)
    → md "authorization" ≡ ((prefix ⊕ token) ∷ rest)
    → Lacks " " token
    → get_bearer_token cookie (some md) ≡ (if token == "null" then none else some token)
unfolding get_bearer_token bearer_of
get_bearer_token_bearer cookie md token rest e h = rw e (
    rw (starts_with-append prefix token) (rw (drop_all-prefix token ∙ drop_all-Lacks token h) refl))

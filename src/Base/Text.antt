-- ===== src/Base/Text.antt =====
-- Go's `strings` on the native texts, as far as the program uses it. `Split` and `Join` take a
-- separator of one character, given by its code; lengths and positions count bytes.
use Prim.Native.Char.{Char, code}
use Prim.Native.String.{String, ◌++◌, len, slice}
use mathlib.Core.Logic.{inl, inr}
use mathlib.Core.Option.{Option, none, some}
use mathlib.Core.Path.{◌≡◌, refl, ap}
use mathlib.Core.Bool.{Bool, true, false}
use mathlib.Core.List.{List, [], ◌∷◌}
use native.Mathlib.Omega.{arith}
use text.Mathlib.Text.{find?}
use text.Mathlib.TextLemmas.{nil-append, cons-append}
use text.Mathlib.TextEquality.{codes_equal}
use text.Mathlib.TextPositions.{len-append, slice-append_right}
use onepanel.Base.Tests.{nat_eq, if◌then◌else◌, ltb, Bool-cases}

infixr 66 ◌⊕◌
abbrev pub ◌⊕◌ : String → String → String
s ⊕ t = s ++ t

-- one more character in front of the first part
abbrev pub push : Char → List String → List String
push c [] = String.◌∷◌ c String.[] ∷ []
push c (w ∷ ws) = String.◌∷◌ c w ∷ ws

-- strings.Split(s, sep)
unfoldable pub split : Char → String → List String
split sep String.[] = String.[] ∷ []
split sep (String.◌∷◌ c s) =
    let rest = split sep s in if nat_eq (code c) (code sep) then String.[] ∷ rest else push c rest

-- strings.Join(parts, sep)
unfoldable pub join : Char → List String → String
join sep [] = String.[]
join sep (p ∷ []) = p
join sep (p ∷ q ∷ ps) = p ⊕ String.◌∷◌ sep (join sep (q ∷ ps))

-- strings.ToLower on the letters A to Z; a letter outside ASCII is left as it is
unfoldable pub lower_in : String → String → Char → Char
lower_in String.[] _ c = c
lower_in (String.◌∷◌ u us) String.[] c = c
lower_in (String.◌∷◌ u us) (String.◌∷◌ l ls) c =
    let rest = lower_in us ls c in if nat_eq (code c) (code u) then l else rest

unfoldable pub lower_char : Char → Char
unfolding lower_in
lower_char c = lower_in "ABCDEFGHIJKLMNOPQRSTUVWXYZ" "abcdefghijklmnopqrstuvwxyz" c

unfoldable pub to_lower : String → String
unfolding lower_char
to_lower String.[] = String.[]
to_lower (String.◌∷◌ c s) = String.◌∷◌ (lower_char c) (to_lower s)

-- key[len(prefix):]; `none` is the run-time panic of a slice that starts behind the end
unfoldable pub strip : String → String → Option String
strip prefix key =
    if ltb (len key) (len prefix) then none else some (slice key (len prefix) (len key))

pub strip-append : (p s : String) → strip p (p ⊕ s) ≡ some s
unfolding strip
strip-append p s = rw len-append (rw slice-append_right (ground arith))

pub split-cons :
    (sep : Char) (s : String) → (w : String) × (ws : List String) × (split sep s ≡ w ∷ ws)
unfolding split
split-cons sep String.[] = (String.[], [], refl)
split-cons sep (String.◌∷◌ c s) = elim (Bool-cases (nat_eq (code c) (code sep))) [
  | inl e ↦ (String.[], split sep s, rw e)
  | inr e ↦ let (w, ws, p) = split-cons sep s in (String.◌∷◌ c w, ws, rw (e, p))
]

join-push :
    (sep c : Char) (w : String) (ws : List String)
    → join sep (push c (w ∷ ws)) ≡ String.◌∷◌ c (join sep (w ∷ ws))
unfolding join
join-push sep c w [] = refl
join-push sep c w (v ∷ ws) = cons-append c w _

split-cons_step :
    (sep c : Char) (s w : String) (ws : List String)
    → split sep s ≡ w ∷ ws
    → join sep (w ∷ ws) ≡ s
    → join sep (split sep (String.◌∷◌ c s)) ≡ String.◌∷◌ c s
split-cons_step sep c s w ws p ih = elim (Bool-cases (nat_eq (code c) (code sep))) [
  | inl e ↦
      unfold split in
      rw (e, p) (unfold join in rw nil-append (cc (ih, codes_equal c sep (ground arith))))
  | inr e ↦ unfold split in rw (e, p) (rw join-push (ap (String.◌∷◌ c) ih))
]

-- joining the parts of a split gives the text back
pub join-split : (sep : Char) (s : String) → join sep (split sep s) ≡ s
join-split sep String.[] = unfold split join in refl
join-split sep (String.◌∷◌ c s) =
    let (w, ws, p) = split-cons sep s in split-cons_step sep c s w ws p (rw p at (join-split sep s))

-- strings.Contains(s, t)
unfoldable pub contains : String → String → Bool
contains s t = elim (find? s t) [ none ↦ false | some _ ↦ true ]

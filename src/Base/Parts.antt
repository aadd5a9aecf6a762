-- ===== src/Base/Parts.antt =====
-- Splitting a join gives the parts back, if no part has the separator.
use Prim.Native.Char.{Char, code}
use Prim.Native.String.{String}
use mathlib.Core.Path.{◌≡◌, refl, ap, ◌∙◌}
use mathlib.Core.Bool.{false}
use mathlib.Core.List.{List, [], ◌∷◌}
use text.Mathlib.TextLemmas.{nil-append, cons-append}
use mathlib.Core.Logic.{inl, inr}
use onepanel.Base.Tests.{nat_eq, nat_eq_iff, Bool-cases}
use onepanel.Base.Lists.{All}
use onepanel.Base.Text.{◌⊕◌, split, join, lower_in, lower_char, to_lower}

-- no character of the text is the separator
abbrev pub Lacks : Char → String → Type 0
Lacks sep String.[] = Unit
Lacks sep (String.◌∷◌ c s) = (nat_eq (code c) (code sep) ≡ false) × Lacks sep s

pub split_of_Lacks : (sep : Char) (s : String) → Lacks sep s → split sep s ≡ s ∷ []
unfolding split
split_of_Lacks sep String.[] h = refl
split_of_Lacks sep (String.◌∷◌ c s) h = rw (h.0, split_of_Lacks sep s h.1)

pub split-first :
    (sep : Char) (s rest : String)
    → Lacks sep s
    → split sep (s ⊕ String.◌∷◌ sep rest) ≡ s ∷ split sep rest
unfolding split
split-first sep String.[] rest h = rw nil-append (rw ((nat_eq_iff (code sep) (code sep)).1 refl))
split-first sep (String.◌∷◌ c s) rest h = rw cons-append (rw (h.0, split-first sep s rest h.1))

pub split-join :
    (sep : Char) (p : String) (ps : List String)
    → All (Lacks sep) (p ∷ ps)
    → split sep (join sep (p ∷ ps)) ≡ p ∷ ps
unfolding join
split-join sep p [] h = split_of_Lacks sep p h.0
split-join sep p (q ∷ ps) h =
    split-first sep p (join sep (q ∷ ps)) h.0
    ∙ ap (λ (r : List String). p ∷ r) (split-join sep q ps h.1)

pub Lacks-append : (sep : Char) (s t : String) → Lacks sep s → Lacks sep t → Lacks sep (s ⊕ t)
Lacks-append sep String.[] t h k = rw nil-append k
Lacks-append sep (String.◌∷◌ c s) t h k = rw cons-append (h.0, Lacks-append sep s t h.1 k)

pub Lacks-join :
    (c sep : Char) (ps : List String)
    → nat_eq (code sep) (code c) ≡ false
    → All (Lacks c) ps
    → Lacks c (join sep ps)
unfolding join
Lacks-join c sep [] h k = tt
Lacks-join c sep (p ∷ []) h k = k.0
Lacks-join c sep (p ∷ q ∷ ps) h k = Lacks-append c p _ k.0 (h, Lacks-join c sep (q ∷ ps) h k.1)

lower_in-Lacks :
    (sep : Char) (us ls : String) (c : Char)
    → Lacks sep ls
    → nat_eq (code c) (code sep) ≡ false
    → nat_eq (code (lower_in us ls c)) (code sep) ≡ false
unfolding lower_in
lower_in-Lacks sep String.[] ls c h k = k
lower_in-Lacks sep (String.◌∷◌ u us) String.[] c h k = k
lower_in-Lacks sep (String.◌∷◌ u us) (String.◌∷◌ l ls) c h k =
    elim (Bool-cases (nat_eq (code c) (code u))) [
      | inl e ↦ rw e h.0
      | inr e ↦ rw e (lower_in-Lacks sep us ls c h.1 k)
    ]

-- a separator that is no small letter stays away
pub to_lower-Lacks :
    (sep : Char) (s : String)
    → Lacks sep "abcdefghijklmnopqrstuvwxyz"
    → Lacks sep s
    → Lacks sep (to_lower s)
unfolding to_lower lower_char
to_lower-Lacks sep String.[] h k = tt
to_lower-Lacks sep (String.◌∷◌ c s) h k = (
  lower_in-Lacks sep "ABCDEFGHIJKLMNOPQRSTUVWXYZ" "abcdefghijklmnopqrstuvwxyz" c h k.0,
  to_lower-Lacks sep s h k.1,
)

-- ===== src/Listing/Sort.antt =====
-- The ORDER BY terms that the criteria of a request give.
use onepanel.Base.{
  String, true, ◌≡◌, refl, ◌⊎◌, inl, inr, some, List, [], ◌∷◌, ◌==◌, ◌⊕◌, arith, Map, lookup, any,
  All, eq_iff, ok, to_lower, split, Bool-cases, Option-cases, Result-cases,
}
use onepanel.Listing.{
  Order, order_of_parts, parse_order, parse_orders, new_criteria, workspace_columns, null_sort,
  order_by, list_order,
}

abbrev pub IsDirection : String → Type 0
IsDirection d = (d ≡ "asc") ⊎ (d ≡ "desc")

-- a term of a column of the table and one of the two directions
abbrev pub IsTerm : String → Type 0
IsTerm t =
    (column : String) × (direction : String) × (any (λ (_, c). c == column) workspace_columns
      ≡ true)
    × IsDirection direction
    × (t ≡ "w." ⊕ column ⊕ " " ⊕ direction ⊕ " " ⊕ null_sort direction)

order_of_parts-IsDirection :
    (item : String) (parts : List String) (o : Order)
    → order_of_parts item parts ≡ ok o
    → IsDirection o.direction
unfolding order_of_parts
order_of_parts-IsDirection item (property ∷ direction ∷ []) o e =
    elim (Bool-cases (to_lower direction == "asc")) [
      | inl c ↦ inl (ground (arith, (eq_iff (to_lower direction) "asc").0 c))
      | inr c ↦ elim (Bool-cases (to_lower direction == "desc")) [
        | inl d ↦ inr (ground (arith, (eq_iff (to_lower direction) "desc").0 d))
        | inr d ↦ absurd (ground arith)
      ]
    ]
order_of_parts-IsDirection item [] o e = absurd (cc)
order_of_parts-IsDirection item (_ ∷ []) o e = absurd (cc)
order_of_parts-IsDirection item (_ ∷ _ ∷ _ ∷ _) o e = absurd (cc)

abbrev Directed : Order → Type 0
Directed o = IsDirection o.direction

parse_orders-Directed :
    (items : List String) (os : List Order) → parse_orders items ≡ ok os → All Directed os
unfolding parse_orders parse_order
parse_orders-Directed [] os e = let same : [] ≡ os = ground arith in rw (← same) tt
parse_orders-Directed (item ∷ items) os e = elim (Result-cases (parse_order item)) [
  | inr (x, c) ↦ absurd (ground arith)
  | inl (o, c) ↦ elim (Result-cases (parse_orders items)) [
    | inr (x, d) ↦ absurd (ground arith)
    | inl (rest, d) ↦
        let same : o ∷ rest ≡ os = ground arith in
        rw (← same)
          (order_of_parts-IsDirection item (split "," item) o c, parse_orders-Directed items rest d)
  ]
]

lookup-any : (k v : String) (m : Map String) → lookup k m ≡ some v → any (λ (_, c). c == v) m ≡ true
unfolding lookup
lookup-any k v [] h = absurd (cc)
lookup-any k v ((j, w) ∷ m) h = ground (arith, eq_iff w v, lookup-any k v m)

order_by-IsTerm : (os : List Order) → All Directed os → All IsTerm (order_by os)
unfolding order_by
order_by-IsTerm [] h = tt
order_by-IsTerm (o ∷ os) h = elim (Option-cases (lookup o.property workspace_columns)) [
  | inl c ↦ rw (c, order_by) (order_by-IsTerm os h.1)
  | inr (column, c) ↦
      rw (c, order_by)
        (
          (column, o.direction, lookup-any o.property column workspace_columns c, h.0, refl),
          order_by-IsTerm os h.1,
        )
]

new_criteria-Directed :
    (text : String) (os : List Order) → new_criteria text ≡ ok os → All Directed os
unfolding new_criteria
new_criteria-Directed text os e = elim (Bool-cases (text == "")) [
  | inl c ↦ let same : [] ≡ os = ground arith in rw (← same) tt
  | inr c ↦ parse_orders-Directed (split ";" text) os (ground arith)
]

abbrev pub IsDefaultOrTerm : String → Type 0
IsDefaultOrTerm t = (t ≡ "w.created_at DESC") ⊎ IsTerm t

terms_default : (ts : List String) → All IsTerm ts → All IsDefaultOrTerm ts
terms_default [] h = tt
terms_default (t ∷ ts) h = (inr h.0, terms_default ts h.1)

-- Whatever text a request gives for the order, if it is accepted, each ORDER BY term of the list of
-- workspaces is the default one, or a column of the table with `asc` or `desc`.
pub list_order-IsDefaultOrTerm :
    (text : String) (os : List Order)
    → new_criteria text ≡ ok os
    → All IsDefaultOrTerm (list_order os)
unfolding list_order
list_order-IsDefaultOrTerm text [] e = (inl refl, tt)
list_order-IsDefaultOrTerm text (o ∷ os) e =
    terms_default (order_by (o ∷ os))
      (order_by-IsTerm (o ∷ os) (new_criteria-Directed text (o ∷ os) e))

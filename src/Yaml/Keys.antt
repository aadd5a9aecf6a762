-- ===== src/Yaml/Keys.antt =====
-- What SetKeyValue and DeleteNode leave under each key of a mapping node.
use onepanel.Base.{
  ℕ, String, true, ◌≡◌, ◌≢◌, refl, ap, ◌∙◌, inl, inr, some, List, [], ◌∷◌, arith, ok, Option-cases,
  Bool-cases, All, nat_eq, nat_eq_iff, eq_iff,
}
use onepanel.Yaml.{
  Heap, Cell, is_mapping, write_cell, find_value, set_key_value, has_pair, has_key_value,
  get_key_value,
}

-- the key nodes of a content
abbrev pub keys : List ℕ → List ℕ
keys [] = []
keys (k ∷ []) = []
keys (k ∷ v ∷ rest) = k ∷ keys rest

find_value-write :
    (h : Heap) (a : ℕ) (c : Cell) (key : String) (ns : List ℕ)
    → All (λ k. k ≢ a) (keys ns)
    → find_value (write_cell a c h) key ns ≡ find_value h key ns
unfolding find_value
find_value-write h a c key [] e = refl
find_value-write h a c key (k ∷ []) e = refl
find_value-write h a c key (k ∷ v ∷ rest) e =
    ground (arith, nat_eq_iff k a, e.0, find_value-write h a c key rest e.1)

has_pair-found :
    (h : Heap) (key value : String) (v : ℕ) (ns : List ℕ)
    → find_value h key ns ≡ some v
    → (h v).value ≡ value
    → has_pair h key (value ∷ []) ns ≡ true
unfolding find_value has_pair
has_pair-found h key value v [] e s = absurd (cc)
has_pair-found h key value v (k ∷ []) e s = absurd (cc)
has_pair-found h key value v (k ∷ w ∷ rest) e s =
    ground (arith, eq_iff (h w).value value, has_pair-found h key value v rest)

-- what a write of the value of a key does
pub record IsKeyValue (h : Heap) (node v : ℕ) (key value : String) (h' : Heap) : Type 0 where
  pub written : (h' v).value ≡ value
  pub others : (a : ℕ) → a ≢ v → h' a ≡ h a
  pub shape : ((h' v).kind ≡ (h v).kind) × ((h' v).content ≡ (h v).content)
  pub same_keys : (k : String) → get_key_value h' node k ≡ get_key_value h node k
  pub has : has_key_value h' node key (value ∷ []) ≡ ok true

get_key_value-found :
    (h : Heap) (node v : ℕ) (key : String)
    → get_key_value h node key ≡ ok v
    → (is_mapping (h node) ≡ true) × (find_value h key (h node).content ≡ some v)
unfolding get_key_value
get_key_value-found h node v key e = elim (Option-cases (find_value h key (h node).content)) [
  | inl c ↦ absurd (ground arith)
  | inr (w, c) ↦ (ground arith, ground arith)
]

abbrev put : Heap → ℕ → String → Heap
put h v value = write_cell v (record (h v) { value = value }) h

put-shape :
    (h : Heap) (v : ℕ) (value : String) (a : ℕ)
    → (is_mapping (put h v value a) ≡ is_mapping (h a))
      × ((put h v value a).content ≡ (h a).content)
put-shape h v value a = elim (Bool-cases (nat_eq a v)) [
  | inl e ↦ let same : a ≡ v = (nat_eq_iff a v).0 e in (rw (e, same) refl, rw (e, same) refl)
  | inr e ↦ (rw e refl, rw e refl)
]

module _ (h : Heap) (node v : ℕ) (key value : String) where
  put-at : (put h v value v) ≡ record (h v) { value = value }
  put-at = ground (arith, nat_eq_iff v v)

  put-find :
      (k : String)
      → All (λ x. x ≢ v) (keys (h node).content)
      → find_value (put h v value) k (put h v value node).content ≡ find_value h k (h node).content
  put-find k apart =
      rw (put-shape h v value node).1
        (find_value-write h v (record (h v) { value = value }) k (h node).content apart)

-- When `GetKeyValue` finds a node for a key, and that node is none of the key nodes, `SetKeyValue`
-- returns no error, gives the node the new value and changes no other node and nothing else of it; then
-- `GetKeyValue` finds under every key what it found before, and `HasKeyValue` finds the new value.
pub set_key_value-IsKeyValue :
    (h : Heap) (node v : ℕ) (key value : String)
    → get_key_value h node key ≡ ok v
    → All (λ k. k ≢ v) (keys (h node).content)
    → (h' : Heap) × (set_key_value h node key value ≡ ok h') × IsKeyValue h node v key value h'
unfolding set_key_value get_key_value has_key_value
set_key_value-IsKeyValue h node v key value e apart =
    let (m, found) = get_key_value-found h node v key e in
    (
      put h v value,
      rw (m, found) refl,
      record {
        written = rw (put-at h node v key value) refl;
        others = λ a ne. ground (arith, nat_eq_iff a v);
        shape = (rw (put-at h node v key value) refl, rw (put-at h node v key value) refl);
        same_keys =
            λ k. rw ((put-shape h v value node).0, put-find h node v key value k apart) refl;
        has =
            rw ((put-shape h v value node).0, m)
              (ap ok (
                has_pair-found (put h v value) key value v (put h v value node).content
                  (put-find h node v key value key apart ∙ found)
                  (rw (put-at h node v key value) refl)));
      },
    )

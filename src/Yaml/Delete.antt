-- ===== src/Yaml/Delete.antt =====
-- What DeleteNode leaves of a node.
use onepanel.Base.{
  ℕ, String, true, ◌≡◌, ◌≢◌, refl, ◌∙◌, inl, inr, none, some, List, [], ◌∷◌, ◌==◌, arith, Error,
  plain, ok, err, Option-cases, Result-cases, Bool-cases, All, any, nat_eq, nat_eq_iff, eq_iff,
  if◌then◌else◌,
}
use onepanel.Yaml.{
  Heap, is_mapping, write_cell, find_value, get_key_value, found_or, locate, kept_nodes,
  delete_located, delete_node,
}

-- the pairs of a content whose key is another
abbrev pub other_pairs : Heap → String → List ℕ → List ℕ
other_pairs h final [] = []
other_pairs h final (k ∷ []) = []
other_pairs h final (k ∷ v ∷ rest) =
    let kept = other_pairs h final rest in if (h k).value == final then kept else k ∷ v ∷ kept

kept_nodes-same :
    (h : Heap) (final : String) (ns : List ℕ)
    → kept_nodes h final ns ns ≡ ok (other_pairs h final ns)
unfolding kept_nodes
kept_nodes-same h final [] = refl
kept_nodes-same h final (k ∷ []) = refl
kept_nodes-same h final (k ∷ v ∷ rest) = ground (arith, kept_nodes-same h final rest)

find-deleted :
    (h : Heap) (final : String) (ns : List ℕ) → find_value h final (other_pairs h final ns) ≡ none
unfolding find_value
find-deleted h final [] = refl
find-deleted h final (k ∷ []) = refl
find-deleted h final (k ∷ v ∷ rest) = ground (arith, find-deleted h final rest)

find-other :
    (h : Heap) (final key : String) (ns : List ℕ)
    → key ≢ final
    → find_value h key (other_pairs h final ns) ≡ find_value h key ns
unfolding find_value
find-other h final key [] ne = refl
find-other h final key (k ∷ []) ne = refl
find-other h final key (k ∷ v ∷ rest) ne =
    ground (arith, eq_iff (h k).value key, eq_iff (h k).value final, find-other h final key rest ne)

-- the cells have the same values, so a key is looked up as before
find-values :
    (h h' : Heap) (key : String) (ns : List ℕ)
    → ((a : ℕ) → (h' a).value ≡ (h a).value)
    → find_value h' key ns ≡ find_value h key ns
unfolding find_value
find-values h h' key [] e = refl
find-values h h' key (k ∷ []) e = refl
find-values h h' key (k ∷ v ∷ rest) e = rw (e k) (ground (arith, find-values h h' key rest e))

abbrev cut : Heap → ℕ → List ℕ → Heap
cut h node ns = write_cell node (record (h node) { content = ns }) h

module _ (h : Heap) (node : ℕ) (ns : List ℕ) where
  cut-value : (a : ℕ) → (cut h node ns a).value ≡ (h a).value
  cut-value a = elim (Bool-cases (nat_eq a node)) [
    | inl e ↦ let same : a ≡ node = (nat_eq_iff a node).0 e in rw (e, same) refl
    | inr e ↦ rw e refl
  ]

  cut-at : cut h node ns node ≡ record (h node) { content = ns }
  cut-at = ground (arith, nat_eq_iff node node)

  cut-get :
      (key : String)
      → is_mapping (h node) ≡ true
      → get_key_value (cut h node ns) node key ≡ found_or (find_value h key ns)
  unfolding get_key_value
  cut-get key m = rw (cut-at, m, find-values h (cut h node ns) key ns cut-value) refl

abbrev missing : Error
missing = plain "not found"

delete_node-cut :
    (h : Heap) (node w : ℕ) (key : String)
    → is_mapping (h node) ≡ true
    → find_value h key (h node).content ≡ some w
    → delete_node h node (key ∷ []) ≡ ok (cut h node (other_pairs h key (h node).content))
unfolding delete_node
delete_node-cut h node w key m c =
    rw (m, locate, c, delete_located, kept_nodes-same h key (h node).content) refl

-- When `GetKeyValue` finds a node for a key of one part, `DeleteNode` of this key returns no error and
-- changes no other node; then `GetKeyValue` does not find the key, and finds under each other key what
-- it found before.
pub delete_node_one :
    (h : Heap) (node v : ℕ) (key : String)
    → get_key_value h node key ≡ ok v
    → (h' : Heap) × (delete_node h node (key ∷ []) ≡ ok h')
      × ((a : ℕ) → a ≢ node → h' a ≡ h a)
      × (get_key_value h' node key ≡ err (plain "not found"))
      × ((k : String) → k ≢ key → get_key_value h' node k ≡ get_key_value h node k)
unfolding get_key_value
delete_node_one h node v key e = elim (Bool-cases (is_mapping (h node))) [
  | inr m ↦ absurd (ground arith)
  | inl m ↦ elim (Option-cases (find_value h key (h node).content)) [
    | inl c ↦ absurd (ground arith)
    | inr (w, c) ↦ (
      cut h node (other_pairs h key (h node).content),
      delete_node-cut h node w key m c,
      (λ a ne. ground (arith, nat_eq_iff a node)),
      cut-get h node _ key m ∙ rw (find-deleted h key (h node).content) refl,
      λ k ne. cut-get h node _ k m ∙ rw (find-other h key k (h node).content ne, m) refl,
    )
  ]
]

-- the node is one of the list
abbrev pub In : List ℕ → ℕ → Type 0
In ns x = any (nat_eq x) ns ≡ true

In-more : (k v : ℕ) (rest ks : List ℕ) → All (In rest) ks → All (In (k ∷ v ∷ rest)) ks
In-more k v rest [] h = tt
In-more k v rest (x ∷ ks) h = (ground (arith, h.0), In-more k v rest ks h.1)

kept_nodes-In :
    (h : Heap) (final : String) (counted read ks : List ℕ)
    → kept_nodes h final counted read ≡ ok ks
    → All (In read) ks
unfolding kept_nodes
kept_nodes-In h final (_ ∷ _ ∷ counted) (k ∷ v ∷ read) ks e =
    elim (Result-cases (kept_nodes h final counted read)) [
      | inr (x, c) ↦ absurd (ground arith)
      | inl (rest, c) ↦
          let more = In-more k v read rest (kept_nodes-In h final counted read rest c) in
          elim (Bool-cases ((h k).value == final)) [
            | inl s ↦ let same : rest ≡ ks = ground arith in rw (← same) more
            | inr s ↦
                let same : k ∷ v ∷ rest ≡ ks = ground arith in
                rw (← same) (ground (arith, nat_eq_iff k k), (ground (arith, nat_eq_iff v v), more))
          ]
    ]
kept_nodes-In h final (_ ∷ _ ∷ counted) (k ∷ []) ks e = absurd (cc)
kept_nodes-In h final (_ ∷ _ ∷ counted) [] ks e = absurd (cc)
kept_nodes-In h final (_ ∷ []) read ks e = let same : [] ≡ ks = ground arith in rw (← same) tt
kept_nodes-In h final [] read ks e = let same : [] ≡ ks = ground arith in rw (← same) tt

cut_child :
    (h h' : Heap) (node v : ℕ) (second : String)
    → delete_located h node (ok (v, second)) ≡ ok h'
    → All (In (h node).content) (h' v).content
unfolding delete_located
cut_child h h' node v second d =
    elim (Result-cases (kept_nodes h second (h v).content (h node).content)) [
      | inr (x, k) ↦ absurd (ground arith)
      | inl (ks, k) ↦
          let same : cut h v ks ≡ h' = ground arith in
          rw (← same)
            (rw (cut-at h v ks) (kept_nodes-In h second (h v).content (h node).content ks k))
    ]

-- `DeleteNode` of a key of two parts, when the root has the first and its value node, has the
-- second: if it returns no error, every node that stands in the value node's content
-- afterwards is one of the root's own content.
pub delete_node_two :
    (h h' : Heap) (node v w : ℕ) (first second : String)
    → get_key_value h node first ≡ ok v
    → find_value h second (h v).content ≡ some w
    → delete_node h node (first ∷ second ∷ []) ≡ ok h'
    → All (In (h node).content) (h' v).content
unfolding delete_node locate get_key_value
delete_node_two h h' node v w first second e c d =
    elim (Option-cases (find_value h first (h node).content)) [
      | inl f ↦ absurd (ground arith)
      | inr (x, f) ↦
          let same : x ≡ v = ground arith in
          let found : find_value h first (h node).content ≡ some v = rw same at f in
          cut_child h h' node v second (ground (arith, found, c, d))
    ]

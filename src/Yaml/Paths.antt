-- ===== src/Yaml/Paths.antt =====
-- The lookup of a path of keys in a tree of nodes.
use onepanel.Base.{
  ℕ, String, true, ◌≡◌, refl, ◌↔◌, inl, inr, some, List, [], ◌∷◌, arith, ok, Option-cases,
}
use onepanel.Yaml.{Heap, find_value, only_child, has_path, has_node, get_path, get_node}

-- the part at which a lookup of a path stops, or the node that it ends at
abbrev pub Ends : Heap → ℕ → List String → ℕ → Type 0
Ends h node [] at = node ≡ at
Ends h node (k ∷ ks) at = (v : ℕ) × (find_value h k (h node).content ≡ some v) × Ends h v ks at

has_path-get :
    (h : Heap) (full : List String) (node : ℕ) (ks : List String)
    → has_path h node ks ≡ true
    → (at : ℕ) × (get_path h full node ks ≡ ok at) × Ends h node ks at
unfolding has_path get_path
has_path-get h full node [] e = (node, refl, refl)
has_path-get h full node (k ∷ ks) e = elim (Option-cases (find_value h k (h node).content)) [
  | inl c ↦ absurd (ground arith)
  | inr (v, c) ↦
      let (at, got, ends) = has_path-get h full v ks (ground arith) in
      (at, (rw (c, get_path) got), (v, c, ends))
]

get-has_path :
    (h : Heap) (full : List String) (node : ℕ) (ks : List String) (at : ℕ)
    → get_path h full node ks ≡ ok at
    → has_path h node ks ≡ true
unfolding has_path get_path
get-has_path h full node [] at e = refl
get-has_path h full node (k ∷ ks) at e = elim (Option-cases (find_value h k (h node).content)) [
  | inl c ↦ absurd (ground arith)
  | inr (v, c) ↦ rw (c, has_path) (get-has_path h full v ks at (ground arith))
]

abbrev start : Heap → ℕ → ℕ
start h root = only_child root (h root).content

-- For a key with at least one part, `HasNode` says that there is a node exactly when `GetNode` returns
-- one, and that node is the one at the end of the path from the root, or from its only child.
pub has_node-get_node :
    (h : Heap) (root : ℕ) (k : String) (ks : List String)
    → (has_node h root (k ∷ ks) ≡ true) ↔ (
        (at : ℕ) × (get_node h root (k ∷ ks) ≡ ok at)
        × Ends h (only_child root (h root).content) (k ∷ ks) at)
unfolding has_node get_node
has_node-get_node h root k ks = (
  has_path-get h (k ∷ ks) (start h root) (k ∷ ks),
  λ (at, got, _). get-has_path h (k ∷ ks) (start h root) (k ∷ ks) at got,
)

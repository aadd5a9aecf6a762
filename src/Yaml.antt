-- ===== src/Yaml.antt =====
-- pkg/util/extensions/extensions.go: the tree of YAML nodes that gopkg.in/yaml.v3 builds, and the
-- operations on its keys. The nodes are cells of a heap, since the operations write through pointers.
pub mod Paths
pub mod Keys
pub mod Delete
pub mod Tests
use onepanel.Base.{
  ℕ, String, Bool, true, false, not, ◌||◌, Option, none, some, List, [], ◌∷◌, ◌==◌, ◌⊕◌, nat_eq,
  join, any, Error, plain, panic, Result, ok, err, if◌then◌else◌,
}

pub data Kind : Type 0 where
  document sequence mapping scalar alias : Kind

-- `yaml.Node`: the kind, the value and the addresses of the content
pub record Cell : Type 0 where
  pub kind : Kind
  pub value : String
  pub content : List ℕ

abbrev pub Heap : Type 0
Heap = ℕ → Cell

abbrev pub is_mapping : Cell → Bool
is_mapping c = elim c.kind [ mapping ↦ true | _ ↦ false ]

abbrev pub write_cell : ℕ → Cell → Heap → Heap
write_cell a c h = λ x. if nat_eq x a then c else h x

-- the inner loop: the value node of the first pair with the key; a last node without a partner is not read
unfoldable pub find_value : Heap → String → List ℕ → Option ℕ
find_value h key [] = none
find_value h key (k ∷ []) = none
find_value h key (k ∷ v ∷ rest) = if (h k).value == key then some v else find_value h key rest

-- `if len(root.Content) == 1 { currentNode = root.Content[0] }`
abbrev pub only_child : ℕ → List ℕ → ℕ
only_child root (c ∷ []) = c
only_child root _ = root

-- the loop of HasNode
unfoldable pub has_path : Heap → ℕ → List String → Bool
unfolding find_value
has_path h node [] = true
has_path h node (k ∷ ks) = elim (find_value h k (h node).content) [
  | none ↦ false
  | some v ↦ has_path h v ks
]

-- HasNode
unfoldable pub has_node : Heap → ℕ → List String → Bool
unfolding has_path
has_node h root [] = false
has_node h root (k ∷ ks) = has_path h (only_child root (h root).content) (k ∷ ks)

abbrev pub key_text : List String → String
key_text ks = join "." ks

-- `fmt.Errorf("%v not found - stopped at %v", key.String(), keyPart)`
abbrev pub stopped : List String → String → Error
stopped full k = plain (key_text full ⊕ " not found - stopped at " ⊕ k)

-- the loop of GetNode
unfoldable pub get_path : Heap → List String → ℕ → List String → Result ℕ
unfolding find_value
get_path h full node [] = ok node
get_path h full node (k ∷ ks) = elim (find_value h k (h node).content) [
  | none ↦ err (stopped full k)
  | some v ↦ get_path h full v ks
]

-- GetNode
unfoldable pub get_node : Heap → ℕ → List String → Result ℕ
unfolding get_path
get_node h root [] = ok root
get_node h root (k ∷ ks) = get_path h (k ∷ ks) (only_child root (h root).content) (k ∷ ks)

abbrev pub not_mapping : Error
not_mapping = plain "not a mapping node"

abbrev pub set_value : Heap → Option ℕ → String → Heap
set_value h none value = h
set_value h (some v) value = write_cell v (record (h v) { value = value }) h

-- SetKeyValue
unfoldable pub set_key_value : Heap → ℕ → String → String → Result Heap
unfolding find_value
set_key_value h node key value =
    if is_mapping (h node)
    then ok (set_value h (find_value h key (h node).content) value)
    else err not_mapping

-- the loop of HasKeyValue, which does not stop at the first pair of the key
unfoldable pub has_pair : Heap → String → List String → List ℕ → Bool
has_pair h key values [] = false
has_pair h key values (k ∷ []) = false
has_pair h key values (k ∷ v ∷ rest) =
    let later = has_pair h key values rest in
    if (h k).value == key then any (λ x. (h v).value == x) values || later else later

-- HasKeyValue
unfoldable pub has_key_value : Heap → ℕ → String → List String → Result Bool
unfolding has_pair
has_key_value h node key values =
    if is_mapping (h node) then ok (has_pair h key values (h node).content) else err not_mapping

abbrev pub found_or : Option ℕ → Result ℕ
found_or none = err (plain "not found")
found_or (some v) = ok v

-- GetKeyValue
unfoldable pub get_key_value : Heap → ℕ → String → Result ℕ
unfolding find_value
get_key_value h node key =
    if is_mapping (h node) then found_or (find_value h key (h node).content) else err not_mapping

-- the first loop of DeleteNode: the node that holds the last part of the key, and this part;
-- `key.parts[len(key.parts)-1]` panics on an empty key
unfoldable pub locate : Heap → List String → ℕ → List String → Result (ℕ × String)
unfolding find_value
locate h full node [] = err panic
locate h full node (k ∷ ks) = elim (find_value h k (h node).content) [
  | none ↦ err (stopped full k)
  | some v ↦ elim ks [ [] ↦ ok (node, k) | _ ∷ _ ↦ locate h full v ks ]
]

-- The second loop of DeleteNode counts the content of the node that was located and reads the content of
-- the root, past whose end it panics.
unfoldable pub kept_nodes : Heap → String → List ℕ → List ℕ → Result (List ℕ)
kept_nodes h final (_ ∷ _ ∷ counted) (k ∷ v ∷ read) =
    let rest = kept_nodes h final counted read in
    elim rest [ err e ↦ err e | ok ks ↦ ok (if (h k).value == final then ks else k ∷ v ∷ ks) ]
kept_nodes h final (_ ∷ _ ∷ counted) _ = err panic
kept_nodes h final _ read = ok []

-- DeleteNode
unfoldable pub delete_located : Heap → ℕ → Result (ℕ × String) → Result Heap
unfolding kept_nodes
delete_located h node (err e) = err e
delete_located h node (ok (at, final)) = elim (kept_nodes h final (h at).content (h node).content) [
  | err e ↦ err e
  | ok ks ↦ ok (write_cell at (record (h at) { content = ks }) h)
]

unfoldable pub delete_node : Heap → ℕ → List String → Result Heap
unfolding locate delete_located
delete_node h node key =
    if is_mapping (h node) then delete_located h node (locate h key node key) else err not_mapping

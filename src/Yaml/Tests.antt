-- ===== src/Yaml/Tests.antt =====
-- The operations on keys at the tree of a: {c: y}, b: x.
use onepanel.Base.{ℕ, String, ◌≡◌, refl, List, [], ◌∷◌, nat_eq, ok, err, All, if◌then◌else◌}
use onepanel.Yaml.{
  Heap, write_cell, Cell, mapping, scalar, find_value, get_key_value, set_key_value, delete_node,
  locate, kept_nodes, delete_located,
}
use onepanel.Yaml.Keys.{IsKeyValue, set_key_value-IsKeyValue}
use onepanel.Yaml.Delete.{In, delete_node_two}

abbrev leaf : String → Cell
leaf s = record { kind = scalar; value = s; content = [] }

abbrev tree : List ℕ → Cell
tree ns = record { kind = mapping; value = ""; content = ns }

abbrev heap : Heap
heap a =
    if nat_eq a 0
    then tree (1 ∷ 2 ∷ 3 ∷ 4 ∷ [])
    else if nat_eq a 1
    then leaf "a"
    else if nat_eq a 2
    then tree (5 ∷ 6 ∷ [])
    else if nat_eq a 3
    then leaf "b"
    else if nat_eq a 4
    then leaf "x"
    else if nat_eq a 5
    then leaf "c"
    else leaf "y"

-- the child keeps the root's first pair
deleted_child :
    (elim (delete_node heap 0 ("a" ∷ "c" ∷ [])) [ ok h ↦ (h 2).content | err _ ↦ [] ]) ≡ 1 ∷ 2 ∷ []
unfolding delete_node locate find_value kept_nodes delete_located
deleted_child = refl

set_key_value-IsKeyValue_example :
    (h : Heap) × (set_key_value heap 0 "b" "new" ≡ ok h) × IsKeyValue heap 0 4 "b" "new" h
set_key_value-IsKeyValue_example =
    set_key_value-IsKeyValue heap 0 4 "b" "new" (unfold get_key_value find_value in refl)
      ((λ e. absurd (cc)), ((λ e. absurd (cc)), tt))

delete_node_two_example : All (In (1 ∷ 2 ∷ 3 ∷ 4 ∷ [])) (1 ∷ 2 ∷ [])
delete_node_two_example =
    delete_node_two heap (write_cell 2 (tree (1 ∷ 2 ∷ [])) heap) 0 2 6 "a" "c"
      (unfold get_key_value find_value in refl) (unfold find_value in refl)
      (unfold delete_node locate find_value kept_nodes delete_located in refl)

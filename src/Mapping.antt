-- ===== src/Mapping.antt =====
-- pkg/util/mapping/mapping.go: the tree of a decoded YAML document, and the pruning of its empty
-- values. pkg/util/collection/collection.go: the removal of blanks, and repeated symbols.
pub mod Prune
mod Tests
use onepanel.Base.{
  ℕ, zero, suc, ◌+◌, String, Bool, true, false, ◌==◌, ◌⊕◌, if◌then◌else◌, Result, ok, err, plain,
  ◌>>=◌, nat_eq,
}

-- A value of the decoder gopkg.in/yaml.v2: a mapping has texts for keys, in the order of one `range`.
mutual
  pub data Value : Type 0 where
    null : Value
    text : String → Value
    number : ℕ → Value
    flag : Bool → Value
    seq : Items → Value
    mapping : Fields → Value

  pub data Items : Type 0 where
    nil : Items
    cons : Value → Items → Items

  pub data Fields : Type 0 where
    end : Fields
    field : String → Value → Fields → Fields

-- len(m)
unfoldable pub count : Fields → ℕ
count end = 0
count (field k v fs) = suc (count fs)

-- v, ok := m[key]
pub data Found : Type 0 where
  missing : Found
  found : Value → Found

unfoldable pub get : String → Fields → Found
get key end = missing
get key (field k v fs) = if k == key then found v else get key fs

-- m[key] = v
unfoldable pub put : String → Value → Fields → Fields
put key new end = field key new end
put key new (field k v fs) = if k == key then field k new fs else field k v (put key new fs)

-- the mapping at a key, or an error of its text, and the mapping with an absent child created
unfoldable pub child_of : String → Fields → Found → Result (Fields × Fields)
unfolding put
child_of key m missing = ok (end, put key (mapping end) m)
child_of key m (found (mapping fs)) = ok (fs, m)
child_of key m (found null) = err (plain (key ⊕ " is not a Mapping"))
child_of key m (found (text s)) = err (plain (key ⊕ " is not a Mapping"))
child_of key m (found (number n)) = err (plain (key ⊕ " is not a Mapping"))
child_of key m (found (flag b)) = err (plain (key ⊕ " is not a Mapping"))
child_of key m (found (seq is)) = err (plain (key ⊕ " is not a Mapping"))

-- GetChildMap: the child, and the mapping after the call
unfoldable pub get_child_map : String → Fields → Result (Fields × Fields)
unfolding child_of get
get_child_map key m = child_of key m (get key m)

-- `if deleteEmptyValuesMapping(v) == 0 { delete(mapping, key) }`, the text "" likewise
unfoldable pub keep_field : String → Value → ℕ → Fields → Fields
keep_field k (mapping fs) zero rest = rest
keep_field k (mapping fs) (suc n) rest = field k (mapping fs) rest
keep_field k (text s) n rest = if s == "" then rest else field k (text s) rest
keep_field k null n rest = field k null rest
keep_field k (number m) n rest = field k (number m) rest
keep_field k (flag b) n rest = field k (flag b) rest
keep_field k (seq is) n rest = field k (seq is) rest

-- the number that deleteEmptyValuesMapping returns: of the keys that it visits
unfoldable pub visited : Value → ℕ
unfolding count
visited (mapping fs) = count fs
visited (seq is) = 0
visited null = 0
visited (text s) = 0
visited (number n) = 0
visited (flag b) = 0

-- deleteEmptyValuesMapping and deleteEmptyValuesArray, in place
unfoldable mutual
  unfolding keep_field visited

  pub prune_value : Value → Value
  prune_value (mapping fs) = mapping (delete_empty_values_mapping fs)
  prune_value (seq is) = seq (delete_empty_values_array is)
  prune_value null = null
  prune_value (text s) = text s
  prune_value (number n) = number n
  prune_value (flag b) = flag b

  pub delete_empty_values_array : Items → Items
  delete_empty_values_array nil = nil
  delete_empty_values_array (cons v is) = cons (prune_value v) (delete_empty_values_array is)

  pub delete_empty_values_mapping : Fields → Fields
  delete_empty_values_mapping end = end
  delete_empty_values_mapping (field k v fs) =
      keep_field k (prune_value v) (visited v) (delete_empty_values_mapping fs)

-- RemoveBlanks: a zero value is nil, "", 0, false or a nil mapping or array, which the tree has not.
unfoldable pub is_blank : Value → Bool
is_blank null = true
is_blank (text s) = s == ""
is_blank (number n) = nat_eq n 0
is_blank (flag true) = false
is_blank (flag false) = true
is_blank (seq is) = false
is_blank (mapping end) = true
is_blank (mapping (field k v fs)) = false

unfoldable mutual
  unfolding is_blank

  pub remove_blanks : Value → Value
  remove_blanks (mapping fs) = mapping (remove_blank_fields fs)
  remove_blanks (seq is) = seq (remove_blank_items is)
  remove_blanks null = null
  remove_blanks (text s) = text s
  remove_blanks (number n) = number n
  remove_blanks (flag b) = flag b

  pub remove_blank_items : Items → Items
  remove_blank_items nil = nil
  remove_blank_items (cons v is) = cons (remove_blanks v) (remove_blank_items is)

  pub remove_blank_fields : Fields → Fields
  remove_blank_fields end = end
  remove_blank_fields (field k v fs) =
      let rest = remove_blank_fields fs in
      if is_blank v then rest else field k (remove_blanks v) rest

-- RepeatSymbol: the loop from `i`, which writes a separator before each symbol but the first
unfoldable pub repeat_from : ℕ → ℕ → String → String → String → String
repeat_from i zero symbol separator result = result
repeat_from i (suc n) symbol separator result =
    repeat_from (i + 1) n symbol separator
      (if nat_eq i 0 then result ⊕ symbol else (result ⊕ separator) ⊕ symbol)

unfoldable pub repeat_symbol : ℕ → String → String → String
unfolding repeat_from
repeat_symbol count symbol separator = repeat_from 0 count symbol separator ""

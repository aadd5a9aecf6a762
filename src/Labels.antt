-- ===== src/Labels.antt =====
-- pkg/util/label/label.go, pkg/label_types.go and SkipKeysFromString of pkg/labels.go: maps of labels
-- and the texts in which a request gives them.
pub mod Prefix
pub mod Format
pub mod Tests
use onepanel.Base.{
  String, Bool, true, false, not, Option, none, some, List, [], ◌∷◌, ◌++◌, map, ◌==◌, starts_with,
  Map, ◌⊕◌, insert, delete, split, strip, Error, plain, Result, ok, err, ◌>>=◌, if◌then◌else◌,
}

abbrev pub tag_prefix : String
tag_prefix = "tags.onepanel.io/"

-- FilterByPrefix
unfoldable pub filter_by_prefix : String → Map String → Map String
filter_by_prefix prefix [] = []
filter_by_prefix prefix ((k, v) ∷ m) =
    let rest = filter_by_prefix prefix m in if starts_with k prefix then (k, v) ∷ rest else rest

-- RemovePrefix; `none` is the panic at a key that is shorter than the prefix
remove_from : String → Map String → Map String → Option (Map String)
remove_from prefix labels [] = some labels
remove_from prefix labels ((k, v) ∷ m) = elim (strip prefix k) [
  | none ↦ none
  | some formatted ↦ remove_from prefix (insert formatted v labels) m
]

unfoldable pub remove_prefix : String → Map String → Option (Map String)
unfolding remove_from insert strip
remove_prefix prefix m = remove_from prefix [] m

-- Delete
unfoldable pub delete_keys : Map String → List String → Map String
unfolding delete
delete_keys m [] = m
delete_keys m (k ∷ ks) = delete_keys (delete k m) ks

-- DeleteWithPrefix
unfoldable pub delete_with_prefix : Map String → String → Map String
delete_with_prefix [] prefix = []
delete_with_prefix ((k, v) ∷ m) prefix =
    let rest = delete_with_prefix m prefix in if starts_with k prefix then rest else (k, v) ∷ rest

-- MergeLabels
unfoldable pub merge_labels : Map String → Map String → (String → String) → Map String
unfolding insert
merge_labels destination [] modifier = destination
merge_labels destination ((k, v) ∷ additions) modifier =
    merge_labels (insert (modifier k) v destination) additions modifier

-- MergeLabelsPrefix
unfoldable pub merge_labels_prefix : Map String → Map String → String → Map String
unfolding merge_labels
merge_labels_prefix destination additions prefix =
    merge_labels destination additions (λ s. prefix ⊕ s)

-- the label of a request
pub record Label : Type 0 where
  pub key : String
  pub value : String

-- LabelsToMapping
unfoldable pub labels_to_mapping : List Label → Map String
unfolding insert
labels_to_mapping ls = fill [] ls
  where
    fill : Map String → List Label → Map String
    fill m [] = m
    fill m (l ∷ rest) = fill (insert l.key l.value m) rest

abbrev pub bad_label : String → Error
bad_label part = plain ("incorrectly formatted label \"" ⊕ part ⊕ "\"")

-- `key=…` and `value=…`, and any other word with no effect
unfoldable pub set_item : String → String → Label → Label
set_item name text l =
    if name == "key"
    then record l { key = text }
    else if name == "value"
    then record l { value = text }
    else l

unfoldable pub item_of : String → List String → Label → Result Label
unfolding set_item
item_of part (name ∷ text ∷ []) l = ok (set_item name text l)
item_of part _ l = err (bad_label part)

unfoldable pub read_item : String → Label → Result Label
unfolding item_of split
read_item part l = item_of part (split "=" part) l

abbrev pub blank : Label
blank = record { key = ""; value = "" }

-- LabelFromString
unfoldable pub label_of_parts : List String → Result Label
unfolding read_item
label_of_parts (first ∷ second ∷ []) = do l ← read_item first blank; read_item second l
label_of_parts _ = err (plain "label does not have two parts, key/value")

unfoldable pub label_from_string : String → Result Label
unfolding label_of_parts split
label_from_string value = label_of_parts (split "," value)

-- LabelsFromString: the labels before the one that has an error are returned with it
labels_of_parts : List Label → List String → List Label × Option Error
labels_of_parts labels [] = (labels, none)
labels_of_parts labels (part ∷ ps) = elim (part == "") [
  | true ↦ labels_of_parts labels ps
  | false ↦ elim (label_from_string part) [
    | err e ↦ (labels, some e)
    | ok l ↦ labels_of_parts (labels ++ l ∷ []) ps
  ]
]

unfoldable pub labels_from_string : String → List Label × Option Error
unfolding labels_of_parts label_from_string split
labels_from_string value = if value == "" then ([], none) else labels_of_parts [] (split "&" value)

-- SkipKeysFromString
skip_blank : List String → List String
skip_blank [] = []
skip_blank (k ∷ ks) = let rest = skip_blank ks in if k == "" then rest else k ∷ rest

unfoldable pub skip_keys_from_string : String → List String
unfolding skip_blank split
skip_keys_from_string keys = skip_blank (split ";" keys)

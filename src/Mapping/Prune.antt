-- ===== src/Mapping/Prune.antt =====
-- What the pruning of pkg/util/mapping and the removal of blanks of pkg/util/collection leave.
use onepanel.Base.{ℕ, zero, suc, String, ◌≡◌, ◌≢◌, refl, arith, eq_iff}
use onepanel.Mapping.{
  Value, null, text, number, flag, seq, mapping, Items, nil, cons, Fields, end, field, count,
  keep_field, visited, prune_value, delete_empty_values_array, delete_empty_values_mapping,
}

-- no key of a mapping, at any depth, has the empty text
abbrev mutual
  pub IsFilled : Value → Type 0
  IsFilled (mapping fs) = AreFilled fs
  IsFilled (seq is) = EachFilled is
  IsFilled null = Unit
  IsFilled (text s) = Unit
  IsFilled (number n) = Unit
  IsFilled (flag b) = Unit

  pub EachFilled : Items → Type 0
  EachFilled nil = Unit
  EachFilled (cons v is) = IsFilled v × EachFilled is

  pub AreFilled : Fields → Type 0
  AreFilled end = Unit
  AreFilled (field k v fs) = (v ≢ text "") × IsFilled v × AreFilled fs

keep_field-AreFilled :
    (k : String) (v : Value) (n : ℕ) (fs : Fields)
    → IsFilled v
    → AreFilled fs
    → AreFilled (keep_field k v n fs)
unfolding keep_field
keep_field-AreFilled k (mapping gs) zero fs h r = r
keep_field-AreFilled k (mapping gs) (suc n) fs h r = (λ e. absurd (cc), h, r)
keep_field-AreFilled k (text s) n fs h r = ground (arith, eq_iff s "")
keep_field-AreFilled k null n fs h r = (λ e. absurd (cc), tt, r)
keep_field-AreFilled k (number m) n fs h r = (λ e. absurd (cc), tt, r)
keep_field-AreFilled k (flag b) n fs h r = (λ e. absurd (cc), tt, r)
keep_field-AreFilled k (seq is) n fs h r = (λ e. absurd (cc), h, r)

mutual
  unfolding prune_value

  prune-IsFilled : (v : Value) → IsFilled (prune_value v)
  prune-IsFilled (mapping fs) = prune-AreFilled fs
  prune-IsFilled (seq is) = prune-EachFilled is
  prune-IsFilled null = tt
  prune-IsFilled (text s) = tt
  prune-IsFilled (number n) = tt
  prune-IsFilled (flag b) = tt

  prune-EachFilled : (is : Items) → EachFilled (delete_empty_values_array is)
  prune-EachFilled nil = tt
  prune-EachFilled (cons v is) = (prune-IsFilled v, prune-EachFilled is)

  prune-AreFilled : (fs : Fields) → AreFilled (delete_empty_values_mapping fs)
  prune-AreFilled end = tt
  prune-AreFilled (field k v fs) =
      keep_field-AreFilled k (prune_value v) (visited v) (delete_empty_values_mapping fs)
        (prune-IsFilled v) (prune-AreFilled fs)

-- After the pruning no key of a mapping has the empty text, at any depth below mappings and arrays.
pub delete_empty_values_mapping-AreFilled :
    (fs : Fields) → AreFilled (delete_empty_values_mapping fs)
delete_empty_values_mapping-AreFilled = prune-AreFilled

-- A mapping of which every key has the empty text is left as an empty mapping under its key: the count
-- is of the keys visited, so that one pruning is not the end.
pub prune_once :
    (outer inner : String)
    → (delete_empty_values_mapping (field outer (mapping (field inner (text "") end)) end)
        ≡ field outer (mapping end) end)
      × (delete_empty_values_mapping
            (delete_empty_values_mapping (field outer (mapping (field inner (text "") end)) end))
          ≡ end)
unfolding delete_empty_values_mapping keep_field visited count
prune_once outer inner = (refl, refl)

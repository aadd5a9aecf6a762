-- ===== src/Secrets/Tests.antt =====
-- The operations on the keys of secrets that a list keeps.
use onepanel.Base.{
  String, true, ◌≡◌, ◌≢◌, refl, ap, Option, none, some, [], ◌∷◌, ◌==◌, arith, Map, lookup, insert,
  delete, lookup-insert, lookup-delete, plain, Result, ok, err, if◌then◌else◌, Option-cases, inl,
  inr, eq_iff,
}
use onepanel.Secrets.{
  Patch, add_data, add_key, replace_key, remove_key, SecretApi, add_secret_key_value,
  delete_secret_key,
}
use onepanel.Secrets.Keys.{
  IsWritten, add_secret_key_value-IsWritten, delete_secret_key-add_secret_key_value,
}

abbrev Store : Type 0
Store = Map (Map String)

-- the data after a patch
unfoldable patch_data : Patch → Map String → Map String
unfolding insert delete
patch_data (add_data k v) d = (k, v) ∷ []
patch_data (add_key k v) d = insert k v d
patch_data (replace_key k v) d = insert k v d
patch_data (remove_key k) d = delete k d

abbrev get : String → Store → Result (Option (Map String))
get n s = ok (lookup n s)

unfoldable patch_store : String → Patch → Store → Result Store
unfolding insert lookup patch_data
patch_store n p s = elim (lookup n s) [
  | none ↦ err (plain "not found")
  | some d ↦ ok (insert n (patch_data p d) s)
]

patch_store-found :
    (n : String) (p : Patch) (s s' : Store) (d : Map String)
    → lookup n s ≡ some d
    → patch_store n p s ≡ ok s'
    → lookup n s' ≡ some (patch_data p d)
unfolding patch_store
patch_store-found n p s s' d g q =
    let same : insert n (patch_data p d) s ≡ s' = ground arith in
    rw (← same) (ground (arith, lookup-insert n n (patch_data p d) s, eq_iff n n))

data_lookup :
    (p : Patch) (d : Map String) (j : String)
    → lookup j (patch_data p d) ≡ elim p [
      | add_data k e ↦ if k == j then some e else none
      | add_key k e ↦ if k == j then some e else lookup j d
      | replace_key k e ↦ if k == j then some e else lookup j d
      | remove_key k ↦ if k == j then none else lookup j d
    ]
unfolding patch_data
data_lookup (add_data k e) d j = unfold lookup in refl
data_lookup (add_key k e) d j = lookup-insert k j e d
data_lookup (replace_key k e) d j = lookup-insert k j e d
data_lookup (remove_key k) d j = lookup-delete k j d

patch_store-elsewhere :
    (n m : String) (p : Patch) (s s' : Store)
    → n ≢ m
    → patch_store n p s ≡ ok s'
    → get m s' ≡ get m s
unfolding patch_store
patch_store-elsewhere n m p s s' apart q = elim (Option-cases (lookup n s)) [
  | inl c ↦ absurd (ground arith)
  | inr (d, c) ↦
      let same : insert n (patch_data p d) s ≡ s' = ground arith in
      rw (← same) (ground (arith, lookup-insert n m (patch_data p d) s, eq_iff n m))
]

got : (n : String) (s : Store) (d : Map String) → get n s ≡ ok (some d) → lookup n s ≡ some d
got n s d g = ground arith

abbrev list_api : SecretApi Store
list_api = record {
  get = get;
  patch = patch_store;
  encode = λ v. v;
  decode = λ v. v;
  decode_encode = λ v. refl;
  patched = λ n p s s' d g q.
      (patch_data p d, ap ok (patch_store-found n p s s' d (got n s d g) q), data_lookup p d);
  elsewhere = patch_store-elsewhere;
}

abbrev store : Store
store = ("db", ("user", "u") ∷ []) ∷ ("other", []) ∷ []

abbrev added : Store
added = (add_secret_key_value list_api "db" (("pass", "p") ∷ []) store).1

add_secret_key_value-IsWritten_example :
    (d : Map String) × (lookup "pass" d ≡ none)
    × IsWritten list_api "db" "pass" (some "p") d store added
add_secret_key_value-IsWritten_example =
    add_secret_key_value-IsWritten list_api "db" "pass" "p" [] store true
      (unfold add_secret_key_value patch_store lookup in refl)

delete_secret_key-add_secret_key_value_example :
    (d d' : Map String) × (ok (lookup "db" store) ≡ ok (some d))
    × (ok (lookup "db" (delete_secret_key list_api "db" (("pass", "p") ∷ []) added).1)
        ≡ ok (some d'))
    × ((j : String) → lookup j d' ≡ lookup j d)
delete_secret_key-add_secret_key_value_example =
    delete_secret_key-add_secret_key_value list_api "db" "pass" "p" store
      (unfold add_secret_key_value patch_store lookup in refl)
      (unfold add_secret_key_value delete_secret_key patch_store patch_data insert lookup in refl)

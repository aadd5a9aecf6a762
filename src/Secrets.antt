-- ===== src/Secrets.antt =====
-- pkg/secret.go: the operations on one key of a Kubernetes secret. The API of Kubernetes and the coding of
-- base64 are an interface with the behaviour that the client relies on; a `range` over the data of a request
-- takes the first entry of its list.
pub mod Keys
pub mod Tests
use onepanel.Base.{
  String, Bool, true, false, ◌||◌, ◌≡◌, ◌≢◌, Option, none, some, List, [], ◌∷◌, map, ◌==◌, ◌⊕◌, Map,
  lookup, any, is_nil, Error, user_error, not_found, already_exists, invalid_argument, unknown,
  Result, ok, err, contains, if◌then◌else◌,
}
use onepanel.Workspace.Update.{message}

-- the JSON patches that the client sends
pub data Patch : Type 0 where
  add_data : String → String → Patch
  add_key replace_key : String → String → Patch
  remove_key : String → Patch

-- The calls of the API on the secrets of a namespace, where `none` says that there is no such secret, and
-- what a patch that succeeds does to the data, by RFC 6902.
pub record SecretApi (Store : Type 0) : Type 0 where
  pub get : String → Store → Result (Option (Map String))
  pub patch : String → Patch → Store → Result Store
  pub encode : String → String
  pub decode : String → String
  pub decode_encode : (v : String) → decode (encode v) ≡ v
  pub patched :
      (n : String) (p : Patch) (s s' : Store) (d : Map String)
      → get n s ≡ ok (some d)
      → patch n p s ≡ ok s'
      → (d' : Map String) × (get n s' ≡ ok (some d'))
        × ((j : String)
            → lookup j d' ≡ elim p [
              | add_data k e ↦ if k == j then some (decode e) else none
              | add_key k e ↦ if k == j then some (decode e) else lookup j d
              | replace_key k e ↦ if k == j then some (decode e) else lookup j d
              | remove_key k ↦ if k == j then none else lookup j d
            ])
  pub elsewhere :
      (n m : String) (p : Patch) (s s' : Store) → n ≢ m → patch n p s ≡ ok s' → get m s' ≡ get m s

abbrev pub has_key : String → Map String → Bool
has_key k d = any (λ (j, _). j == k) d

abbrev pub empty_data : Error
empty_data = user_error invalid_argument "Data cannot be empty"

abbrev pub secret_not_found : Error
secret_not_found = user_error not_found "Secret not found."

-- the error of a patch that fails
unfoldable pub patch_error : String → Error → Error
unfolding message
patch_error text e =
    if contains (message e) "Request entity too large:"
      || contains (message e) "Too long: must have at most"
    then user_error invalid_argument "Value is too long"
    else user_error unknown text

module _ {Store : Type 0} (api : SecretApi Store) where
  open api use {get, patch, encode}

  -- encodeSecretData
  unfoldable pub encode_secret_data : Map String → Map String
  encode_secret_data [] = []
  encode_secret_data ((k, v) ∷ d) = (k, encode v) ∷ encode_secret_data d

  -- GetSecret
  unfoldable pub get_secret : String → Store → Result (Map String)
  unfolding encode_secret_data
  get_secret name s = elim (get name s) [
    | err _ ↦ err (user_error unknown "Error when getting secret.")
    | ok o ↦ elim o [
      | none ↦ err (user_error not_found "Secret Not Found.")
      | some d ↦ ok (encode_secret_data d)
    ]
  ]

  -- the last call of each operation
  unfoldable pub send : String → Patch → (Error → Error) → Store → Result Bool × Store
  send name p on_error s = elim (patch name p s) [
    | err e ↦ (err (on_error e), s)
    | ok s' ↦ (ok true, s')
  ]

  -- AddSecretKeyValue
  unfoldable pub add_secret_key_value : String → Map String → Store → Result Bool × Store
  unfolding get_secret send patch_error
  add_secret_key_value name [] s = (err empty_data, s)
  add_secret_key_value name ((key, value) ∷ _) s = elim (get_secret name s) [
    | err _ ↦ (err secret_not_found, s)
    | ok found ↦
        if has_key key found
        then (err (user_error already_exists ("Key '" ⊕ key ⊕ "' already exists")), s)
        else send name
            (if is_nil found then add_data key (encode value) else add_key key (encode value))
            (patch_error "Error adding key and value to Secret.") s
  ]

  -- UpdateSecretKeyValue
  unfoldable pub update_secret_key_value : String → Map String → Store → Result Bool × Store
  unfolding get_secret send patch_error
  update_secret_key_value name [] s = (err (user_error invalid_argument "data cannot be empty."), s)
  update_secret_key_value name ((key, value) ∷ _) s = elim (get_secret name s) [
    | err _ ↦ (err (user_error not_found "Unable to find secret."), s)
    | ok found ↦
        if has_key key found
        then send name (replace_key key (encode value))
            (patch_error "Unable to update secret key value.") s
        else (err (user_error not_found ("Key: " ⊕ key ⊕ " not found in secret.")), s)
  ]

  -- DeleteSecretKey
  unfoldable pub delete_secret_key : String → Map String → Store → Result Bool × Store
  unfolding get_secret send
  delete_secret_key name [] s = (err empty_data, s)
  delete_secret_key name ((key, _) ∷ _) s = elim (get_secret name s) [
    | err _ ↦ (err secret_not_found, s)
    | ok found ↦
        if has_key key found
        then send name (remove_key key)
            (λ _. user_error unknown "Unable to delete key from Secret.") s
        else (err (user_error not_found "Key not found in Secret."), s)
  ]

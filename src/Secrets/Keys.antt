-- ===== src/Secrets/Keys.antt =====
-- What the operations on one key of a secret leave in it and in the others.
use onepanel.Base.{
  String, Bool, true, false, ◌≡◌, ◌≢◌, refl, sym, ap, ◌∙◌, Option, none, some, [], ◌∷◌, ◌==◌, arith,
  Map, lookup, is_nil, Error, user_error, unknown, Result, ok, if◌then◌else◌, Option-cases,
  Result-cases, Bool-cases, inl, inr, eq_iff,
}
use onepanel.Secrets.{
  Patch, add_data, add_key, replace_key, remove_key, SecretApi, has_key, patch_error,
  encode_secret_data, get_secret, send, add_secret_key_value, update_secret_key_value,
  delete_secret_key,
}

-- The secret has the value, or nothing, under the key, what it had under all others, and the other secrets
-- have not changed.
pub record IsWritten {Store : Type 0} (api : SecretApi Store) (name key : String)
    (v : Option String) (d : Map String) (s s' : Store) : Type 0 where
  pub stored : api.get name s ≡ ok (some d)
  pub after : Map String
  pub stored_after : api.get name s' ≡ ok (some after)
  pub entries : (j : String) → lookup j after ≡ (if key == j then v else lookup j d)
  pub elsewhere : (m : String) → name ≢ m → api.get m s' ≡ api.get m s

lookup-has_key : (k : String) (d : Map String) → has_key k d ≡ false → lookup k d ≡ none
unfolding lookup
lookup-has_key k [] h = refl
lookup-has_key k ((j, v) ∷ d) h = ground (arith, lookup-has_key k d)

module _ {Store : Type 0} (api : SecretApi Store) where
  has_key-encode :
      (k : String) (d : Map String) → has_key k (encode_secret_data api d) ≡ has_key k d
  unfolding encode_secret_data
  has_key-encode k [] = refl
  has_key-encode k ((j, v) ∷ d) = ground (arith, has_key-encode k d)

  nil-encode : (d : Map String) → is_nil (encode_secret_data api d) ≡ is_nil d
  unfolding encode_secret_data
  nil-encode [] = refl
  nil-encode ((j, v) ∷ d) = refl

  get_secret-stored :
      (name : String) (s : Store) (found : Map String)
      → get_secret api name s ≡ ok found
      → (d : Map String) × (api.get name s ≡ ok (some d)) × (encode_secret_data api d ≡ found)
  unfolding get_secret
  get_secret-stored name s found e = elim (Result-cases (api.get name s)) [
    | inr (x, c) ↦ absurd (ground arith)
    | inl (o, c) ↦ elim (Option-cases o) [
      | inl n ↦ absurd (ground arith)
      | inr (d, n) ↦ (d, rw n at c, ground arith)
    ]
  ]

  send-ok :
      (name : String) (p : Patch) (f : Error → Error) (s : Store) (b : Bool)
      → (send api name p f s).0 ≡ ok b
      → api.patch name p s ≡ ok (send api name p f s).1
  unfolding send
  send-ok name p f s b e = ground arith

  -- the value under a key after a patch, by the interface
  abbrev patched_value : Patch → String → Map String → Option String
  patched_value (add_data k e) j d = if k == j then some (api.decode e) else none
  patched_value (add_key k e) j d = if k == j then some (api.decode e) else lookup j d
  patched_value (replace_key k e) j d = if k == j then some (api.decode e) else lookup j d
  patched_value (remove_key k) j d = if k == j then none else lookup j d

  patch-value :
      (name : String) (p : Patch) (s s' : Store) (d : Map String)
      → api.get name s ≡ ok (some d)
      → api.patch name p s ≡ ok s'
      → (d' : Map String) × (api.get name s' ≡ ok (some d'))
        × ((j : String) → lookup j d' ≡ patched_value p j d)
  patch-value name (add_data k e) s s' d g q = api.patched name (add_data k e) s s' d g q
  patch-value name (add_key k e) s s' d g q = api.patched name (add_key k e) s s' d g q
  patch-value name (replace_key k e) s s' d g q = api.patched name (replace_key k e) s s' d g q
  patch-value name (remove_key k) s s' d g q = api.patched name (remove_key k) s s' d g q

  module _ (name key : String) (s : Store) (d : Map String) (b : Bool) where
    send-IsWritten :
        (p : Patch) (f : Error → Error) (v : Option String) (r : Result Bool × Store)
        → api.get name s ≡ ok (some d)
        → ((j : String) → patched_value p j d ≡ (if key == j then v else lookup j d))
        → r ≡ send api name p f s
        → r.0 ≡ ok b
        → IsWritten api name key v d s r.1
    send-IsWritten p f v r g effect same e =
        let sent : (send api name p f s).0 ≡ ok b = rw same at e in
        let patched = send-ok name p f s b sent in
        let (d', stored, entries) = patch-value name p s _ d g patched in
        rw same (record {
          stored = g;
          after = d';
          stored_after = stored;
          entries = λ j. entries j ∙ effect j;
          elsewhere = λ m apart. api.elsewhere name m p s _ apart patched;
        })

  module _ (name key value : String) (rest : Map String) (s : Store) (b : Bool) where
    -- An addition that succeeds found the secret without the key, puts the value under it, and changes
    -- nothing under another key or in another secret.
    pub add_secret_key_value-IsWritten :
        (add_secret_key_value api name ((key, value) ∷ rest) s).0 ≡ ok b
        → (d : Map String) × (lookup key d ≡ none)
          × IsWritten api name key
              (some value)
              d
              s
              (add_secret_key_value api name ((key, value) ∷ rest) s).1
    unfolding add_secret_key_value
    add_secret_key_value-IsWritten e = elim (Result-cases (get_secret api name s)) [
      | inr (x, c) ↦ absurd (ground arith)
      | inl (found, c) ↦ elim (Bool-cases (has_key key found)) [
        | inl h ↦ absurd (ground arith)
        | inr h ↦
            let (d, g, same) = get_secret-stored name s found c in
            let absent : has_key key d ≡ false = sym (has_key-encode key d) ∙ rw same h in
            (
              d,
              lookup-has_key key d absent,
              elim (Bool-cases (is_nil found)) [
                | inl n ↦
                    send-IsWritten name key s d b (add_data key (api.encode value))
                      (patch_error "Error adding key and value to Secret.") (some value)
                      (add_secret_key_value api name ((key, value) ∷ rest) s) g
                      (λ j.
                        rw (api.decode_encode value) (empty d j (sym (nil-encode d) ∙ rw same n)))
                      (rw (c, h, n, add_secret_key_value) refl) e
                | inr n ↦
                    send-IsWritten name key s d b (add_key key (api.encode value))
                      (patch_error "Error adding key and value to Secret.") (some value)
                      (add_secret_key_value api name ((key, value) ∷ rest) s) g
                      (λ j. rw (api.decode_encode value) refl)
                      (rw (c, h, n, add_secret_key_value) refl) e
              ],
            )
      ]
    ]
      where
        empty :
            (d : Map String) (j : String)
            → is_nil d ≡ true
            → (if key == j then some value else none)
              ≡ (if key == j then some value else lookup j d)
        empty [] j n = unfold lookup in refl
        empty (_ ∷ _) j n = absurd (cc)

    -- An update that succeeds found the secret with the key, puts the value under it, and changes nothing
    -- under another key or in another secret.
    pub update_secret_key_value-IsWritten :
        (update_secret_key_value api name ((key, value) ∷ rest) s).0 ≡ ok b
        → (d : Map String) × (has_key key d ≡ true)
          × IsWritten api name key
              (some value)
              d
              s
              (update_secret_key_value api name ((key, value) ∷ rest) s).1
    unfolding update_secret_key_value
    update_secret_key_value-IsWritten e = elim (Result-cases (get_secret api name s)) [
      | inr (x, c) ↦ absurd (ground arith)
      | inl (found, c) ↦ elim (Bool-cases (has_key key found)) [
        | inr h ↦ absurd (ground arith)
        | inl h ↦
            let (d, g, same) = get_secret-stored name s found c in
            (
              d,
              sym (has_key-encode key d) ∙ rw same h,
              send-IsWritten name key s d b (replace_key key (api.encode value))
                  (patch_error "Unable to update secret key value.") (some value)
                  (update_secret_key_value api name ((key, value) ∷ rest) s) g
                  (λ j. rw (api.decode_encode value) refl) (rw (c, h, update_secret_key_value) refl)
                  e,
            )
      ]
    ]

    -- A deletion of a key that succeeds found the secret with the key, removes it, and changes nothing under
    -- another key or in another secret.
    pub delete_secret_key-IsWritten :
        (delete_secret_key api name ((key, value) ∷ rest) s).0 ≡ ok b
        → (d : Map String) × (has_key key d ≡ true)
          × IsWritten api name key none d s (delete_secret_key api name ((key, value) ∷ rest) s).1
    unfolding delete_secret_key
    delete_secret_key-IsWritten e = elim (Result-cases (get_secret api name s)) [
      | inr (x, c) ↦ absurd (ground arith)
      | inl (found, c) ↦ elim (Bool-cases (has_key key found)) [
        | inr h ↦ absurd (ground arith)
        | inl h ↦
            let (d, g, same) = get_secret-stored name s found c in
            (
              d,
              sym (has_key-encode key d) ∙ rw same h,
              send-IsWritten name key s d b (remove_key key)
                  (λ _. user_error unknown "Unable to delete key from Secret.") none
                  (delete_secret_key api name ((key, value) ∷ rest) s) g (λ j. refl)
                  (rw (c, h, delete_secret_key) refl) e,
            )
      ]
    ]

  -- A key that is added and then deleted leaves under every key of the secret what was there before.
  pub delete_secret_key-add_secret_key_value :
      (name key value : String) (s : Store)
      → (add_secret_key_value api name ((key, value) ∷ []) s).0 ≡ ok true
      → (delete_secret_key api name
          ((key, value) ∷ [])
          (add_secret_key_value api name ((key, value) ∷ []) s).1).0
        ≡ ok true
      → (d d' : Map String) × (api.get name s ≡ ok (some d))
        × (api.get name
              (delete_secret_key api name
                ((key, value) ∷ [])
                (add_secret_key_value api name ((key, value) ∷ []) s).1).1
            ≡ ok (some d'))
        × ((j : String) → lookup j d' ≡ lookup j d)
  delete_secret_key-add_secret_key_value name key value s e f =
      let (d, absent, added) = add_secret_key_value-IsWritten name key value [] s true e in
      let (m, _, deleted) =
        delete_secret_key-IsWritten name key value []
          (add_secret_key_value api name ((key, value) ∷ []) s).1 true f in
      let same : m ≡ added.after = ground (arith, deleted.stored, added.stored_after) in
      (
        d,
        deleted.after,
        added.stored,
        deleted.stored_after,
        λ j. elim (Bool-cases (key == j)) [
          | inl c ↦
              let is : key ≡ j = (eq_iff key j).0 c in
              let nothing : lookup j d ≡ none = ap (λ k. lookup k d) (sym is) ∙ absent in
              ground (arith, deleted.entries j)
          | inr c ↦ ground (arith, deleted.entries j, added.entries j, ap (lookup j) same)
        ],
      )

-- ===== src/Labels/Prefix.antt =====
-- What the operations on maps of labels give for each key.
use text.Mathlib.TextPositions.{starts_with-append, eq_refl}
use text.Mathlib.TextEquality.{starts_with_iff}
use mathlib.Core.Bool.{false≢true}
use text.Mathlib.TextLemmas.{append_cancel_left}
use onepanel.Base.{
  String, true, false, ◌≡◌, refl, ap, subst, sym, ◌∙◌, Option, none, some, List, [], ◌∷◌, arith,
  eq_iff, ◌==◌, ◌⊕◌, starts_with, Map, lookup, insert, delete, lookup-insert, lookup-delete,
  strip-append, if◌then◌else◌, any, Bool-cases, inl, inr,
}
use onepanel.Labels.{
  filter_by_prefix, remove_from, remove_prefix, delete_keys, delete_with_prefix, merge_labels,
  merge_labels_prefix,
}

abbrev KeptAt : String → String → Map String → Type 0
KeptAt prefix k m =
    lookup k (filter_by_prefix prefix m) ≡ (if starts_with k prefix then lookup k m else none)

Kept_head :
    (prefix j v : String) (m : Map String) → KeptAt prefix j m → KeptAt prefix j ((j, v) ∷ m)
unfolding lookup filter_by_prefix
Kept_head prefix j v m h = elim (Bool-cases (starts_with j prefix)) [
  | inl e ↦ ground (arith, eq_refl j)
  | inr e ↦ ground (arith, eq_refl j)
]

Kept_tail :
    (prefix j k v : String) (m : Map String)
    → (j == k) ≡ false
    → KeptAt prefix k m
    → KeptAt prefix k ((j, v) ∷ m)
unfolding lookup filter_by_prefix
Kept_tail prefix j k v m e h = elim (Bool-cases (starts_with j prefix)) [
  | inl s ↦ rw (s, e) h
  | inr s ↦ rw (s, e) h
]

lookup-Kept : (prefix k : String) (m : Map String) → KeptAt prefix k m
lookup-Kept prefix k [] = unfold lookup filter_by_prefix in ground arith
lookup-Kept prefix k ((j, v) ∷ m) = elim (Bool-cases (j == k)) [
  | inl e ↦
      subst (λ (x : String). KeptAt prefix x ((j, v) ∷ m)) ((eq_iff j k).0 e)
        (Kept_head prefix j v m (lookup-Kept prefix j m))
  | inr e ↦ Kept_tail prefix j k v m e (lookup-Kept prefix k m)
]

abbrev DroppedAt : String → String → Map String → Type 0
DroppedAt prefix k m =
    lookup k (delete_with_prefix m prefix) ≡ (if starts_with k prefix then none else lookup k m)

Dropped_head :
    (prefix j v : String) (m : Map String) → DroppedAt prefix j m → DroppedAt prefix j ((j, v) ∷ m)
unfolding lookup delete_with_prefix
Dropped_head prefix j v m h = elim (Bool-cases (starts_with j prefix)) [
  | inl e ↦ ground (arith, eq_refl j)
  | inr e ↦ ground (arith, eq_refl j)
]

Dropped_tail :
    (prefix j k v : String) (m : Map String)
    → (j == k) ≡ false
    → DroppedAt prefix k m
    → DroppedAt prefix k ((j, v) ∷ m)
unfolding lookup delete_with_prefix
Dropped_tail prefix j k v m e h = elim (Bool-cases (starts_with j prefix)) [
  | inl s ↦ rw (s, e) h
  | inr s ↦ rw (s, e) h
]

lookup-Dropped : (prefix k : String) (m : Map String) → DroppedAt prefix k m
lookup-Dropped prefix k [] = unfold lookup delete_with_prefix in ground arith
lookup-Dropped prefix k ((j, v) ∷ m) = elim (Bool-cases (j == k)) [
  | inl e ↦
      subst (λ (x : String). DroppedAt prefix x ((j, v) ∷ m)) ((eq_iff j k).0 e)
        (Dropped_head prefix j v m (lookup-Dropped prefix j m))
  | inr e ↦ Dropped_tail prefix j k v m e (lookup-Dropped prefix k m)
]

-- A key is kept with its value by the filter exactly when it has the prefix, and by the deletion exactly
-- when it has not.
pub lookup_by_prefix :
    (prefix k : String) (m : Map String)
    → (lookup k (filter_by_prefix prefix m) ≡ (if starts_with k prefix then lookup k m else none))
      × (lookup k (delete_with_prefix m prefix)
          ≡ (if starts_with k prefix then none else lookup k m))
lookup_by_prefix prefix k m = (lookup-Kept prefix k m, lookup-Dropped prefix k m)

-- The deletion of a list of keys removes these and no other.
pub lookup-delete_keys :
    (k : String) (m : Map String) (ks : List String)
    → lookup k (delete_keys m ks) ≡ (if any (λ j. j == k) ks then none else lookup k m)
unfolding delete_keys
lookup-delete_keys k m [] = refl
lookup-delete_keys k m (j ∷ ks) =
    ground (arith, lookup-delete_keys k (delete j m) ks, lookup-delete j k m)

-- the last addition of a key
abbrev pub last_value : String → Map String → Option String
last_value k [] = none
last_value k ((j, v) ∷ m) =
    let rest = last_value k m in
    elim rest [ some x ↦ some x | none ↦ if j == k then some v else none ]

same-prefix : (p i k : String) → ((p ⊕ i) == (p ⊕ k)) ≡ (i == k)
same-prefix p i k = elim (Bool-cases (i == k)) [
  | inl e ↦ (eq_iff (p ⊕ i) (p ⊕ k)).1 (ap (λ s. p ⊕ s) ((eq_iff i k).0 e)) ∙ sym e
  | inr e ↦ elim (Bool-cases ((p ⊕ i) == (p ⊕ k))) [
    | inl c ↦
        absurd
          (ground (arith, (eq_iff i k).1 (append_cancel_left p i k ((eq_iff (p ⊕ i) (p ⊕ k)).0 c))))
    | inr c ↦ c ∙ sym e
  ]
]

-- After a merge under a prefix, a key behind the prefix has the value that was added last for it, or
-- else the one that the destination had.
pub lookup-merge_labels_prefix :
    (p k : String) (d a : Map String)
    → lookup (p ⊕ k) (merge_labels_prefix d a p)
      ≡ elim (last_value k a) [ some v ↦ some v | none ↦ lookup (p ⊕ k) d ]
unfolding merge_labels_prefix merge_labels
lookup-merge_labels_prefix p k d [] = refl
lookup-merge_labels_prefix p k d ((i, v) ∷ a) = ground (
  arith,
  lookup-merge_labels_prefix p k (insert (p ⊕ i) v d) a,
  lookup-insert (p ⊕ i) (p ⊕ k) v d,
  same-prefix p i k,
)

-- A merge under a prefix leaves the labels of all other keys as they were.
pub lookup_merge_other :
    (p k : String) (d a : Map String)
    → starts_with k p ≡ false
    → lookup k (merge_labels_prefix d a p) ≡ lookup k d
unfolding merge_labels_prefix merge_labels
lookup_merge_other p k d [] h = refl
lookup_merge_other p k d ((i, v) ∷ a) h = elim (Bool-cases ((p ⊕ i) == k)) [
  | inl e ↦ absurd (
      let same : starts_with (p ⊕ i) p ≡ starts_with k p =
        ap (λ (s : String). starts_with s p) ((eq_iff (p ⊕ i) k).0 e) in
      false≢true (sym h ∙ sym same ∙ starts_with-append p i))
  | inr e ↦ lookup_merge_other p k (insert (p ⊕ i) v d) a h ∙ lookup-insert (p ⊕ i) k v d ∙ rw e
]

-- the result of `remove_from`, for a key behind the prefix
abbrev Removed : String → Map String → Map String → Type 0
Removed p labels m =
    (result : Map String) × (remove_from p labels m ≡ some result)
    × ((k : String)
        → lookup k result
          ≡ elim (last_value (p ⊕ k) m) [ some v ↦ some v | none ↦ lookup k labels ])

Removed-cons :
    (p s v : String) (labels m : Map String)
    → Removed p (insert s v labels) m
    → Removed p labels ((p ⊕ s, v) ∷ m)
unfolding remove_from
Removed-cons p s v labels m (result, q, all) = (
  result,
  rw (strip-append p s, remove_from) q,
  λ k. ground (arith, all k, lookup-insert s k v labels, same-prefix p s k),
)

remove_from-filter : (p : String) (labels m : Map String) → Removed p labels (filter_by_prefix p m)
remove_from-filter p labels [] = unfold remove_from filter_by_prefix in (labels, refl, λ k. refl)
remove_from-filter p labels ((i, v) ∷ m) = elim (Bool-cases (starts_with i p)) [
  | inr e ↦ subst (Removed p labels) (sym (skipped e)) (remove_from-filter p labels m)
  | inl e ↦
      let (s, is) = (starts_with_iff i p).0 e in
      subst (Removed p labels) (sym (kept e)) (
        subst (λ (x : String). Removed p labels ((x, v) ∷ filter_by_prefix p m)) is
          (Removed-cons p s v labels (filter_by_prefix p m)
            (remove_from-filter p (insert s v labels) m)))
]
  where
    skipped : starts_with i p ≡ false → filter_by_prefix p ((i, v) ∷ m) ≡ filter_by_prefix p m
    skipped e = unfold filter_by_prefix in rw e

    kept : starts_with i p ≡ true → filter_by_prefix p ((i, v) ∷ m) ≡ (i, v) ∷ filter_by_prefix p m
    kept e = unfold filter_by_prefix in rw e

-- The removal of a prefix from the labels that the filter kept for it does not panic, and its result has
-- for each key the last value that the filtered labels have for the key behind the prefix.
pub remove_prefix-filter_by_prefix :
    (p : String) (m : Map String)
    → (result : Map String) × (remove_prefix p (filter_by_prefix p m) ≡ some result)
      × ((k : String) → lookup k result ≡ last_value (p ⊕ k) (filter_by_prefix p m))
unfolding remove_prefix
remove_prefix-filter_by_prefix p m =
    let (result, q, all) = remove_from-filter p [] m in
    (result, q, λ k. all k ∙ or_none k (last_value (p ⊕ k) (filter_by_prefix p m)))
  where
    or_none :
        (k : String) (o : Option String) → (elim o [ some v ↦ some v | none ↦ lookup k [] ]) ≡ o
    or_none k none = unfold lookup in refl
    or_none k (some v) = refl

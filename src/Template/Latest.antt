-- ===== src/Template/Latest.antt =====
-- The count of the latest versions of a template, and the invariant of the tables.
use onepanel.Base.{
  ℕ, suc, ◌+◌, ◌≤◌, ◌<◌, Map, String, Bool, true, ◌&&◌, ◌≡◌, ◌≢◌, refl, List, [], ◌∷◌, ◌++◌, map,
  if◌then◌else◌, nat_eq, nat_eq_iff, arith, All, All-append, Bool-cases, inl, inr,
}
use onepanel.Template.Store.{Store, TemplateRow, VersionRow, rollback}
use onepanel.Template.Table.{outdate, set_labels, write_labels, archive_row, archive_rows}

abbrev is_latest_of : ℕ → VersionRow → Bool
is_latest_of i v = nat_eq v.template_id i && v.is_latest

-- the number of latest versions of a template
unfoldable pub latest_count : ℕ → List VersionRow → ℕ
latest_count i [] = 0
latest_count i (v ∷ vs) = (if is_latest_of i v then 1 else 0) + latest_count i vs

latest_count-append :
    (i : ℕ) (vs ws : List VersionRow)
    → latest_count i (vs ++ ws) ≡ latest_count i vs + latest_count i ws
unfolding latest_count
latest_count-append i [] ws = omega arith
latest_count-append i (v ∷ vs) ws = omega (arith, latest_count-append i vs ws)

latest_count-outdate : (i : ℕ) (vs : List VersionRow) → latest_count i (map (outdate i) vs) ≡ 0
unfolding latest_count outdate
latest_count-outdate i [] = refl
latest_count-outdate i (v ∷ vs) = ground (arith, latest_count-outdate i vs)

latest_count-outdate_other :
    (i j : ℕ) (vs : List VersionRow)
    → j ≢ i
    → latest_count j (map (outdate i) vs) ≡ latest_count j vs
unfolding latest_count outdate
latest_count-outdate_other i j [] h = refl
latest_count-outdate_other i j (v ∷ vs) h = ground (
  arith,
  latest_count-outdate_other i j vs h,
  nat_eq_iff v.template_id i,
  nat_eq_iff v.template_id j,
)

abbrev IsBelow : ℕ → VersionRow → Type 0
IsBelow n v = v.template_id < n

latest_count_fresh : (n : ℕ) (vs : List VersionRow) → All (IsBelow n) vs → latest_count n vs ≡ 0
unfolding latest_count
latest_count_fresh n [] h = refl
latest_count_fresh n (v ∷ vs) h =
    ground (arith, latest_count_fresh n vs h.1, nat_eq_iff v.template_id n)

-- a template has an id that was given out, and one latest version
pub record HasLatest (serial : ℕ) (vs : List VersionRow) (t : TemplateRow) : Type 0 where
  pub positive : 1 ≤ t.id
  pub given : t.id < serial
  pub one : latest_count t.id vs ≡ 1

pub record WellFormed (s : Store) : Type 0 where
  pub serial : 1 ≤ s.template_serial
  pub latest : All (HasLatest s.template_serial s.versions) s.templates
  pub below : All (IsBelow s.template_serial) s.versions

All-mono :
    {A : Type 0} (P Q : A → Type 0) → ((a : A) → P a → Q a) → (xs : List A) → All P xs → All Q xs
All-mono P Q f [] h = tt
All-mono P Q f (x ∷ xs) h = (f x h.0, All-mono P Q f xs h.1)

All-map :
    {A : Type 0} (P : A → Type 0) (f : A → A)
    → ((a : A) → P a → P (f a))
    → (xs : List A) → All P xs
    → All P (map f xs)
All-map P f k [] h = tt
All-map P f k (x ∷ xs) h = (k x h.0, All-map P f k xs h.1)

-- Changes of the rows that leave the ids leave the invariant.
pub map-WellFormed :
    (f : TemplateRow → TemplateRow)
    → ((t : TemplateRow) → (f t).id ≡ t.id)
    → (s : Store) → WellFormed s
    → WellFormed (record s { templates = map f s.templates })
map-WellFormed f same s w = record {
  serial = w.serial;
  latest = All-map (HasLatest s.template_serial s.versions) f kept s.templates w.latest;
  below = w.below;
}
  where
    kept :
        (t : TemplateRow)
        → HasLatest s.template_serial s.versions t
        → HasLatest s.template_serial s.versions (f t)
    kept t h = record {
      positive = rw (same t) h.positive;
      given = rw (same t) h.given;
      one = rw (same t) h.one;
    }

pub write_labels-WellFormed :
    (i : ℕ) (labels : Map String) (s : Store) → WellFormed s → WellFormed (write_labels i labels s)
unfolding write_labels set_labels
write_labels-WellFormed i labels = map-WellFormed (set_labels i labels) (λ t. ground arith)

pub archive_rows-WellFormed :
    (namespace uid : String) (s : Store) → WellFormed s → WellFormed (archive_rows namespace uid s)
unfolding archive_rows archive_row
archive_rows-WellFormed namespace uid =
    map-WellFormed (archive_row namespace uid) (λ t. ground arith)

-- the invariant reads two tables and one serial
pub same-WellFormed :
    (s t : Store)
    → t.templates ≡ s.templates
    → t.versions ≡ s.versions
    → t.template_serial ≡ s.template_serial
    → WellFormed s
    → WellFormed t
same-WellFormed s t p q r w = record {
  serial = rw r w.serial;
  latest = rw (p, q, r) w.latest;
  below = rw (q, r) w.below;
}

-- a serial only grows
weaken : (m n : ℕ) (vs : List VersionRow) → m ≤ n → All (IsBelow m) vs → All (IsBelow n) vs
weaken m n vs h = All-mono (IsBelow m) (IsBelow n) (λ v k. omega arith) vs

pub rollback-WellFormed :
    (s t : Store) → WellFormed s → s.template_serial ≤ t.template_serial → WellFormed (rollback s t)
unfolding rollback
rollback-WellFormed s t w h = record {
  serial = ground (arith, w.serial);
  latest =
      All-mono (HasLatest s.template_serial s.versions) (HasLatest t.template_serial s.versions)
        (λ a k. record { positive = k.positive; given = ground (arith, k.given); one = k.one })
        s.templates w.latest;
  below = weaken s.template_serial t.template_serial s.versions h w.below;
}

-- A new template with its first version.
module _ (s t : Store) (row : TemplateRow) (v : VersionRow)
    (tables : t.templates ≡ s.templates ++ row ∷ []) (versions : t.versions ≡ s.versions ++ v ∷ [])
    (serial : t.template_serial ≡ suc s.template_serial) (id : row.id ≡ s.template_serial)
    (owner : v.template_id ≡ s.template_serial) (is_new : v.is_latest ≡ true) where
  HasLatest-older :
      (a : TemplateRow)
      → HasLatest s.template_serial s.versions a
      → HasLatest (suc s.template_serial) (s.versions ++ v ∷ []) a
  unfolding latest_count
  HasLatest-older a h = record {
    positive = h.positive;
    given = ground (arith, h.given);
    one = ground (
      arith,
      latest_count-append a.id s.versions (v ∷ []),
      h.one,
      h.given,
      nat_eq_iff v.template_id a.id,
    );
  }

  HasLatest-newer : WellFormed s → HasLatest (suc s.template_serial) (s.versions ++ v ∷ []) row
  unfolding latest_count
  HasLatest-newer w = record {
    positive = ground (arith, w.serial);
    given = ground arith;
    one = ground (
      arith,
      latest_count-append row.id s.versions (v ∷ []),
      latest_count_fresh s.template_serial s.versions w.below,
      nat_eq_iff v.template_id row.id,
    );
  }

  pub new-WellFormed : WellFormed s → WellFormed t
  new-WellFormed w = record {
    serial = ground arith;
    latest =
        rw (tables, versions, serial)
          (All-append (HasLatest (suc s.template_serial) (s.versions ++ v ∷ [])) s.templates
            (row ∷ [])
            (All-mono (HasLatest s.template_serial s.versions)
              (HasLatest (suc s.template_serial) (s.versions ++ v ∷ [])) HasLatest-older s.templates
              w.latest)
            (HasLatest-newer w, tt));
    below =
        rw (versions, serial)
          (All-append (IsBelow (suc s.template_serial)) s.versions (v ∷ [])
            (weaken s.template_serial (suc s.template_serial) s.versions (ground arith) w.below)
            (ground arith, tt));
  }

-- A new version of a template, after the others have lost the mark.
module _ (s t : Store) (i : ℕ) (v : VersionRow) (tables : t.templates ≡ s.templates)
    (versions : t.versions ≡ map (outdate i) s.versions ++ v ∷ [])
    (serial : t.template_serial ≡ s.template_serial) (owner : v.template_id ≡ i)
    (is_new : v.is_latest ≡ true) where
  one-outdated :
      (j : ℕ)
      → latest_count j s.versions ≡ 1
      → latest_count j (map (outdate i) s.versions ++ v ∷ []) ≡ 1
  unfolding latest_count
  one-outdated j h = elim (Bool-cases (nat_eq i j)) [
    | inl e ↦
        let same : i ≡ j = (nat_eq_iff i j).0 e in
        rw (latest_count-append j (map (outdate i) s.versions) (v ∷ []))
          (ground (arith, latest_count-outdate i s.versions, nat_eq_iff v.template_id j))
    | inr e ↦ rw (latest_count-append j (map (outdate i) s.versions) (v ∷ [])) (
        ground (
          arith,
          latest_count-outdate_other i j s.versions,
          nat_eq_iff v.template_id j,
          nat_eq_iff i j,
        ))
  ]

  outdate-IsBelow : (n : ℕ) (a : VersionRow) → IsBelow n a → IsBelow n (outdate i a)
  unfolding outdate
  outdate-IsBelow n a h = ground arith

  pub outdated-WellFormed : i < s.template_serial → WellFormed s → WellFormed t
  outdated-WellFormed lt w = record {
    serial = rw serial w.serial;
    latest =
        rw (tables, versions, serial)
          (All-mono (HasLatest s.template_serial s.versions)
            (HasLatest s.template_serial (map (outdate i) s.versions ++ v ∷ []))
            (λ a h. record {
              positive = h.positive;
              given = h.given;
              one = one-outdated a.id h.one;
            })
            s.templates w.latest);
    below =
        rw (versions, serial)
          (All-append (IsBelow s.template_serial) (map (outdate i) s.versions) (v ∷ [])
            (All-map (IsBelow s.template_serial) (outdate i) (outdate-IsBelow s.template_serial)
              s.versions w.below)
            (rw owner lt, tt));
  }

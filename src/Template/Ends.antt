-- ===== src/Template/Ends.antt =====
-- The rounds of the loop of ArchiveWorkflowTemplate over the executions of a version
-- (pkg/workflow_template.go).
use onepanel.Base.{
  ℕ, zero, suc, ◌<◌, String, Bool, true, false, ◌≡◌, ◌≢◌, refl, sym, ap, subst, List, [], ◌∷◌, map,
  keep, length, Result, ok, err, arith, Bool-cases, inl, inr, All, All-append, fun_ext, nat_eq,
}
use onepanel.Base.State
use onepanel.Base.State.{M, ◌>>=◌, ◌>>◌}
use onepanel.Listing.{take_rows}
use onepanel.Template.Store.{Store, ExecutionRow, Env, attempt}
use onepanel.Template.Archive
use onepanel.Template.Archive.{
  Progress, spent, left_early, finished, is_pending, belongs, archive_execution_row,
  archive_workflow_execution, mark_execution, drop_workflow, newest_first, list_page,
  list_workflow_executions, archive_page, archive_executions, hide, hidden,
}
use onepanel.Template.Shrinks.{count, Has, Respects, archive-eq-ok, each-Shrinks, each_lt}

-- A row of a page is a row of the table that passes the test.
abbrev IsListed : (ExecutionRow → Bool) → List ExecutionRow → ExecutionRow → Type 0
IsListed p xs e = Has e xs × (p e ≡ true)

Listed-cons :
    (p : ExecutionRow → Bool) (x : ExecutionRow) (xs ys : List ExecutionRow)
    → All (IsListed p xs) ys
    → All (IsListed p (x ∷ xs)) ys
Listed-cons p x xs [] h = tt
Listed-cons p x xs (y ∷ ys) h = ((inr h.0.0, h.0.1), Listed-cons p x xs ys h.1)

keep-true :
    (p : ExecutionRow → Bool) (x : ExecutionRow) (xs : List ExecutionRow)
    → p x ≡ true
    → keep p (x ∷ xs) ≡ x ∷ keep p xs
keep-true p x xs e = rw (e, keep)

keep-false :
    (p : ExecutionRow → Bool) (x : ExecutionRow) (xs : List ExecutionRow)
    → p x ≡ false
    → keep p (x ∷ xs) ≡ keep p xs
keep-false p x xs e = rw (e, keep)

keep-Listed : (p : ExecutionRow → Bool) (xs : List ExecutionRow) → All (IsListed p xs) (keep p xs)
keep-Listed p [] = tt
keep-Listed p (x ∷ xs) = elim (Bool-cases (p x)) [
  | inl e ↦
      rw (keep-true p x xs e) ((inl refl, e), Listed-cons p x xs (keep p xs) (keep-Listed p xs))
  | inr e ↦ rw (keep-false p x xs e) (Listed-cons p x xs (keep p xs) (keep-Listed p xs))
]

newest_first-All :
    (P : ExecutionRow → Type 0) (xs : List ExecutionRow) → All P xs → All P (newest_first xs)
unfolding newest_first
newest_first-All P [] h = tt
newest_first-All P (x ∷ xs) h =
    All-append P (newest_first xs) (x ∷ []) (newest_first-All P xs h.1) (h.0, tt)

take_rows-All :
    (P : ExecutionRow → Type 0) (n : ℕ) (xs : List ExecutionRow) → All P xs → All P (take_rows n xs)
unfolding take_rows
take_rows-All P n [] h = tt
take_rows-All P zero (x ∷ xs) h = tt
take_rows-All P (suc n) (x ∷ xs) h = (h.0, take_rows-All P n xs h.1)

list_page-Listed :
    (namespace uid : String) (n : ℕ) (s : Store)
    → All (IsListed (is_pending namespace uid n s) s.executions) (list_page namespace uid n s)
unfolding list_page
list_page-Listed namespace uid n s =
    let p = is_pending namespace uid n s in
    take_rows-All (IsListed p s.executions) 100 (newest_first (keep p s.executions)) (
      newest_first-All (IsListed p s.executions) (keep p s.executions) (keep-Listed p s.executions))

pending-same :
    (namespace uid : String) (n : ℕ) (s t : Store)
    → t.templates ≡ s.templates
    → t.versions ≡ s.versions
    → is_pending namespace uid n t ≡ is_pending namespace uid n s
unfolding is_pending belongs
pending-same namespace uid n s t e f = fun_ext (λ x. rw (e, f) refl)

pending-Respects :
    (namespace uid : String) (n : ℕ) (s : Store) → Respects namespace (is_pending namespace uid n s)
unfolding is_pending
pending-Respects namespace uid n s e = refl

-- the execution is archived in the namespace that its template is listed in
abbrev IsOwn : String → (ℕ → Bool) → ExecutionRow → Type 0
IsOwn namespace of e = of e.version_id ≡ true → e.namespace ≡ namespace

archive_row-Own :
    (namespace uid : String) (of : ℕ → Bool) (xs : List ExecutionRow)
    → All (IsOwn namespace of) xs
    → All (IsOwn namespace of) (map (archive_execution_row namespace uid) xs)
archive_row-Own namespace uid of [] h = tt
archive_row-Own namespace uid of (x ∷ xs) h = (own, archive_row-Own namespace uid of xs h.1)
  where
    fields :
        ((archive_execution_row namespace uid x).version_id ≡ x.version_id)
        × ((archive_execution_row namespace uid x).namespace ≡ x.namespace)
    fields = unfold archive_execution_row in ground arith

    own : IsOwn namespace of (archive_execution_row namespace uid x)
    own = rw (fields.0, fields.1) h.0

each-Own :
    (env : Env) (namespace : String) (of : ℕ → Bool) (xs : List ExecutionRow) (s t : Store)
    {u : Unit {0}}
    → All (IsOwn namespace of) s.executions
    → State.each (λ x. archive_workflow_execution env namespace x.uid) xs s ≡ (ok u, t)
    → All (IsOwn namespace of) t.executions
unfolding State.each
each-Own env namespace of [] s t h e = rw (State.pure-eq-ok tt e) h
each-Own env namespace of (x ∷ xs) s t h e =
    State.after (archive_workflow_execution env namespace x.uid) _ e λ u s₁ e₁ k₁.
      let first = archive-eq-ok env namespace x.uid s s₁ e₁ in
      each-Own env namespace of xs s₁ t
        (rw first.2 (archive_row-Own namespace x.uid of s.executions h)) k₁

-- the version that a round asks for
abbrev pub owner : String → String → ℕ → Store → ℕ → Bool
owner namespace uid n s = belongs (Archive.is_of namespace uid) (λ v. nat_eq v.version n) s

owner-same :
    (namespace uid : String) (n : ℕ) (s t : Store)
    → t.templates ≡ s.templates
    → t.versions ≡ s.versions
    → owner namespace uid n t ≡ owner namespace uid n s
unfolding belongs
owner-same namespace uid n s t e f = fun_ext (λ x. rw (e, f) refl)

hide-eq-ok :
    {A : Type 0} (m : M Store A) {a : A} (s : Store) {t : Store}
    → hide m s ≡ (ok a, t)
    → m s ≡ (ok a, t)
hide-eq-ok {A} m {a} s {t} e = shown (m s) refl e
  where
    shown : (x : Result A × Store) → m s ≡ x → hidden x ≡ (ok a, t) → m s ≡ (ok a, t)
    shown (ok b, t') p q = unfold hidden in cc
    shown (err x, t') p q = absurd (unfold hidden in cc)

list-eq-ok :
    (env : Env) (namespace uid : String) (n : ℕ) (page : List ExecutionRow) (s t : Store)
    → list_workflow_executions env namespace uid n s ≡ (ok page, t)
    → (page ≡ list_page namespace uid n s) × (t ≡ s)
unfolding list_workflow_executions attempt State.check State.gets
list-eq-ok env namespace uid n page s t e = ground arith

Has-All :
    (P : ExecutionRow → Type 0) (x : ExecutionRow) (xs : List ExecutionRow)
    → Has x xs
    → All P xs
    → P x
Has-All P x [] m h = elim m [ ]
Has-All P x (y ∷ ys) (inl e) h = subst P (sym e) h.0
Has-All P x (y ∷ ys) (inr m) h = Has-All P x ys m h.1

pending-owner :
    (namespace uid : String) (n : ℕ) (s : Store) (e : ExecutionRow)
    → is_pending namespace uid n s e ≡ true
    → owner namespace uid n s e.version_id ≡ true
unfolding is_pending
pending-owner namespace uid n s e h = ground arith

-- A round that archives the executions of a page leaves fewer.
round_lt :
    (env : Env) (namespace uid : String) (n : ℕ) (x : ExecutionRow) (xs : List ExecutionRow)
    (s t : Store)
    → All (IsOwn namespace (owner namespace uid n s)) s.executions
    → x ∷ xs ≡ list_page namespace uid n s
    → State.each (λ y. archive_workflow_execution env namespace y.uid) (x ∷ xs) s ≡ (ok tt, t)
    → (t.templates ≡ s.templates)
      × (t.versions ≡ s.versions)
      × (count (is_pending namespace uid n t) t.executions
          < count (is_pending namespace uid n s) s.executions)
      × All (IsOwn namespace (owner namespace uid n t)) t.executions
round_lt env namespace uid n x xs s t own e k =
    let p = is_pending namespace uid n s in
    let respects = pending-Respects namespace uid n s in
    let listed : All (IsListed p s.executions) (x ∷ xs) =
      subst (All (IsListed p s.executions)) (sym e) (list_page-Listed namespace uid n s) in
    let owned =
      Has-All (IsOwn namespace (owner namespace uid n s)) x s.executions listed.0.0 own
        (pending-owner namespace uid n s x listed.0.1) in
    let same = each-Shrinks env namespace p respects (x ∷ xs) s t k in
    (
      same.0,
      same.1,
      rw (pending-same namespace uid n s t same.0 same.1)
          (each_lt env namespace p respects x xs s t listed.0.0 listed.0.1 owned k),
      rw (owner-same namespace uid n s t same.0 same.1)
          (each-Own env namespace (owner namespace uid n s) (x ∷ xs) s t own k),
    )

abbrev archive_one : Env → String → ExecutionRow → M Store (Unit {0})
archive_one env namespace x = archive_workflow_execution env namespace x.uid

-- The rest of the loop is not left with its fuel spent from fewer executions.
EndsBelow : M Store Progress → String → String → ℕ → ℕ → Type 0
EndsBelow rest namespace uid n bound =
    (t : Store)
    → All (IsOwn namespace (owner namespace uid n t)) t.executions
    → length (keep (is_pending namespace uid n t) t.executions) < bound
    → (rest t).0 ≢ ok spent

archive_page_ends :
    (rest : M Store Progress) (env : Env) (namespace uid : String) (n : ℕ)
    (page : List ExecutionRow) (s t : Store)
    → EndsBelow rest namespace uid n (length (keep (is_pending namespace uid n s) s.executions))
    → All (IsOwn namespace (owner namespace uid n s)) s.executions
    → page ≡ list_page namespace uid n s
    → archive_page env namespace rest page s ≢ (ok spent, t)
unfolding archive_page EndsBelow
archive_page_ends rest env namespace uid n [] s t ends own p k = unfold State.pure in cc
archive_page_ends rest env namespace uid n (x ∷ xs) s t ends own p k =
    State.after (hide (State.each (archive_one env namespace) (x ∷ xs))) _ k λ u s₂ e₂ k₂.
      let archived = hide-eq-ok (State.each (archive_one env namespace) (x ∷ xs)) s e₂ in
      let smaller = round_lt env namespace uid n x xs s s₂ own p archived in
      ends s₂ smaller.3 smaller.2 (ap (λ y. y.0) k₂)

-- The loop over the executions of a version is not left with its fuel spent, if the fuel is above the
-- number of the executions of this version that are not archived, and if each execution of the version
-- is kept in the namespace of the template.
pub archive_executions_ends :
    (fuel : ℕ) (env : Env) (namespace uid : String) (n : ℕ) (s : Store)
    → All (IsOwn namespace (owner namespace uid n s)) s.executions
    → length (keep (is_pending namespace uid n s) s.executions) < fuel
    → (archive_executions fuel env namespace uid n s).0 ≢ ok spent
unfolding archive_executions EndsBelow
archive_executions_ends zero env namespace uid n s own lt e = elim lt [ ]
archive_executions_ends (suc fuel) env namespace uid n s own lt e =
    State.after (hide (list_workflow_executions env namespace uid n)) _
      (ap (λ r. (r, (archive_executions (suc fuel) env namespace uid n s).1)) e)
      λ page s₁ e₁ k₁.
        let listed =
          list-eq-ok env namespace uid n page s s₁
            (hide-eq-ok (list_workflow_executions env namespace uid n) s e₁) in
        archive_page_ends _ env namespace uid n page s _
          (λ t own' less. archive_executions_ends fuel env namespace uid n t own' (omega arith)) own
          listed.0 (rw listed.1 at k₁)

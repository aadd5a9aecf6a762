-- ===== src/Workspace/Rows.antt =====
-- Relations between the rows before and after an operation, and what an UPDATE does to them.
use onepanel.Base.{
  ℕ, String, Bool, true, false, ◌≡◌, ◌≢◌, refl, subst, inl, inr, Option, some, List, [], ◌∷◌, ◌++◌,
  ◌∙◌, arith, All, nat_eq, nat_eq_iff, Bool-cases,
}
use onepanel.Params.{Parameter}
use onepanel.Workspace.Phase.{Phase, Row, is_terminated}
use onepanel.Workspace.Table.{select_live, is_live, update_rows, has_id, launch_row}
use onepanel.Workspace.Effect.{move_row}

-- The rows are the old ones in their order, each in the relation to what it was, and perhaps new
-- ones behind them.
abbrev pub Extends : (Row → Row → Type 0) → List Row → List Row → Type 0
Extends R [] rs' = Unit
Extends R (_ ∷ _) [] = ⊥
Extends R (r ∷ rs) (r' ∷ rs') = R r r' × Extends R rs rs'

-- A row is the same workspace as before, and a terminated one has not changed at all.
pub record Keeps (r r' : Row) : Type 0 where
  pub id : r'.id ≡ r.id
  pub namespace : r'.namespace ≡ r.namespace
  pub uid : r'.uid ≡ r.uid
  pub name : r'.name ≡ r.name
  pub template_id : r'.template_id ≡ r.template_id
  pub template_version : r'.template_version ≡ r.template_version
  pub labels : r'.labels ≡ r.labels
  pub capture_node : r'.capture_node ≡ r.capture_node
  pub frozen : is_terminated r.status.phase ≡ true → r' ≡ r

pub Keeps-refl : (r : Row) → Keeps r r
Keeps-refl r = record {
  id = refl;
  namespace = refl;
  uid = refl;
  name = refl;
  template_id = refl;
  template_version = refl;
  labels = refl;
  capture_node = refl;
  frozen = λ _. refl;
}

pub Keeps-trans : {r s t : Row} → Keeps r s → Keeps s t → Keeps r t
Keeps-trans h k = record {
  id = cc (h.id, k.id);
  namespace = cc (h.namespace, k.namespace);
  uid = cc (h.uid, k.uid);
  name = cc (h.name, k.name);
  template_id = cc (h.template_id, k.template_id);
  template_version = cc (h.template_version, k.template_version);
  labels = cc (h.labels, k.labels);
  capture_node = cc (h.capture_node, k.capture_node);
  frozen = λ e. let same = h.frozen e in k.frozen (rw same e) ∙ same;
}

pub Extends-refl : (rs : List Row) → Extends Keeps rs rs
Extends-refl [] = tt
Extends-refl (r ∷ rs) = (Keeps-refl r, Extends-refl rs)

pub Extends-append : (rs : List Row) (n : Row) → Extends Keeps rs (rs ++ n ∷ [])
Extends-append [] n = tt
Extends-append (r ∷ rs) n = (Keeps-refl r, Extends-append rs n)

pub Extends-trans :
    (rs ss ts : List Row) → Extends Keeps rs ss → Extends Keeps ss ts → Extends Keeps rs ts
Extends-trans [] ss ts h k = tt
Extends-trans (r ∷ rs) [] ts h k = absurd h
Extends-trans (r ∷ rs) (s ∷ ss) [] h k = absurd k
Extends-trans (r ∷ rs) (s ∷ ss) (t ∷ ts) h k = (Keeps-trans h.0 k.0, Extends-trans rs ss ts h.1 k.1)

pub move_row-Keeps :
    (namespace uid : String) (p : Phase) (now : ℕ) (ps : Option (List Parameter)) (r : Row)
    → is_live namespace uid r ≡ true
    → Keeps r (move_row p now ps r)
unfolding is_live move_row
move_row-Keeps namespace uid p now ps r h = ground arith

pub launch_row-Keeps :
    (now : ℕ) (r : Row) → is_terminated r.status.phase ≡ false → Keeps r (launch_row now r)
unfolding launch_row
launch_row-Keeps now r h = ground arith

pub update_rows-Extends :
    (test : Row → Bool) (f : Row → Row)
    → ((r : Row) → test r ≡ true → Keeps r (f r))
    → (rs : List Row) → Extends Keeps rs (update_rows test f rs)
unfolding update_rows
update_rows-Extends test f h [] = tt
update_rows-Extends test f h (r ∷ rs) = elim (Bool-cases (test r)) [
  | inl e ↦ (rw e (h r e), update_rows-Extends test f h rs)
  | inr e ↦ (rw e (Keeps-refl r), update_rows-Extends test f h rs)
]

-- the ids of the rows are distinct
abbrev pub Unique : List Row → Type 0
Unique [] = Unit
Unique (r ∷ rs) = All (λ s. s.id ≢ r.id) rs × Unique rs

pub select-id :
    (namespace uid : String) (rs : List Row) (r : Row) (n : ℕ)
    → select_live namespace uid rs ≡ some r
    → All (λ s. s.id ≢ n) rs
    → r.id ≢ n
unfolding select_live
select-id namespace uid [] r n found h = absurd (cc)
select-id namespace uid (s ∷ rs) r n found h = elim (Bool-cases (is_live namespace uid s)) [
  | inl e ↦ let same : s ≡ r = ground arith in rw (← same) h.0
  | inr e ↦ select-id namespace uid rs r n (ground arith) h.1
]

pub update-others :
    (n : ℕ) (f : Row → Row) (rs : List Row)
    → All (λ s. s.id ≢ n) rs
    → update_rows (has_id n) f rs ≡ rs
unfolding update_rows
update-others n f [] h = refl
update-others n f (r ∷ rs) h = ground (arith, update-others n f rs, h.0)

pub live-ne-terminated :
    (namespace uid : String) (r : Row)
    → is_live namespace uid r ≡ true
    → is_terminated r.status.phase ≡ false
unfolding is_live
live-ne-terminated namespace uid r h = ground arith

launch_head :
    (namespace uid : String) (now : ℕ) (r : Row) (rs : List Row)
    → is_live namespace uid r ≡ true
    → Unique (r ∷ rs)
    → Extends Keeps (r ∷ rs) (update_rows (has_id r.id) (launch_row now) (r ∷ rs))
unfolding update_rows
launch_head namespace uid now r rs live u = (
  rw ((nat_eq_iff r.id r.id).1 refl)
      (launch_row-Keeps now r (live-ne-terminated namespace uid r live)),
  rw (update-others r.id (launch_row now) rs u.0) (Extends-refl rs),
)

pub ne-test : (m n : ℕ) → n ≢ m → nat_eq m n ≡ false
ne-test m n h = ground arith

launch_skip :
    (now : ℕ) (r s : Row) (rs : List Row)
    → r.id ≢ s.id
    → Extends Keeps rs (update_rows (has_id r.id) (launch_row now) rs)
    → Extends Keeps (s ∷ rs) (update_rows (has_id r.id) (launch_row now) (s ∷ rs))
unfolding update_rows
launch_skip now r s rs other h = rw (ne-test s.id r.id other) (Keeps-refl s, h)

-- a launch by id changes the row that was read, and no other
pub launch-Extends :
    (namespace uid : String) (now : ℕ) (rs : List Row) (r : Row)
    → Unique rs
    → select_live namespace uid rs ≡ some r
    → Extends Keeps rs (update_rows (has_id r.id) (launch_row now) rs)
unfolding select_live
launch-Extends namespace uid now [] r u found = tt
launch-Extends namespace uid now (s ∷ rs) r u found = elim (Bool-cases (is_live namespace uid s)) [
  | inl e ↦
      let same : s ≡ r = ground arith in
      subst
        (λ (x : Row). Extends Keeps (s ∷ rs) (update_rows (has_id x.id) (launch_row now) (s ∷ rs)))
        same (launch_head namespace uid now s rs e u)
  | inr e ↦
      let in_rest : select_live namespace uid rs ≡ some r = ground arith in
      let other : r.id ≢ s.id = select-id namespace uid rs r s.id in_rest u.0 in
      launch_skip now r s rs other (launch-Extends namespace uid now rs r u.1 in_rest)
]

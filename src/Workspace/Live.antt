-- ===== src/Workspace/Live.antt =====
-- The number of workspaces of a uid that are not terminated, and the times of a pause.
use onepanel.Base.{
  ℕ, suc, ◌+◌, ◌≤◌, String, Bool, true, false, ◌≡◌, ◌≢◌, refl, subst, sym, ap, ◌∙◌, Option, none,
  some, List, [], ◌∷◌, ◌++◌, arith, All, Bool-cases, inl, inr, length, eq_iff, nat_eq_iff,
}
use onepanel.Params.{Parameter}
use onepanel.Workspace.Phase.{Phase, Row, is_terminated, launching, failed_to_launch}
use onepanel.Workspace.Table.{select_live, is_live, update_rows, rows_affected, has_id, launch_row}
use onepanel.Workspace.Effect.{move_row}
use onepanel.Workspace.Rows.{Extends, Keeps, Unique, update-others, select-id, ne-test}

-- a workspace that is being launched, or failed to, has no time of a pause
abbrev pub LaunchOk : Phase → Option ℕ → Type 0
LaunchOk launching paused_at = paused_at ≡ none
LaunchOk failed_to_launch paused_at = paused_at ≡ none
LaunchOk _ _ = Unit

abbrev pub RowOk : Row → Type 0
RowOk r = LaunchOk r.status.phase r.status.paused_at

pub live-names :
    (namespace uid : String) (r : Row)
    → is_live namespace uid r ≡ true
    → (r.namespace ≡ namespace) × (r.uid ≡ uid)
unfolding is_live
live-names namespace uid r h =
    (ground (arith, eq_iff r.namespace namespace), ground (arith, eq_iff r.uid uid))

live-of-names :
    (namespace uid : String) (r : Row)
    → r.namespace ≡ namespace
    → r.uid ≡ uid
    → is_terminated r.status.phase ≡ false
    → is_live namespace uid r ≡ true
unfolding is_live
live-of-names namespace uid r n u h = ground (arith, eq_iff r.namespace namespace, eq_iff r.uid uid)

live-Keeps :
    (namespace uid : String) (r r' : Row)
    → Keeps r r'
    → is_live namespace uid r' ≡ true
    → is_live namespace uid r ≡ true
live-Keeps namespace uid r r' k h = elim (Bool-cases (is_terminated r.status.phase)) [
  | inl e ↦ rw (k.frozen e) at h
  | inr e ↦
      let (n, u) = live-names namespace uid r' h in
      live-of-names namespace uid r (sym k.namespace ∙ n) (sym k.uid ∙ u) e
]

pub length-update :
    (test : Row → Bool) (f : Row → Row) (rs : List Row) → length (update_rows test f rs) ≡ length rs
unfolding update_rows
length-update test f [] = refl
length-update test f (r ∷ rs) = ap suc (length-update test f rs)

-- rows that are only changed are not more often live
pub live_mono :
    (namespace uid : String) (rs rs' : List Row)
    → Extends Keeps rs rs'
    → length rs' ≡ length rs
    → rows_affected (is_live namespace uid) rs' ≤ rows_affected (is_live namespace uid) rs
unfolding rows_affected
live_mono namespace uid [] [] h l = omega arith
live_mono namespace uid [] (_ ∷ _) h l = absurd (omega arith)
live_mono namespace uid (r ∷ rs) [] h l = absurd h
live_mono namespace uid (r ∷ rs) (r' ∷ rs') h l =
    ground (arith, live-Keeps namespace uid r r' h.0, live_mono namespace uid rs rs' h.1)

pub count_of_none :
    (namespace uid : String) (rs : List Row)
    → select_live namespace uid rs ≡ none
    → rows_affected (is_live namespace uid) rs ≡ 0
unfolding select_live rows_affected
count_of_none namespace uid [] h = refl
count_of_none namespace uid (r ∷ rs) h = ground (arith, count_of_none namespace uid rs)

count-append :
    (test : Row → Bool) (rs : List Row) (r : Row)
    → rows_affected test (rs ++ r ∷ []) ≡ rows_affected test rs + rows_affected test (r ∷ [])
unfolding rows_affected
count-append test [] r = omega arith
count-append test (s ∷ rs) r = ground (arith, count-append test rs r)

count_one : (test : Row → Bool) (r : Row) → rows_affected test (r ∷ []) ≤ 1
unfolding rows_affected
count_one test r = ground arith

count_not : (test : Row → Bool) (r : Row) → test r ≡ false → rows_affected test (r ∷ []) ≡ 0
unfolding rows_affected
count_not test r h = rw h

-- a row that is put where none of its names was live
pub live-append :
    (namespace uid : String) (rs : List Row) (r : Row)
    → select_live r.namespace r.uid rs ≡ none
    → rows_affected (is_live namespace uid) rs ≤ 1
    → rows_affected (is_live namespace uid) (rs ++ r ∷ []) ≤ 1
live-append namespace uid rs r h k = rw count-append (elim (Bool-cases (is_live namespace uid r)) [
  | inl e ↦
      let (n, u) = live-names namespace uid r e in
      let nothing : rows_affected (is_live namespace uid) rs ≡ 0 =
        count_of_none namespace uid rs (rw (n, u) at h) in
      omega (arith, nothing, count_one (is_live namespace uid) r)
  | inr e ↦ omega (arith, count_not (is_live namespace uid) r e)
])

pub move-RowOk :
    (p : Phase) (now : ℕ) (ps : Option (List Parameter)) (r : Row)
    → p ≢ failed_to_launch
    → RowOk (move_row p now ps r)
unfolding move_row
move-RowOk launching now none r h = refl
move-RowOk launching now (some ps) r h = refl
move-RowOk failed_to_launch now ps r h = absurd (h refl)
move-RowOk p now none r h = tt
move-RowOk p now (some ps) r h = tt

pub update-RowOk :
    (test : Row → Bool) (f : Row → Row) (rs : List Row)
    → ((r : Row) → RowOk (f r))
    → All RowOk rs
    → All RowOk (update_rows test f rs)
unfolding update_rows
update-RowOk test f [] k h = tt
update-RowOk test f (r ∷ rs) k h = elim (Bool-cases (test r)) [
  | inl e ↦ (rw e (k r), update-RowOk test f rs k h.1)
  | inr e ↦ (rw e h.0, update-RowOk test f rs k h.1)
]

update_none :
    (test : Row → Bool) (f : Row → Row) (rs : List Row)
    → rows_affected test rs ≡ 0
    → update_rows test f rs ≡ rs
unfolding update_rows rows_affected
update_none test f [] h = refl
update_none test f (r ∷ rs) h = ground (arith, update_none test f rs)

move_failed-paused :
    (now : ℕ) (r : Row) → r.status.paused_at ≡ none → RowOk (move_row failed_to_launch now none r)
unfolding move_row
move_failed-paused now r h = h

-- a launch that fails leaves no time of a pause on the one row that it writes
pub fail-RowOk :
    (namespace uid : String) (now : ℕ) (rs : List Row) (r : Row)
    → select_live namespace uid rs ≡ some r
    → r.status.paused_at ≡ none
    → rows_affected (is_live namespace uid) rs ≤ 1
    → All RowOk rs
    → All RowOk (update_rows (is_live namespace uid) (move_row failed_to_launch now none) rs)
unfolding select_live update_rows rows_affected
fail-RowOk namespace uid now [] r found p c h = tt
fail-RowOk namespace uid now (s ∷ rs) r found p c h = elim (Bool-cases (is_live namespace uid s)) [
  | inl e ↦
      let same : s ≡ r = ground arith in
      let rest : rows_affected (is_live namespace uid) rs ≡ 0 = ground arith in
      (
        rw e (move_failed-paused now s (rw same p)),
        rw (update_none (is_live namespace uid) (move_row failed_to_launch now none) rs rest) h.1,
      )
  | inr e ↦ (rw e h.0, fail-RowOk namespace uid now rs r (ground arith) p (ground arith) h.1)
]

launch_row-RowOk :
    (now : ℕ) (r : Row) → r.status.phase ≡ failed_to_launch → RowOk r → RowOk (launch_row now r)
unfolding launch_row
launch_row-RowOk now r e h = ground arith

launch_row-head :
    (now : ℕ) (r : Row) (rs : List Row)
    → r.status.phase ≡ failed_to_launch
    → Unique (r ∷ rs)
    → All RowOk (r ∷ rs)
    → All RowOk (update_rows (has_id r.id) (launch_row now) (r ∷ rs))
unfolding update_rows
launch_row-head now r rs p u h = (
  rw ((nat_eq_iff r.id r.id).1 refl) (launch_row-RowOk now r p h.0),
  rw (update-others r.id (launch_row now) rs u.0) h.1,
)

launch_row-skip :
    (now : ℕ) (r s : Row) (rs : List Row)
    → r.id ≢ s.id
    → RowOk s
    → All RowOk (update_rows (has_id r.id) (launch_row now) rs)
    → All RowOk (update_rows (has_id r.id) (launch_row now) (s ∷ rs))
unfolding update_rows
launch_row-skip now r s rs apart k h = rw (ne-test s.id r.id apart) (k, h)

-- a launch that is tried again leaves no time of a pause on the one row that it writes
pub launch-RowOk :
    (namespace uid : String) (now : ℕ) (rs : List Row) (r : Row)
    → Unique rs
    → select_live namespace uid rs ≡ some r
    → r.status.phase ≡ failed_to_launch
    → All RowOk rs
    → All RowOk (update_rows (has_id r.id) (launch_row now) rs)
unfolding select_live
launch-RowOk namespace uid now [] r u found p h = absurd (cc)
launch-RowOk namespace uid now (s ∷ rs) r u found p h =
    elim (Bool-cases (is_live namespace uid s)) [
      | inl e ↦
          let same : s ≡ r = ground arith in
          subst (λ (x : Row). All RowOk (update_rows (has_id x.id) (launch_row now) (s ∷ rs))) same
            (launch_row-head now s rs (rw same p) u h)
      | inr e ↦
          let in_rest : select_live namespace uid rs ≡ some r = ground arith in
          launch_row-skip now r s rs (select-id namespace uid rs r s.id in_rest u.0) h.0
            (launch-RowOk namespace uid now rs r u.1 in_rest p h.1)
    ]

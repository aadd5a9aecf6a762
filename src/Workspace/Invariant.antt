-- ===== src/Workspace/Invariant.antt =====
-- What holds of the table between two requests.
use onepanel.Base.{
  ℕ, ◌≤◌, String, Bool, ◌≡◌, ◌≢◌, refl, sym, Result, Option, none, List, [], ◌∷◌, ◌++◌, arith, All,
  All-append, Bool-cases, inl, inr, length,
}
use onepanel.Params.{Parameter}
use onepanel.Workspace.Phase.{Phase, Row, failed_to_launch}
use onepanel.Workspace.World.{World, Env}
use onepanel.Workspace.Table.{is_live, update_rows, rows_affected, launch_row}
use onepanel.Workspace.Effect.{Effect, same, moved, launch_failed, started, created, move_row}
use onepanel.Workspace.Machine.{Request, serve}
use onepanel.Workspace.Serve.{IsReport, serve-Effect}
use onepanel.Workspace.Rows.{
  Extends, Keeps, Unique, Extends-refl, Extends-append, update_rows-Extends, move_row-Keeps,
  launch-Extends,
}
use onepanel.Workspace.Live.{
  RowOk, length-update, live_mono, live-append, move-RowOk, update-RowOk, fail-RowOk, launch-RowOk,
}

-- The ids are distinct, a namespace has at most one workspace of a uid that is not terminated, and no
-- workspace in its launch has a time of a pause.
pub record WellFormed (rs : List Row) : Type 0 where
  pub unique_ids : Unique rs
  pub one_live : (namespace uid : String) → rows_affected (is_live namespace uid) rs ≤ 1
  pub unpaused : All RowOk rs

-- the new id is that of no row
abbrev pub IsFresh : ℕ → List Row → Type 0
IsFresh n rs = All (λ r. r.id ≢ n) rs

Effect-Extends :
    (env : Env) (namespace : String) (rs rs' : List Row)
    → Unique rs
    → Effect env namespace rs rs'
    → Extends Keeps rs rs'
Effect-Extends env namespace rs rs' u (same e) = rw e (Extends-refl rs)
Effect-Extends env namespace rs rs' u (moved uid p ps h e) =
    rw e (update_rows-Extends _ _ (move_row-Keeps namespace uid p env.now ps) rs)
Effect-Extends env namespace rs rs' u (launch_failed uid r found l q e) =
    rw e (update_rows-Extends _ _ (move_row-Keeps namespace uid failed_to_launch env.now none) rs)
Effect-Extends env namespace rs rs' u (started uid r found p e) =
    rw e (launch-Extends namespace uid env.now rs r u found)
Effect-Extends env namespace rs rs' u (created r absent n i l q e) = rw e (Extends-append rs r)

-- ids stay distinct
ids-Extends :
    (n : ℕ) (rs : List Row) (test : Row → Bool) (f : Row → Row)
    → ((r : Row) → (f r).id ≡ r.id)
    → All (λ r. r.id ≢ n) rs
    → All (λ r. r.id ≢ n) (update_rows test f rs)
unfolding update_rows
ids-Extends n [] test f k h = tt
ids-Extends n (r ∷ rs) test f k h = elim (Bool-cases (test r)) [
  | inl e ↦ (rw e (λ q. h.0 (cc (k r))), ids-Extends n rs test f k h.1)
  | inr e ↦ (rw e h.0, ids-Extends n rs test f k h.1)
]

Unique-update :
    (rs : List Row) (test : Row → Bool) (f : Row → Row)
    → ((r : Row) → (f r).id ≡ r.id)
    → Unique rs
    → Unique (update_rows test f rs)
unfolding update_rows
Unique-update [] test f k u = tt
Unique-update (r ∷ rs) test f k u = elim (Bool-cases (test r)) [
  | inl e ↦ rw e (rw (k r) (ids-Extends r.id rs test f k u.0, Unique-update rs test f k u.1))
  | inr e ↦ rw e (ids-Extends r.id rs test f k u.0, Unique-update rs test f k u.1)
]

Unique-append : (rs : List Row) (r : Row) → Unique rs → IsFresh r.id rs → Unique (rs ++ r ∷ [])
Unique-append [] r u h = (tt, tt)
Unique-append (s ∷ rs) r u h = (
  All-append (λ x. x.id ≢ s.id) rs (r ∷ []) u.0 (λ e. h.0 (sym e), tt),
  Unique-append rs r u.1 h.1,
)

id-move :
    (p : Phase) (now : ℕ) (ps : Option (List Parameter)) (r : Row) → (move_row p now ps r).id ≡ r.id
unfolding move_row
id-move p now ps r = ground arith

id-launch : (now : ℕ) (r : Row) → (launch_row now r).id ≡ r.id
unfolding launch_row
id-launch now r = refl

Effect-Unique :
    (env : Env) (namespace : String) (rs rs' : List Row)
    → Unique rs
    → IsFresh env.new_id rs
    → Effect env namespace rs rs'
    → Unique rs'
Effect-Unique env namespace rs rs' u h (same e) = rw e u
Effect-Unique env namespace rs rs' u h (moved uid p ps k e) =
    rw e (Unique-update rs _ _ (id-move p env.now ps) u)
Effect-Unique env namespace rs rs' u h (launch_failed uid r found l q e) =
    rw e (Unique-update rs _ _ (id-move failed_to_launch env.now none) u)
Effect-Unique env namespace rs rs' u h (started uid r found p e) =
    rw e (Unique-update rs _ _ (id-launch env.now) u)
Effect-Unique env namespace rs rs' u h (created r absent n i l q e) =
    rw e (Unique-append rs r u (rw i h))

same-length-Live :
    (env : Env) (namespace : String) (rs rs' : List Row) (n u : String)
    → Extends Keeps rs rs'
    → length rs' ≡ length rs
    → rows_affected (is_live n u) rs ≤ 1
    → rows_affected (is_live n u) rs' ≤ 1
same-length-Live env namespace rs rs' n u h l k = omega (arith, live_mono n u rs rs' h l)

Effect-Live :
    (env : Env) (namespace : String) (rs rs' : List Row)
    → Unique rs
    → ((n u : String) → rows_affected (is_live n u) rs ≤ 1)
    → Effect env namespace rs rs'
    → (n u : String) → rows_affected (is_live n u) rs' ≤ 1
Effect-Live env namespace rs rs' d h (same e) n u = rw e (h n u)
Effect-Live env namespace rs rs' d h (moved uid p ps k e) n u =
    same-length-Live env namespace rs rs' n u
      (Effect-Extends env namespace rs rs' d (moved uid p ps k e)) (rw e (length-update _ _ rs))
      (h n u)
Effect-Live env namespace rs rs' d h (launch_failed uid r found l q e) n u =
    same-length-Live env namespace rs rs' n u
      (Effect-Extends env namespace rs rs' d (launch_failed uid r found l q e))
      (rw e (length-update _ _ rs)) (h n u)
Effect-Live env namespace rs rs' d h (started uid r found p e) n u =
    same-length-Live env namespace rs rs' n u
      (Effect-Extends env namespace rs rs' d (started uid r found p e))
      (rw e (length-update _ _ rs)) (h n u)
Effect-Live env namespace rs rs' d h (created r absent m i l q e) n u =
    rw e (live-append n u rs r (rw m absent) (h n u))

Effect-RowOk :
    (env : Env) (namespace : String) (rs rs' : List Row)
    → WellFormed rs
    → Effect env namespace rs rs'
    → All RowOk rs'
Effect-RowOk env namespace rs rs' v (same e) = rw e v.unpaused
Effect-RowOk env namespace rs rs' v (moved uid p ps k e) =
    rw e (update-RowOk _ _ rs (λ r. move-RowOk p env.now ps r k) v.unpaused)
Effect-RowOk env namespace rs rs' v (launch_failed uid r found l q e) =
    rw e (fail-RowOk namespace uid env.now rs r found q (v.one_live namespace uid) v.unpaused)
Effect-RowOk env namespace rs rs' v (started uid r found p e) =
    rw e (launch-RowOk namespace uid env.now rs r v.unique_ids found p v.unpaused)
Effect-RowOk env namespace rs rs' v (created r absent m i l q e) =
    rw e (All-append RowOk rs (r ∷ []) v.unpaused (rw l q, tt))

-- A request, whatever its outcome, keeps a table well formed, if it reports no phase `Failed to launch`
-- and the id that the database gives to a new row is new.
pub serve-WellFormed :
    (is_authorized : String → Result Bool) (env : Env) (namespace : String) (w : World)
    (q : Request)
    → IsReport q
    → IsFresh env.new_id w.rows
    → WellFormed w.rows
    → WellFormed (serve is_authorized env namespace q w).1.rows
serve-WellFormed is_authorized env namespace w q h new v =
    let e = serve-Effect is_authorized env namespace w q h in
    record {
      unique_ids = Effect-Unique env namespace w.rows _ v.unique_ids new e;
      one_live = Effect-Live env namespace w.rows _ v.unique_ids v.one_live e;
      unpaused = Effect-RowOk env namespace w.rows _ v e;
    }

-- From a well-formed table, a request that reports no phase `Failed to launch` deletes no row, moves no
-- row, changes no workspace's id, namespace, uid, name, template, labels or node capture, and changes
-- nothing at all in a terminated one.
pub serve-Extends :
    (is_authorized : String → Result Bool) (env : Env) (namespace : String) (w : World)
    (q : Request)
    → IsReport q
    → WellFormed w.rows
    → Extends Keeps w.rows (serve is_authorized env namespace q w).1.rows
serve-Extends is_authorized env namespace w q h v =
    Effect-Extends env namespace w.rows _ v.unique_ids
      (serve-Effect is_authorized env namespace w q h)

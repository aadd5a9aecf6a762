-- ===== src/Execution/History.antt =====
-- Sequences of the statements on `workflow_executions`.
use onepanel.Base.{
  ℕ, String, Bool, true, false, ◌==◌, ◌≡◌, refl, List, [], ◌∷◌, arith, eq_iff, All, All-append,
  Bool-cases, inl, inr,
}
use onepanel.Execution.Rows.{
  Row, update_rows, is_at, create_workflow_execution_db, is_unfinished, finish_row,
  finish_statistic, status_row, update_workflow_execution_status, terminate_row,
  terminate_workflow_execution, archive_row, archive_workflow_execution,
}

-- a statement with its arguments, the times last
pub data Event : Type 0 where
  create : Row → Event
  finish : String → String → String → ℕ → ℕ → Event
  status : String → String → String → ℕ → Event
  terminate : String → String → ℕ → Event
  archive : String → String → Event

unfoldable pub apply : Event → List Row → List Row
unfolding create_workflow_execution_db finish_statistic update_workflow_execution_status
    terminate_workflow_execution archive_workflow_execution
apply (create r) rs = create_workflow_execution_db r rs
apply (finish namespace name phase started_at now) rs =
    finish_statistic namespace name phase started_at now rs
apply (status namespace uid phase now) rs =
    update_workflow_execution_status namespace uid phase now rs
apply (terminate namespace uid now) rs = terminate_workflow_execution namespace uid now rs
apply (archive namespace uid) rs = archive_workflow_execution namespace uid rs

unfoldable pub apply_all : List Event → List Row → List Row
unfolding apply
apply_all [] rs = rs
apply_all (e ∷ es) rs = apply_all es (apply e rs)

-- the event neither reports a status of the execution nor creates one of its uid
abbrev pub IsQuiet : String → Event → Type 0
IsQuiet uid (create r) = (r.uid == uid) ≡ false
IsQuiet uid (status namespace u phase now) = (u == uid) ≡ false
IsQuiet uid (finish namespace name phase started_at now) = Unit
IsQuiet uid (terminate namespace u now) = Unit
IsQuiet uid (archive namespace u) = Unit

-- a row of the uid is terminated
abbrev pub IsStopped : String → Row → Type 0
IsStopped uid r = (r.uid == uid) ≡ true → r.phase ≡ "Terminated"

update_rows-IsStopped :
    (uid : String) (test : Row → Bool) (f : Row → Row)
    → ((r : Row) → test r ≡ true → IsStopped uid r → IsStopped uid (f r))
    → (rs : List Row) → All (IsStopped uid) rs
    → All (IsStopped uid) (update_rows test f rs)
unfolding update_rows
update_rows-IsStopped uid test f k [] h = tt
update_rows-IsStopped uid test f k (r ∷ rs) h = elim (Bool-cases (test r)) [
  | inl e ↦ rw e (k r e h.0, update_rows-IsStopped uid test f k rs h.1)
  | inr e ↦ rw e (h.0, update_rows-IsStopped uid test f k rs h.1)
]

apply-IsStopped :
    (uid : String) (e : Event) (rs : List Row)
    → IsQuiet uid e
    → All (IsStopped uid) rs
    → All (IsStopped uid) (apply e rs)
unfolding apply
apply-IsStopped uid (create r) rs q h =
    All-append (IsStopped uid) rs _ h ((λ k. absurd (cc (k, q))), tt)
apply-IsStopped uid (status namespace u phase now) rs q h =
    update_rows-IsStopped uid (is_at namespace u) (status_row phase now) kept rs h
  where
    kept :
        (r : Row)
        → is_at namespace u r ≡ true
        → IsStopped uid r
        → IsStopped uid (status_row phase now r)
    kept r t s k =
        unfold is_at status_row in ground (arith, eq_iff r.uid u, eq_iff r.uid uid, eq_iff u uid)
apply-IsStopped uid (finish namespace name phase started_at now) rs q h =
    update_rows-IsStopped uid (is_unfinished name) (finish_row namespace name phase started_at now)
      kept rs h
  where
    kept :
        (r : Row)
        → is_unfinished name r ≡ true
        → IsStopped uid r
        → IsStopped uid (finish_row namespace name phase started_at now r)
    kept r t s k =
        unfold is_unfinished finish_row in
        ground (arith, eq_iff r.phase "Terminated", s (unfold finish_row in k))
apply-IsStopped uid (terminate namespace u now) rs q h =
    update_rows-IsStopped uid (is_at namespace u) (terminate_row now)
      (λ r t s k. unfold terminate_row in refl) rs h
apply-IsStopped uid (archive namespace u) rs q h =
    update_rows-IsStopped uid (is_at namespace u) archive_row (λ r t s. unfold archive_row in s) rs
      h

-- If every row of a uid is terminated, it stays so in every sequence of creations of other executions,
-- reports of exit handlers in any namespace and of any name, terminations, archivings, and reports of a
-- status of other executions.
pub apply_all-IsStopped :
    (uid : String) (es : List Event) (rs : List Row)
    → All (IsQuiet uid) es
    → All (IsStopped uid) rs
    → All (IsStopped uid) (apply_all es rs)
unfolding apply_all
apply_all-IsStopped uid [] rs q h = h
apply_all-IsStopped uid (e ∷ es) rs q h =
    apply_all-IsStopped uid es (apply e rs) q.1 (apply-IsStopped uid e rs q.0 h)

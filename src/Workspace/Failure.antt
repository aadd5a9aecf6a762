-- ===== src/Workspace/Failure.antt =====
-- What a reported failure does, and a retry.
use onepanel.Base.{
  ◌<◌, String, Bool, true, false, ◌≡◌, ◌≢◌, refl, ◌∙◌, inl, inr, none, some, List, [], ◌∷◌, Map,
  arith, All, panic, Result, ok, err, Bool-cases,
}
use onepanel.Workspace.Phase.{Phase, Row, status_of, launching, failed_to_launch, failed, error}
use onepanel.Workspace.World.{World, Env, lift, bind-same}
use onepanel.Workspace.Table.{select_live, is_live, update_rows, rows_affected}
use onepanel.Workspace.Update.{get_workspace}
use onepanel.Workspace.Status.{
  failure_phase, write_status, update_workspace_status, retry_verb, retry_row, if_allowed,
  retry_action, retry_last_workspace_action,
}
use onepanel.Workspace.Effect.{move_row, get_workspace-world}
use onepanel.Workspace.Live.{RowOk}
use onepanel.Workspace.Invariant.{WellFormed}

-- no call of the environment fails
pub record IsHealthy (env : Env) : Type 0 where
  pub select : env.select_error ≡ none
  pub exec : env.exec_error ≡ none
  pub config : Map String
  pub configured : env.config ≡ ok config
  pub inject : env.inject_error ≡ none

-- the phases with which a workflow reports a failure
abbrev pub IsFailure : Phase → Type 0
IsFailure failed = Unit
IsFailure error = Unit
IsFailure _ = ⊥

select-RowOk :
    (namespace uid : String) (rs : List Row) (r : Row)
    → select_live namespace uid rs ≡ some r
    → All RowOk rs
    → RowOk r
unfolding select_live
select-RowOk namespace uid [] r found h = absurd (cc)
select-RowOk namespace uid (s ∷ rs) r found h = elim (Bool-cases (is_live namespace uid s)) [
  | inl e ↦ let same : s ≡ r = ground arith in rw (← same) h.0
  | inr e ↦ select-RowOk namespace uid rs r (ground arith) h.1
]

select-affected :
    (namespace uid : String) (rs : List Row) (r : Row)
    → select_live namespace uid rs ≡ some r
    → 0 < rows_affected (is_live namespace uid) rs
unfolding select_live rows_affected
select-affected namespace uid [] r found = absurd (cc)
select-affected namespace uid (s ∷ rs) r found = ground (arith, select-affected namespace uid rs r)

none-affected :
    (namespace uid : String) (rs : List Row)
    → select_live namespace uid rs ≡ none
    → rows_affected (is_live namespace uid) rs ≡ 0
unfolding select_live rows_affected
none-affected namespace uid [] h = refl
none-affected namespace uid (r ∷ rs) h = ground (arith, none-affected namespace uid rs)

module _ (env : Env) (namespace uid : String) (w : World) (healthy : IsHealthy env) where
  open healthy use {config, configured}

  get_some :
      (r : Row)
      → select_live namespace uid w.rows ≡ some r
      → get_workspace env namespace uid w ≡ (ok (some r), w)
  unfolding get_workspace
  get_some r found = rw (healthy.select, found, configured, healthy.inject)

  get_none :
      select_live namespace uid w.rows ≡ none → get_workspace env namespace uid w ≡ (ok none, w)
  unfolding get_workspace
  get_none absent = rw (healthy.select, absent)

  write_some :
      (p : Phase) (r : Row)
      → select_live namespace uid w.rows ≡ some r
      → write_status env namespace uid (status_of p) w ≡ (
        ok tt,
        record w { rows = update_rows (is_live namespace uid) (move_row p env.now none) w.rows },
      )
  unfolding write_status move_row
  write_some p r found = ground (arith, select-affected namespace uid w.rows r, healthy.exec)

  launch_failure_phase :
      (r : Row) (p : Phase)
      → r.status.phase ≡ launching
      → RowOk r
      → failure_phase r.status.phase r.status.paused_at p ≡ failed_to_launch
  unfolding failure_phase
  launch_failure_phase r p l h = ground arith

  report_failure :
      (p : Phase) (r : Row)
      → IsFailure p
      → select_live namespace uid w.rows ≡ some r
      → update_workspace_status env namespace uid (status_of p) w
        ≡ write_status env namespace uid
            (status_of (failure_phase r.status.phase r.status.paused_at p))
            w
  unfolding update_workspace_status
  report_failure failed r f found = rw (get_some r found)
  report_failure error r f found = rw (get_some r found)
  report_failure _ r f found = absurd f

-- In a well-formed table, a failure that is reported of a workspace in its launch, also of one that was
-- paused before and is being resumed, gives it the phase `Failed to launch`, when no call fails.
pub launch_failure :
    (env : Env) (namespace uid : String) (w : World) (p : Phase) (r : Row)
    → IsHealthy env
    → WellFormed w.rows
    → IsFailure p
    → select_live namespace uid w.rows ≡ some r
    → r.status.phase ≡ launching
    → update_workspace_status env namespace uid (status_of p) w ≡ (
      ok tt,
      record w {
        rows = update_rows (is_live namespace uid) (move_row failed_to_launch env.now none) w.rows;
      },
    )
launch_failure env namespace uid w p r h v f found l =
    let paused = select-RowOk namespace uid w.rows r found v.unpaused in
    report_failure env namespace uid w h p r f found
    ∙ rw (launch_failure_phase env namespace uid w h r p l paused)
        (write_some env namespace uid w h failed_to_launch r found)

-- A failure that is reported of a workspace that is not there panics, when no call fails, and leaves the
-- table as it was.
pub missing_failure :
    (env : Env) (namespace uid : String) (w : World) (p : Phase)
    → IsHealthy env
    → IsFailure p
    → select_live namespace uid w.rows ≡ none
    → update_workspace_status env namespace uid (status_of p) w ≡ (err panic, w)
unfolding update_workspace_status
missing_failure env namespace uid w failed h f absent = rw (get_none env namespace uid w h absent)
missing_failure env namespace uid w error h f absent = rw (get_none env namespace uid w h absent)
missing_failure env namespace uid w _ h f absent = absurd f

-- A retry that is refused, with an error or without one, changes nothing.
pub retry_refused :
    (is_authorized : String → Result Bool) (env : Env) (namespace uid : String) (w : World)
    → ((verb : String) → is_authorized verb ≢ ok true)
    → (retry_last_workspace_action is_authorized env namespace uid w).1 ≡ w
unfolding retry_last_workspace_action
retry_refused is_authorized env namespace uid w h =
    bind-same w (get_workspace env namespace uid) _ (get_workspace-world env namespace uid w) λ o _.
      bind-same w (lift (retry_row o)) _ refl λ r _.
        bind-same w (lift (retry_verb r.status.phase)) _ refl
          λ verb _. bind-same w (lift (is_authorized verb)) _ refl (refused verb r)
  where
    refused :
        (verb : String) (r : Row) (allowed : Bool)
        → is_authorized verb ≡ ok allowed
        → (if_allowed allowed (retry_action env namespace r) w).1 ≡ w
    refused verb r true e = absurd (h verb e)
    refused verb r false e = refl

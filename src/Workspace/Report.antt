-- ===== src/Workspace/Report.antt =====
-- The ways in which a reported phase changes the table.
use onepanel.Base.{
  ℕ, String, ◌≡◌, ◌≢◌, refl, ◌⊎◌, inl, inr, Option, none, some, arith, Error, ok, err, Option-cases,
  Result-cases,
}
use onepanel.Workspace.Phase.{
  Phase, Row, status_of, launching, failed_to_launch, updating, pausing, terminating, succeeded,
  failed, error,
}
use onepanel.Workspace.World.{World, Env}
use onepanel.Workspace.Table.{select_live, is_live, update_rows}
use onepanel.Workspace.Update.{get_workspace}
use onepanel.Workspace.Status.{failure_phase, write_status, update_workspace_status}
use onepanel.Workspace.Effect.{Effect, same, moved, launch_failed, move_row}

module _ (env : Env) (namespace uid : String) where
  write_status-rows :
      (p : Phase) (w : World)
      → ((write_status env namespace uid (status_of p) w).1.rows ≡ w.rows)
        ⊎ ((write_status env namespace uid (status_of p) w).1.rows
            ≡ update_rows (is_live namespace uid) (move_row p env.now none) w.rows)
  unfolding write_status move_row
  write_status-rows p w = elim (Option-cases env.exec_error) [
    | inl e ↦ inr (ground arith)
    | inr (x, e) ↦ inl (ground arith)
  ]

  write_status-Effect :
      (p : Phase) (w : World)
      → p ≢ failed_to_launch
      → Effect env namespace w.rows (write_status env namespace uid (status_of p) w).1.rows
  write_status-Effect p w h = elim (write_status-rows p w) [
    | inl e ↦ same e
    | inr e ↦ moved uid p none h e
  ]

  -- what a reported failure writes, for the row that was read
  failure-Effect :
      (r : Row) (reported p : Phase) (paused : Option ℕ) (w : World)
      → select_live namespace uid w.rows ≡ some r
      → r.status.phase ≡ p
      → r.status.paused_at ≡ paused
      → reported ≢ failed_to_launch
      → Effect env namespace w.rows
          (write_status env namespace uid (status_of (failure_phase p paused reported)) w).1.rows
  unfolding failure_phase
  failure-Effect r reported launching none w found e q h =
      elim (write_status-rows failed_to_launch w) [
        | inl s ↦ same s
        | inr s ↦ launch_failed uid r found e q s
      ]
  failure-Effect r reported launching (some t) w found e q h = write_status-Effect _ w (λ c. cc)
  failure-Effect r reported pausing paused w found e q h = write_status-Effect _ w (λ c. cc)
  failure-Effect r reported terminating paused w found e q h = write_status-Effect _ w (λ c. cc)
  failure-Effect r reported updating paused w found e q h = write_status-Effect _ w (λ c. cc)
  failure-Effect r reported _ paused w found e q h = write_status-Effect reported w h

  get_workspace-cases :
      (w : World)
      → (get_workspace env namespace uid w ≡ (ok none, w))
        ⊎ ((r : Row) × (select_live namespace uid w.rows ≡ some r)
            × (get_workspace env namespace uid w ≡ (ok (some r), w)))
        ⊎ ((e : Error) × (get_workspace env namespace uid w ≡ (err e, w)))
  unfolding get_workspace
  get_workspace-cases w = elim (Option-cases env.select_error) [
    | inr (x, e) ↦ inr (inr (x, rw e))
    | inl e ↦ elim (Option-cases (select_live namespace uid w.rows)) [
      | inl s ↦ inl (rw (e, s))
      | inr (r, s) ↦ elim (Result-cases env.config) [
        | inr (x, c) ↦ inr (inr (x, rw (e, s, c)))
        | inl (m, c) ↦ elim (Option-cases env.inject_error) [
          | inr (x, i) ↦ inr (inr (x, rw (e, s, c, i)))
          | inl i ↦ inr (inl (r, s, rw (e, s, c, i)))
        ]
      ]
    ]
  ]

  pub report-Effect :
      (p : Phase) (w : World)
      → p ≢ failed_to_launch
      → Effect env namespace w.rows
          (update_workspace_status env namespace uid (status_of p) w).1.rows
  unfolding update_workspace_status
  report-Effect succeeded w h = same refl
  report-Effect failed w h = elim (get_workspace-cases w) [
    | inl e ↦ same (ground arith)
    | inr c ↦ elim c [
      | inl (r, found, e) ↦
          rw e (failure-Effect r failed r.status.phase r.status.paused_at w found refl refl h)
      | inr (x, e) ↦ same (ground arith)
    ]
  ]
  report-Effect error w h = elim (get_workspace-cases w) [
    | inl e ↦ same (ground arith)
    | inr c ↦ elim c [
      | inl (r, found, e) ↦
          rw e (failure-Effect r error r.status.phase r.status.paused_at w found refl refl h)
      | inr (x, e) ↦ same (ground arith)
    ]
  ]
  report-Effect p w h = write_status-Effect p w h

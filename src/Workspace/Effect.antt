-- ===== src/Workspace/Effect.antt =====
-- The ways in which a workspace operation changes the table, and the one that each operation takes.
use onepanel.Base.{
  ℕ, String, Bool, true, false, ◌≡◌, ◌≢◌, refl, sym, subst, ap, ◌∙◌, ◌⊎◌, inl, inr, Option, none,
  some, List, [], ◌∷◌, ◌++◌, arith, Error, plain, ok, is_nil, if◌then◌else◌, Option-cases,
  Result-cases,
}
use onepanel.Params.{Parameter, merge_workspace_parameters}
use onepanel.Workspace.Phase.{
  Phase, Row, status_of, launching, failed_to_launch, workspace_status_to_field_map, apply_fields,
}
use onepanel.Workspace.World.{WorkspaceTemplate, World, Env, lift, require, bind-rows, bind-pure}
use onepanel.Workspace.Table.{select_live, is_live, update_rows, set_parameters, has_id, launch_row}
use onepanel.Workspace.Update.{update_workspace, update_statement, map_error, get_workspace, exec}
use onepanel.Workspace.Create.{
  NewWorkspace, create_workspace, start_workspace, new_row, no_row, may_start, prepare, launch,
  database_error,
}
use onepanel.Workspace.Uid.{generate_workspace_uid}
use onepanel.Workspace.Outcome.{update_workspace_refused, update_workspace-IsUpdated}

-- a row with a new status at the time `now`, and new parameters if there are any
unfoldable pub move_row : Phase → ℕ → Option (List Parameter) → Row → Row
unfolding workspace_status_to_field_map apply_fields
move_row p now none r = apply_fields (workspace_status_to_field_map (status_of p) now) r
move_row p now (some ps) r =
    set_parameters ps (apply_fields (workspace_status_to_field_map (status_of p) now) r)

pub data Effect (env : Env) (namespace : String) (rs rs' : List Row) : Type 0 where
  same : rs' ≡ rs → Effect env namespace rs rs'
  moved :
      (uid : String) (p : Phase) (ps : Option (List Parameter))
      → p ≢ failed_to_launch
      → rs' ≡ update_rows (is_live namespace uid) (move_row p env.now ps) rs
      → Effect env namespace rs rs'
  launch_failed :
      (uid : String) (r : Row)
      → select_live namespace uid rs ≡ some r
      → r.status.phase ≡ launching
      → r.status.paused_at ≡ none
      → rs' ≡ update_rows (is_live namespace uid) (move_row failed_to_launch env.now none) rs
      → Effect env namespace rs rs'
  started :
      (uid : String) (r : Row)
      → select_live namespace uid rs ≡ some r
      → r.status.phase ≡ failed_to_launch
      → rs' ≡ update_rows (has_id r.id) (launch_row env.now) rs
      → Effect env namespace rs rs'
  created :
      (r : Row)
      → select_live namespace r.uid rs ≡ none
      → r.namespace ≡ namespace
      → r.id ≡ env.new_id
      → r.status.phase ≡ launching
      → r.status.paused_at ≡ none
      → rs' ≡ rs ++ r ∷ []
      → Effect env namespace rs rs'

abbrev pub written_parameters : List Parameter → List Parameter → Option (List Parameter)
written_parameters ps merged = if is_nil ps then none else some merged

pub update_statement-move :
    (env : Env) (namespace uid : String) (p : Phase) (ps merged : List Parameter) (rs : List Row)
    → update_statement env namespace uid (status_of p) ps merged rs
      ≡ update_rows (is_live namespace uid) (move_row p env.now (written_parameters ps merged)) rs
unfolding update_statement move_row
update_statement-move env namespace uid p [] merged rs = refl
update_statement-move env namespace uid p (x ∷ ps) merged rs = refl

pub update_workspace-Effect :
    (env : Env) (namespace uid action resource : String) (p : Phase) (ps : List Parameter)
    (w : World)
    → p ≢ failed_to_launch
    → Effect env namespace w.rows
        (update_workspace env namespace uid action resource (status_of p) ps w).1.rows
update_workspace-Effect env namespace uid action resource p ps w h =
    elim (Result-cases (update_workspace env namespace uid action resource (status_of p) ps w).0) [
      | inl (_, e) ↦
          let u =
            update_workspace-IsUpdated env namespace uid action resource (status_of p) ps w e in
          moved uid p (written_parameters ps (merge_workspace_parameters u.row.parameters ps true))
            h (u.rows ∙ update_statement-move env namespace uid p ps _ w.rows)
      | inr (x, e) ↦
          same (update_workspace_refused env namespace uid action resource (status_of p) ps w x e)
    ]

require-rows : (b : Bool) (e : Error) (w : World) → (require b e w).1.rows ≡ w.rows
unfolding require
require-rows true e w = refl
require-rows false e w = refl

module _ (env : Env) where
  -- an INSERT or UPDATE that is the last step, or the last but one
  exec-rows :
      (f : List Row → List Row) (w : World)
      → ((exec env f w).1.rows ≡ w.rows) ⊎ ((exec env f w).1.rows ≡ f w.rows)
  unfolding exec
  exec-rows f w = elim (Option-cases env.exec_error) [
    | inl e ↦ inr (rw e)
    | inr (x, e) ↦ inl (rw e)
  ]

module _ (env : Env) (namespace : String) where
  pub launch-rows :
      (template : WorkspaceTemplate) (ps : List Parameter) (capture : Bool) (w : World)
      → (launch env namespace template ps capture w).1.rows ≡ w.rows
  unfolding launch
  launch-rows template ps capture w = ground arith

  pub prepare-world :
      (r : Row) (template_uid : String) (w : World) → (prepare env namespace r template_uid w).1 ≡ w
  unfolding prepare
  prepare-world r template_uid w = ground arith

  pub start-Effect :
      (uid' : String) (r : Row) (w : World)
      → select_live namespace uid' w.rows ≡ some r
      → r.status.phase ≡ failed_to_launch
      → Effect env namespace w.rows (start_workspace env namespace r w).1.rows
  unfolding start_workspace
  start-Effect uid' r w found p =
      bind-rows E (require (may_start r) (plain "unable to start a workspace with phase")) _ w
        (same refl) (require-rows (may_start r) _ w)
        λ _ w₁ e₁ _.
          bind-rows E (prepare env namespace r (env.template_uid r.template_id)) _ w₁ (same e₁)
            (ap rows_of (prepare-world r (env.template_uid r.template_id) w₁))
            λ (ps, t) w₂ e₂ _.
              bind-rows E (launch env namespace t ps r.capture_node) _ w₂ (same (e₂ ∙ e₁))
                (launch-rows t ps r.capture_node w₂)
                λ _ w₃ e₃ _.
                  elim (exec-rows env (update_rows (has_id r.id) (launch_row env.now)) w₃) [
                    | inl s ↦ same (s ∙ e₃ ∙ e₂ ∙ e₁)
                    | inr s ↦
                        started uid' r found p
                          (s ∙ ap (update_rows (has_id r.id) (launch_row env.now)) (e₃ ∙ e₂ ∙ e₁))
                  ]
    where
      E : List Row → Type 0
      E = Effect env namespace w.rows

      rows_of : World → List Row
      rows_of v = v.rows

module _ (env : Env) (namespace uid : String) where
  pub get_workspace-world : (w : World) → (get_workspace env namespace uid w).1 ≡ w
  unfolding get_workspace
  get_workspace-world w = refl

  pub get_workspace-none :
      (w : World) (o : Option Row)
      → (get_workspace env namespace uid w).0 ≡ ok o
      → no_row o ≡ ok tt
      → select_live namespace uid w.rows ≡ none
  unfolding get_workspace
  get_workspace-none w o got absent = ground arith

module _ (env : Env) (namespace : String) where
  pub create-Effect :
      (n : NewWorkspace) (w : World)
      → Effect env namespace w.rows (create_workspace env namespace n w).1.rows
  unfolding create_workspace
  create-Effect n w =
      bind-rows E (lift (generate_workspace_uid n.name)) _ w (same refl) refl λ uid w₁ e₁ _.
        bind-rows E (get_workspace env namespace uid) _ w₁ (same e₁)
          (ap rows_of (get_workspace-world env namespace uid w₁))
          λ o w₂ e₂ got. bind-rows E (lift (no_row o)) _ w₂ (same (e₂ ∙ e₁)) refl λ _ w₃ e₃ absent.
            bind-rows E (prepare env namespace (new_row env namespace uid n) n.template_uid) _ w₃
              (same (e₃ ∙ e₂ ∙ e₁))
              (ap rows_of
                (prepare-world env namespace (new_row env namespace uid n) n.template_uid w₃))
              λ (ps, t) w₄ e₄ _.
                bind-rows E (launch env namespace t ps n.capture_node) _ w₄
                  (same (e₄ ∙ e₃ ∙ e₂ ∙ e₁)) (launch-rows env namespace t ps n.capture_node w₄)
                  λ _ w₅ e₅ _.
                    subst E
                      (sym (
                        ap rows_of (
                          bind-pure
                            (map_error database_error (exec env (λ rs. rs ++ inserted uid t ∷ [])))
                            (inserted uid t) w₅)))
                      (elim (exec-rows env (λ rs. rs ++ inserted uid t ∷ []) w₅) [
                        | inl s ↦ same (s ∙ e₅ ∙ e₄ ∙ e₃ ∙ e₂ ∙ e₁)
                        | inr s ↦
                            created (inserted uid t) (absent-select uid o w₁ e₁ got absent) refl
                              refl refl refl
                              (s ∙ ap (λ rs. rs ++ inserted uid t ∷ []) (e₅ ∙ e₄ ∙ e₃ ∙ e₂ ∙ e₁))
                      ])
    where
      E : List Row → Type 0
      E = Effect env namespace w.rows

      rows_of : World → List Row
      rows_of v = v.rows

      absent-select :
          (uid : String) (o : Option Row) (v : World)
          → v.rows ≡ w.rows
          → (get_workspace env namespace uid v).0 ≡ ok o
          → no_row o ≡ ok tt
          → select_live namespace uid w.rows ≡ none
      absent-select uid o v e got absent =
          rw (← e) (get_workspace-none env namespace uid v o got absent)

      inserted : String → WorkspaceTemplate → Row
      inserted uid t = record (new_row env namespace uid n) {
        template_id = t.id;
        template_version = t.version;
      }

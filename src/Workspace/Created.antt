-- ===== src/Workspace/Created.antt =====
-- What a creation that succeeds did.
use onepanel.Base.{String, ◌≡◌, refl, ap, none, some, List, [], ◌∷◌, ◌++◌, arith, ok}
use onepanel.Workspace.Phase.{Row, launching}
use onepanel.Workspace.World.{World, Env, M, ◌>>=◌, lift, pure, bind-Post, WorkspaceTemplate}
use onepanel.Workspace.Table.{select_live}
use onepanel.Workspace.Update.{get_workspace, map_error, exec}
use onepanel.Workspace.Uid.{generate_workspace_uid}
use onepanel.Workspace.Create.{
  NewWorkspace, create_workspace, new_row, no_row, prepare, launch, database_error,
}
use onepanel.Workspace.Effect.{prepare-world, launch-rows, get_workspace-world, get_workspace-none}

pub record Creates (env : Env) (namespace : String) (n : NewWorkspace) (r : Row) (w w' : World)
    : Type 0 where
  pub uid : generate_workspace_uid n.name ≡ ok r.uid
  pub absent : select_live namespace r.uid w.rows ≡ none
  pub rows : w'.rows ≡ w.rows ++ r ∷ []
  pub phase : r.status.phase ≡ launching
  pub started : r.status.started_at ≡ some env.now
  pub parameters : r.parameters ≡ n.parameters
  pub name : r.name ≡ n.name
  pub where_to : r.namespace ≡ namespace

abbrev inserted : Env → String → NewWorkspace → String → WorkspaceTemplate → Row
inserted env namespace n uid t = record (new_row env namespace uid n) {
  template_id = t.id;
  template_version = t.version;
}

abbrev put : Env → Row → M Row
put env r = map_error database_error (exec env (λ rs. rs ++ r ∷ [])) >>= λ _. pure r

put-ok :
    (env : Env) (x r : Row) (w : World)
    → (put env x w).0 ≡ ok r
    → (r ≡ x) × ((put env x w).1.rows ≡ w.rows ++ x ∷ [])
unfolding ◌>>=◌ pure exec
put-ok env x r w h = ground arith

-- A creation that succeeds found no workspace of the uid that is not terminated, and put one new row
-- behind the others: with the uid of the name, in its launch, and with the parameters of the request.
pub create_workspace-Creates :
    (env : Env) (namespace : String) (n : NewWorkspace) (r : Row) (w : World)
    → (create_workspace env namespace n w).0 ≡ ok r
    → Creates env namespace n r w (create_workspace env namespace n w).1
unfolding create_workspace
create_workspace-Creates env namespace n r w =
    bind-Post E (lift (generate_workspace_uid n.name)) _ w refl
      (λ uid w₁ e₁ named.
        bind-Post E (get_workspace env namespace uid) _ w₁
          (ap rows_of (get_workspace-world env namespace uid w₁))
          (λ o w₂ e₂ got. bind-Post E (lift (no_row o)) _ w₂ refl (λ _ w₃ e₃ absent.
            bind-Post E (prepare env namespace (new_row env namespace uid n) n.template_uid) _ w₃
              (ap rows_of
                (prepare-world env namespace (new_row env namespace uid n) n.template_uid w₃))
              (λ (ps, t) w₄ e₄ _.
                bind-Post E (launch env namespace t ps n.capture_node) _ w₄
                  (launch-rows env namespace t ps n.capture_node w₄)
                  (λ _ w₅ e₅ _ b h.
                    let (same, rows) = put-ok env (inserted env namespace n uid t) b w₅ h in
                    rw same (record {
                      uid = named;
                      absent = rw (← e₁) (get_workspace-none env namespace uid w₁ o got absent);
                      rows = rw (rows, e₅, e₄, e₃, e₂, e₁);
                      phase = refl;
                      started = refl;
                      parameters = refl;
                      name = refl;
                      where_to = refl;
                    }))))))
      r
  where
    E : Row → World → Type 0
    E b v = Creates env namespace n b w v

    rows_of : World → List Row
    rows_of v = v.rows

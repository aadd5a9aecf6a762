-- ===== src/Workspace/World.antt =====
-- The state that the workspace operations work on, the calls that they make to other parts, and
-- the monad of a client method: it returns a value or an error, and keeps what it did before.
use onepanel.Base.{
  ℕ, String, Bool, true, false, Option, none, some, List, Map, Error, Result, ok, err, ◌≡◌, refl,
  sym, subst,
}
use onepanel.Params.{Parameter}
use onepanel.Workspace.Phase.{Row}

pub record ArgoTemplate : Type 0 where
  pub name : String
  pub manifest : String

-- the parts of `ArgoWorkflowTemplate.Spec` that the operations write
pub record WorkflowTemplate : Type 0 where
  pub arguments : List Parameter
  pub templates : List ArgoTemplate

pub record TemplateKey : Type 0 where
  pub uid : String
  pub version : ℕ

pub record WorkspaceTemplate : Type 0 where
  pub id : ℕ
  pub version : ℕ
  pub workflow_template : Option TemplateKey

-- a workflow that was submitted to Argo
pub record Execution : Type 0 where
  pub namespace : String
  pub parameters : List Parameter
  pub template : WorkflowTemplate

-- the database's table and the submitted workflows, the oldest first
pub record World : Type 0 where
  pub rows : List Row
  pub executions : List Execution

-- What the calls of one method return: the clock, the database's failures, and the other parts of
-- the client. The system configuration is cached by the client, so its second read repeats the first.
pub record Env : Type 0 where
  pub now : ℕ
  pub select_error : Option Error  -- of `DB.Getx`, other than `ErrNoRows`
  pub exec_error : Option Error  -- of an INSERT or UPDATE
  pub config : Result (Map String)  -- GetSystemConfig
  pub inject_error : Option Error  -- InjectRuntimeParameters
  pub template_uid : ℕ → String  -- the column wt.uid of the join
  pub workspace_template : String → String → ℕ → Result (Option WorkspaceTemplate)
  pub workflow_template : String → String → ℕ → Result WorkflowTemplate
  pub runtime_parameters : Map String → Result (List Parameter)  -- generateRuntimeParameters
  pub add_runtime_fields : String → List Parameter → Bool → Map String → Result String
  pub execution_error : Option Error  -- CreateWorkflowExecution
  pub validate : Row → Result Bool  -- govalidator.ValidateStruct
  pub new_id : ℕ  -- RETURNING id

abbrev pub M : Type 0 → Type 0
M A = World → Result A × World

infixl 5 ◌>>=◌ ◌>>◌
abbrev pub then : {A B : Type 0} → Result A → World → (A → M B) → Result B × World
then (ok a) w f = f a w
then (err e) w f = (err e, w)

unfoldable pub ◌>>=◌ : {A B : Type 0} → M A → (A → M B) → M B
◌>>=◌ m f w = then (m w).0 (m w).1 f

unfoldable pub ◌>>◌ : {B : Type 0} → M (Unit {0}) → M B → M B
unfolding ◌>>=◌
m >> k = m >>= λ _. k

unfoldable pub pure : {A : Type 0} → A → M A
pure a w = (ok a, w)

unfoldable pub raise : {A : Type 0} → Error → M A
raise e w = (err e, w)

unfoldable pub lift : {A : Type 0} → Result A → M A
lift r w = (r, w)

unfoldable pub check : Option Error → M (Unit {0})
check none w = (ok tt, w)
check (some e) w = (err e, w)

unfoldable pub require : Bool → Error → M (Unit {0})
require true e w = (ok tt, w)
require false e w = (err e, w)

-- A bind whose first action leaves the rows: what holds of the rows before, and of the rows after
-- the rest, holds of the rows after the bind.
module _ {A B : Type 0} (E : List Row → Type 0) (m : M A) (f : A → M B) where
  after_result :
      (w w' : World)
      → E w.rows
      → w'.rows ≡ w.rows
      → (r : Result A) → ((a : A) (w₁ : World) → w₁.rows ≡ w.rows → r ≡ ok a → E (f a w₁).1.rows)
      → E (then r w' f).1.rows
  after_result w w' h e (ok a) k = k a w' e refl
  after_result w w' h e (err x) k = subst E (sym e) h

  pub bind-rows :
      (w : World)
      → E w.rows
      → (m w).1.rows ≡ w.rows
      → ((a : A) (w₁ : World) → w₁.rows ≡ w.rows → (m w).0 ≡ ok a → E (f a w₁).1.rows)
      → E ((m >>= f) w).1.rows
  unfolding ◌>>=◌
  bind-rows w h e k = after_result w (m w).1 h e (m w).0 k

-- a last step that changes nothing
pub bind-pure : {A B : Type 0} (m : M A) (b : B) (w : World) → ((m >>= λ _. pure b) w).1 ≡ (m w).1
unfolding ◌>>=◌ pure
bind-pure {A} {B} m b w = go (m w).0
  where
    go : (r : Result A) → (then {B = B} r (m w).1 (λ _. pure b)).1 ≡ (m w).1
    go (ok a) = refl
    go (err e) = refl

-- A bind whose first action changes nothing.
module _ {A B : Type 0} (w : World) (m : M A) (f : A → M B) where
  same_result : (r : Result A) → ((a : A) → r ≡ ok a → (f a w).1 ≡ w) → (then r w f).1 ≡ w
  same_result (ok a) k = k a refl
  same_result (err x) k = refl

  pub bind-same : (m w).1 ≡ w → ((a : A) → (m w).0 ≡ ok a → (f a w).1 ≡ w) → ((m >>= f) w).1 ≡ w
  unfolding ◌>>=◌
  bind-same e k = rw e (same_result (m w).0 k)

-- A postcondition of a bind that returns, over a first action that leaves the rows.
module _ {A B : Type 0} (E : B → World → Type 0) (m : M A) (f : A → M B) (w : World) where
  abbrev pub Post : Result B × World → Type 0
  Post x = (b : B) → x.0 ≡ ok b → E b x.1

  result-Post :
      (w' : World)
      → w'.rows ≡ w.rows
      → (r : Result A) → ((a : A) (w₁ : World) → w₁.rows ≡ w.rows → r ≡ ok a → Post (f a w₁))
      → Post (then r w' f)
  result-Post w' e (ok a) k = k a w' e refl
  result-Post w' e (err x) k = λ b h. absurd (cc)

  pub bind-Post :
      (m w).1.rows ≡ w.rows
      → ((a : A) (w₁ : World) → w₁.rows ≡ w.rows → (m w).0 ≡ ok a → Post (f a w₁))
      → Post ((m >>= f) w)
  unfolding ◌>>=◌
  bind-Post e k = result-Post (m w).1 e (m w).0 k

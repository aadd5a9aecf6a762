-- ===== src/Base/State.antt =====
-- A client method on a state: it returns a value or an error, and keeps what it did before.
use mathlib.Core.Path.{◌≡◌, refl, sym, ap, subst}
use mathlib.Core.Bool.{Bool, true, false}
use mathlib.Core.Option.{Option, none, some}
use mathlib.Core.List.{List, [], ◌∷◌}
use onepanel.Base.Tests.{if◌then◌else◌}
use onepanel.Base.Errors.{Error, Result, ok, err}

abbrev pub M : Type 0 → Type 0 → Type 0
M S A = S → Result A × S

module _ {S : Type 0} where
  infixl 5 ◌>>=◌ ◌>>◌
  abbrev pub resume : {A B : Type 0} → Result A → S → (A → M S B) → Result B × S
  resume (ok a) s f = f a s
  resume (err e) s f = (err e, s)

  abbrev pub ◌>>=◌ : {A B : Type 0} → M S A → (A → M S B) → M S B
  ◌>>=◌ m f s = resume (m s).0 (m s).1 f

  abbrev pub ◌>>◌ : {B : Type 0} → M S (Unit {0}) → M S B → M S B
  ◌>>◌ m k s = resume (m s).0 (m s).1 (λ _. k)

  unfoldable pub pure : {A : Type 0} → A → M S A
  pure a s = (ok a, s)

  unfoldable pub raise : {A : Type 0} → Error → M S A
  raise e s = (err e, s)

  -- a call that does not touch the state
  unfoldable pub lift : {A : Type 0} → Result A → M S A
  lift r s = (r, s)

  -- `if err != nil { return err }`
  unfoldable pub check : Option Error → M S (Unit {0})
  check none s = (ok tt, s)
  check (some e) s = (err e, s)

  unfoldable pub require : Bool → Error → M S (Unit {0})
  require true e s = (ok tt, s)
  require false e s = (err e, s)

  unfoldable pub gets : {A : Type 0} → (S → A) → M S A
  gets f s = (ok (f s), s)

  unfoldable pub modify : (S → S) → M S (Unit {0})
  modify f s = (ok tt, f s)

  -- `for _, x := range xs { if err := f(x); err != nil { return err } }`
  unfoldable pub each : {A : Type 0} → (A → M S (Unit {0})) → List A → M S (Unit {0})
  unfolding pure
  each f [] = pure tt
  each f (x ∷ xs) = f x >> each f xs

  -- the parts of a bind that returns
  pub bind-eq-ok :
      {A B : Type 0} (m : M S A) (f : A → M S B) {s t : S} {b : B}
      → (m >>= f) s ≡ (ok b, t)
      → (a : A) × (s₁ : S) × (m s ≡ (ok a, s₁)) × (f a s₁ ≡ (ok b, t))
  bind-eq-ok {A} {B} m f {s} {t} {b} h = returned (m s).0 (m s).1 refl h
    where
      returned :
          (r : Result A) (s₁ : S)
          → m s ≡ (r, s₁)
          → resume r s₁ f ≡ (ok b, t)
          → (a : A) × (s₂ : S) × (m s ≡ (ok a, s₂)) × (f a s₂ ≡ (ok b, t))
      returned (ok a) s₁ e k = (a, s₁, e, k)
      returned (err x) s₁ e k = absurd (cc)

  -- A property of the state that a method keeps, on every result.
  module _ (P : S → Type 0) where
    abbrev pub Keeps : {A : Type 0} → M S A → Type 0
    Keeps m = (s : S) → P s → P (m s).1

    resume-Keeps :
        {A B : Type 0} (r : Result A) (f : A → M S B) (s : S)
        → P s
        → ((a : A) → r ≡ ok a → Keeps (f a))
        → P (resume r s f).1
    resume-Keeps (ok a) f s h k = k a refl s h
    resume-Keeps (err e) f s h k = h

    pub bind-Keeps :
        {A B : Type 0} (m : M S A) (f : A → M S B)
        → Keeps m
        → ((a : A) → Keeps (f a))
        → Keeps (m >>= f)
    bind-Keeps m f h k s p = resume-Keeps (m s).0 f (m s).1 (h s p) (λ a e. k a)

    pub next-Keeps :
        {B : Type 0} (m : M S (Unit {0})) (k : M S B) → Keeps m → Keeps k → Keeps (m >> k)
    next-Keeps m k h q = bind-Keeps m (λ _. k) h (λ _. q)

    pub pure-Keeps : {A : Type 0} (a : A) → Keeps (pure a)
    unfolding pure
    pure-Keeps a s h = h

    pub raise-Keeps : (A : Type 0) (e : Error) → Keeps (raise {A = A} e)
    unfolding raise
    raise-Keeps A e s h = h

    pub if-Keeps :
        {A : Type 0} (b : Bool) (m k : M S A) → Keeps m → Keeps k → Keeps (if b then m else k)
    if-Keeps true m k h q = h
    if-Keeps false m k h q = q

    pub lift-Keeps : {A : Type 0} (r : Result A) → Keeps (lift r)
    unfolding lift
    lift-Keeps r s h = h

    pub check-Keeps : (o : Option Error) → Keeps (check o)
    unfolding check
    check-Keeps none s h = h
    check-Keeps (some e) s h = h

    pub require-Keeps : (b : Bool) (e : Error) → Keeps (require b e)
    unfolding require
    require-Keeps true e s h = h
    require-Keeps false e s h = h

    pub gets-Keeps : {A : Type 0} (f : S → A) → Keeps (gets f)
    unfolding gets
    gets-Keeps f s h = h

    pub modify-Keeps : (f : S → S) → ((s : S) → P s → P (f s)) → Keeps (modify f)
    unfolding modify
    modify-Keeps f k = k

    pub each-Keeps :
        {A : Type 0} (f : A → M S (Unit {0}))
        → ((a : A) → Keeps (f a))
        → (xs : List A) → Keeps (each f xs)
    unfolding each
    each-Keeps f h [] = pure-Keeps tt
    each-Keeps f h (x ∷ xs) = next-Keeps (f x) (each f xs) (h x) (each-Keeps f h xs)

  -- A bind of which the first part keeps one property, and the rest gives another.
  pub bind-into :
      (P Q : S → Type 0) {A B : Type 0} (m : M S A) (f : A → M S B)
      → Keeps P m
      → ((s : S) → P s → Q s)
      → ((a : A) (s : S) → P s → Q (f a s).1)
      → (s : S) → P s
      → Q ((m >>= f) s).1
  bind-into P Q {A} m f h weaken k s p = into (m s).0 (m s).1 (h s p)
    where
      into : (r : Result A) (t : S) → P t → Q (resume r t f).1
      into (ok a) t q = k a t q
      into (err e) t q = weaken t q

  pub lift-eq-ok :
      {A : Type 0} (r : Result A) {a : A} {s t : S} → lift r s ≡ (ok a, t) → (r ≡ ok a) × (t ≡ s)
  unfolding lift
  lift-eq-ok r e = (ap (λ p. p.0) e, sym (ap (λ p. p.1) e))

  pub pure-eq-ok : {A : Type 0} (a : A) {b : A} {s t : S} → pure a s ≡ (ok b, t) → t ≡ s
  unfolding pure
  pure-eq-ok a e = sym (ap (λ p. p.1) e)

  pub check-eq-ok : (o : Option Error) {u : Unit {0}} {s t : S} → check o s ≡ (ok u, t) → t ≡ s
  unfolding check
  check-eq-ok none e = sym (ap (λ p. p.1) e)
  check-eq-ok (some x) e = sym (ap (λ p. p.1) e)

  pub gets-eq-ok :
      {A : Type 0} (f : S → A) {a : A} {s t : S}
      → gets f s ≡ (ok a, t)
      → (ok (f s) ≡ ok a) × (t ≡ s)
  unfolding gets
  gets-eq-ok f e = (ap (λ p. p.0) e, sym (ap (λ p. p.1) e))

  -- To prove something of a bind that returns: of its parts, with the state between them.
  pub after :
      {A B C : Type 0} (m : M S A) (f : A → M S B) {s t : S} {b : B}
      → (m >>= f) s ≡ (ok b, t)
      → ((a : A) (s₁ : S) → m s ≡ (ok a, s₁) → f a s₁ ≡ (ok b, t) → C)
      → C
  after m f e k = let (a, s₁, p, q) = bind-eq-ok m f e in k a s₁ p q

  pub Keeps-eq :
      (P : S → Type 0) {A : Type 0} (m : M S A) {r : Result A} {s t : S}
      → Keeps P m
      → P s
      → m s ≡ (r, t)
      → P t
  Keeps-eq P m {r} {s} {t} k h e = subst (λ p. P p.1) e (k s h)

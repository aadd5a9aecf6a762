-- ===== src/Base/Errors.antt =====
-- Go's `error`: the user error of pkg/util/error.go, which carries a gRPC code, a plain error,
-- an error that a called library returned, and a run-time panic. A fallible function returns a `Result`.
use Prim.Native.String.{String}
use mathlib.Core.Path.{◌≡◌, refl}
use mathlib.Core.Logic.{◌⊎◌, inl, inr}
use mathlib.Core.Bool.{Bool, true, false}
use mathlib.Core.Option.{Option, none, some}

pub data Code : Type 0 where
  not_found already_exists invalid_argument unknown unauthenticated permission_denied : Code

pub data Error : Type 0 where
  user_error : Code → String → Error
  plain : String → Error
  foreign : String → Error
  panic : Error

pub data Result {ℓ} (A : Type ℓ) : Type ℓ where
  err : Error → Result A
  ok : A → Result A

infixl 5 ◌>>=◌ ◌>>◌
abbrev pub ◌>>=◌ {κ ℓ} : {C : Type κ} {D : Type ℓ} → Result C → (C → Result D) → Result D
err x >>= k = err x
ok x >>= k = k x

abbrev pub ◌>>◌ {κ} : {D : Type κ} → Result (Unit {0}) → Result D → Result D
first >> rest = first >>= λ _. rest

-- `if !b { return e }`
abbrev pub guard : Bool → Error → Result (Unit {0})
guard false x = err x
guard true x = ok tt

-- `if err != nil { return e }`: the callee's error is replaced
abbrev pub or_error {ℓ} : {A : Type ℓ} → Error → Result A → Result A
or_error e (ok a) = ok a
or_error e (err _) = err e

pub >>=-eq-ok {κ ℓ} :
    {C : Type κ} {D : Type ℓ} (r : Result C) (k : C → Result D) {d : D}
    → (r >>= k) ≡ ok d
    → (c : C) × (r ≡ ok c) × (k c ≡ ok d)
>>=-eq-ok (err x) k h = cc
>>=-eq-ok (ok x) k h = (x, refl, h)

-- `if err := …; err != nil { return err }` for a function that returns only an error
abbrev pub check : Option Error → Result (Unit {0})
check none = ok tt
check (some e) = err e

pub Result-cases {ℓ} :
    {A : Type ℓ} (r : Result A) → ((a : A) × (r ≡ ok a)) ⊎ ((e : Error) × (r ≡ err e))
Result-cases (ok a) = inl (a, refl)
Result-cases (err e) = inr (e, refl)

-- ===== src/Budgets/Errors.antt =====
-- The exceptions of src/routeweiler/errors.py that the budget counter raises, and the state and
-- exception monad of its methods. What was committed before a raise stays committed, so the state
-- comes back beside the error too.
use routeweiler_python_sdk.Prelude.{String, Bool, Option, none, some, if◌then◌else◌}
use routeweiler_python_sdk.Prelude.Int.{ℤ}

pub data Error : Type 0 where
  -- `BudgetExceededError` with its envelope, the requested and the available amount
  budget_exceeded : String → ℤ → ℤ → Error
  envelope_not_found envelope_frozen envelope_expired : Error
  receipt_verification : Error
  -- `BudgetError` itself
  budget_error : Error
  -- `sqlite3.IntegrityError`
  integrity : Error
  -- `KeystoreAlreadyExistsError`, `KeystoreNotFoundError`, `KeystoreError`
  keystore_already_exists keystore_not_found keystore_error : Error
  -- `ValueError`, and what a rate provider raises besides `FmvUnavailableError`
  value_error provider_error : Error

pub data Result (A : Type 0) : Type 0 where
  ok : A → Result A
  err : Error → Result A

abbrev pub Action : Type 0 → Type 0 → Type 0
Action S A = S → Result A × S

module _ {S A : Type 0} where
  abbrev pub pure : A → Action S A
  pure a s = (ok a, s)

  abbrev pub raise : Error → Action S A
  raise e s = (err e, s)

  abbrev pub lift : Result A → Action S A
  lift r s = (r, s)

  abbrev pub gets : (S → A) → Action S A
  gets f s = (ok (f s), s)

  abbrev pub or_raise : Option A → Error → Action S A
  or_raise none e = raise e
  or_raise (some a) _ = pure a

  -- `BEGIN IMMEDIATE` … `COMMIT`, with the `ROLLBACK` of the handler where the body raises.
  abbrev pub transaction : Action S A → Action S A
  transaction m s = let (r, s') = m s in elim r [ ok a ↦ (ok a, s') | err e ↦ (err e, s) ]

module _ {S A B : Type 0} where
  infixl 5 ◌>>=◌ ◌>>◌
  abbrev pub ◌>>=◌ : Action S A → (A → Action S B) → Action S B
  ◌>>=◌ m f s = let (r, s') = m s in elim r [ ok a ↦ f a s' | err e ↦ (err e, s') ]

  abbrev pub ◌>>◌ : Action S A → Action S B → Action S B
  m >> k = m >>= λ _. k

module _ {S : Type 0} where
  abbrev pub raise_if : Bool → Error → Action S Unit
  raise_if c e s = (if c then err e else ok tt, s)

  abbrev pub modify : (S → S) → Action S Unit
  modify f s = (ok tt, f s)

-- ===== src/Prelude/Action.antt =====
-- Operations that may fail on a state: Go's `(value, error)` results, the calls of the database
-- driver and its transactions. The state comes back beside an error too, since what was written
-- outside a transaction stays written.
use Prim.Native.Nat.{ℕ}
use Prim.Native.String.{String}
use mathlib.Core.Path.{◌≡◌, refl, ap}
use mathlib.Core.Logic.{◌⊎◌, inl, inr}
use mathlib.Core.Bool.{Bool, true, false}
use mathlib.Core.Option.{Option, none, some}
use native.Mathlib.Omega.{arith}
use fluenthub.Prelude.Tests.{if◌then◌else◌, if_ind}

-- `reason` is an error that the program makes, by its text, and `counted` one with a number in it; `database` and `remote` are errors that
-- it passes on from the database driver and from another service.
pub data Error : Type 0 where
  reason : String → Error
  counted : String → ℕ → Error
  database : Error
  remote : Error

pub data Result {ℓ} (A : Type ℓ) : Type ℓ where
  ok : A → Result A
  err : Error → Result A

-- `fails k` says that the k-th call of an operation to the database fails, in the order of the
-- source text. A theorem over every `Faults` holds for every pattern of failures.
abbrev pub Faults : Type 0
Faults = ℕ → Bool

abbrev pub no_faults : Faults
no_faults k = false

abbrev pub Action : Type 0 → Type 0 → Type 0
Action S A = S → Result A × S

module _ {S A : Type 0} where
  abbrev pub pure : A → Action S A
  pure a s = (ok a, s)

  abbrev pub fail : Error → Action S A
  fail e s = (err e, s)

  abbrev pub gets : (S → A) → Action S A
  gets f s = (ok (f s), s)

  abbrev pub lift : Result A → Action S A
  lift r s = (r, s)

  -- `if b then m else n`
  abbrev pub branch : Bool → Action S A → Action S A → Action S A
  branch b m n s = (if b then (m s).0 else (n s).0, if b then (m s).1 else (n s).1)

  -- `if err != nil { return errors.New(…) }` in place of the error itself
  abbrev pub or_fail : Action S A → Error → Action S A
  or_fail m e s = let (r, s') = m s in (elim r [ ok a ↦ ok a | err _ ↦ err e ], s')

  -- QueryRow: no row is an error of the driver.
  abbrev pub query_row : Bool → (S → Option A) → Action S A
  query_row fault f s =
      (if fault then err database else elim (f s) [ none ↦ err database | some a ↦ ok a ], s)

  abbrev pub query : Bool → (S → A) → Action S A
  query fault f s = (if fault then err database else ok (f s), s)

infixl 5 ◌>>=◌ ◌>>◌
abbrev pub ◌>>=◌ : {S A B : Type 0} → Action S A → (A → Action S B) → Action S B
◌>>=◌ m f s = let (r, s') = m s in elim r [ ok a ↦ f a s' | err e ↦ (err e, s') ]

abbrev pub ◌>>◌ : {S A B : Type 0} → Action S A → Action S B → Action S B
m >> k = m >>= λ _. k

-- What a chain of calls does once the first has succeeded.
pub bind-ok :
    {S A B : Type 0} (m : Action S A) (f : A → Action S B) (s : S) (a : A)
    → (m s).0 ≡ ok a
    → (m >>= f) s ≡ f a (m s).1
bind-ok m f s a h = ap (λ r. elim r [ ok x ↦ f x (m s).1 | err e ↦ (err e, (m s).1) ]) h

module _ {S : Type 0} where
  abbrev pub require : Bool → Error → Action S (Unit {0})
  require b e s = (if b then ok tt else err e, s)

  abbrev pub fail_if : Bool → Error → Action S (Unit {0})
  fail_if b e s = (if b then err e else ok tt, s)

  abbrev pub exec : Bool → (S → S) → Action S (Unit {0})
  exec fault f s = (if fault then err database else ok tt, if fault then s else f s)

  -- `_, _ = db.Exec(…)`: its error is dropped.
  abbrev pub attempt : Bool → (S → S) → Action S (Unit {0})
  attempt fault f s = (ok tt, if fault then s else f s)

  abbrev pub when : Bool → Action S (Unit {0}) → Action S (Unit {0})
  when b m s = (if b then (m s).0 else ok tt, if b then (m s).1 else s)

-- Begin, the body, Commit, with `defer tx.Rollback`: the body's writes stay only if it and the
-- commit succeed.
abbrev pub transaction : {S A : Type 0} → Bool → Bool → Action S A → Action S A
transaction begin_fails commit_fails body s =
    let (r, s') = body s in
    (
      if begin_fails
          then err database
          else elim r [ ok a ↦ (if commit_fails then err database else ok a) | err e ↦ err e ],
      if begin_fails then s else elim r [ ok a ↦ (if commit_fails then s else s') | err e ↦ s ],
    )

abbrev pub is_ok {ℓ} : {A : Type ℓ} → Result A → Bool
is_ok (ok a) = true
is_ok (err e) = false

module _ {S A : Type 0} (begin_fails commit_fails : Bool) (body : Action S A) (s : S) where
  -- A transaction that fails has written nothing.
  pub transaction_atomic :
      (e : Error)
      → (transaction begin_fails commit_fails body s).0 ≡ err e
      → (transaction begin_fails commit_fails body s).1 ≡ s
  transaction_atomic e h = ground arith

  -- A transaction that succeeds has written what its body wrote.
  pub transaction-ok :
      (a : A)
      → (transaction begin_fails commit_fails body s).0 ≡ ok a
      → ((body s).0 ≡ ok a) × ((transaction begin_fails commit_fails body s).1 ≡ (body s).1)
  transaction-ok a h = ground arith

-- What holds before a transaction, and after its body if that succeeds, holds after the transaction.
pub transaction_keeps :
    {S A : Type 0} (P : S → Type 0) (b c : Bool) (body : Action S A) (s : S)
    → P s
    → ((a : A) → (body s).0 ≡ ok a → P (body s).1)
    → P (transaction b c body s).1
transaction_keeps {A} P true c body s old new = old
transaction_keeps {A} P false c body s old new = kept (body s).0 new
  where
    kept :
        (r : Result A)
        → ((a : A) → r ≡ ok a → P (body s).1)
        → P (elim r [ ok a ↦ (if c then s else (body s).1) | err e ↦ s ])
    kept (ok a) h = if_ind P c old (h a refl)
    kept (err e) h = old

pub ok_unit : {r : Result (Unit {0})} (a : Unit {0}) → r ≡ ok a → r ≡ ok tt
ok_unit tt h = h

pub Result-cases {ℓ} :
    {A : Type ℓ} (r : Result A) → ((a : A) × (r ≡ ok a)) ⊎ ((e : Error) × (r ≡ err e))
Result-cases (ok a) = inl (a, refl)
Result-cases (err e) = inr (e, refl)

-- What passes a test that returns an error.
pub guard-ok :
    {A : Type 0} (b : Bool) (e : Error) (r : Result A) (a : A)
    → (if b then err e else r) ≡ ok a
    → (b ≡ false) × (r ≡ ok a)
guard-ok true e r a h = cc
guard-ok false e r a h = (refl, h)

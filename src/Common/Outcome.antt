-- ===== src/Common/Outcome.antt =====
-- A Go result `(value, error)`, and a database transaction that rolls back on an error.
use mathlib.Core.Path.{◌≡◌, refl}
use mathlib.Core.Logic.{◌⊎◌, inl, inr}
use mathlib.Core.Bool.{Bool, true, false, not}
use mathlib.Core.Option.{Option, none, some}

pub data Result {ℓ κ} (E : Type ℓ) (A : Type κ) : Type (ℓ ⊔ κ) where
  ok : A → Result E A
  err : E → Result E A

-- `if err != nil { return err }` after a call: the error is passed on.
infixl 5 ◌>>=◌
abbrev pub ◌>>=◌ {ℓ κ μ} :
    {E : Type ℓ} {A : Type κ} {B : Type μ} (call : Result E A) (next : A → Result E B) → Result E B
err failure >>= next = err failure
ok answer >>= next = next answer

-- The same where the call answers nothing.
infixl 5 ◌>>◌
abbrev pub ◌>>◌ {ℓ κ} :
    {E : Type ℓ} {B : Type κ} (call : Result E (Unit {0})) (next : Result E B) → Result E B
call >> next = call >>= λ nothing. next

pub Result-cases {ℓ κ} :
    {E : Type ℓ} {A : Type κ} (m : Result E A) → ((a : A) × (m ≡ ok a)) ⊎ ((e : E) × (m ≡ err e))
Result-cases (ok a) = inl (a, refl)
Result-cases (err e) = inr (e, refl)

module _ {ℓ} {E : Type ℓ} where
  -- `if test { return err }`
  abbrev pub fail_if : Bool → E → Result E (Unit {0})
  fail_if true e = err e
  fail_if false e = ok tt

  -- A row that may be missing: `sql.ErrNoRows` becomes the error.
  abbrev pub or_fail {κ} : {A : Type κ} → Option A → E → Result E A
  or_fail none e = err e
  or_fail (some a) e = ok a

  -- A chain that succeeds has a first call that does, and the rest succeeds with its answer.
  pub >>=-eq-ok {κ μ} :
      {A : Type κ} {B : Type μ} (call : Result E A) (next : A → Result E B) {last : B}
      → (call >>= next) ≡ ok last
      → (answer : A) × (call ≡ ok answer) × (next answer ≡ ok last)
  >>=-eq-ok (err failure) next succeeds = cc
  >>=-eq-ok (ok answer) next succeeds = (answer, refl, succeeds)

  pub fail_if-eq-ok : (b : Bool) (e : E) {x : Unit {0}} → fail_if b e ≡ ok x → b ≡ false
  fail_if-eq-ok true e h = cc
  fail_if-eq-ok false e h = refl

  pub or_fail-eq-ok {κ} :
      {A : Type κ} (o : Option A) (e : E) {a : A} → or_fail o e ≡ ok a → o ≡ some a
  or_fail-eq-ok none e h = cc
  or_fail-eq-ok (some a) e h = cc

-- What a call that runs `body` in a transaction leaves: `tx.Commit` keeps the new state, and the
-- deferred `tx.Rollback` puts the old one back on every error.
abbrev pub transact {ℓ κ μ} :
    {E : Type ℓ} {A : Type κ} {S : Type μ} → (S → Result E (A × S)) → S → Result E A × S
transact body s = elim (body s) [ ok (a, s') ↦ (ok a, s') | err e ↦ (err e, s) ]

pub fail_if-not-eq-ok {ℓ} :
    {E : Type ℓ} (b : Bool) (e : E) {x : Unit {0}} → fail_if (not b) e ≡ ok x → b ≡ true
fail_if-not-eq-ok true e h = refl
fail_if-not-eq-ok false e h = cc

-- ===== src/Common/Exchange.antt =====
-- Calls that go on with an answer or end with an error, and keep the state that they leave either way.
pub mod Inversion
use mathlib.Core.Bool.{Bool, true, false}
use mathlib.Core.Option.{Option, none, some}
use uber_clone.Common.Outcome.{Result, ok, err}

-- A call that may change the state, whether it fails or not.
abbrev pub Exchange {ℓ κ} : Type 0 → Type κ → Type ℓ → Type (ℓ ⊔ κ)
Exchange S E A = S → Result E A × S

abbrev pub proceed {ℓ κ μ} :
    {S : Type 0} {E : Type ℓ} {A : Type κ} {B : Type μ}
    → (A → Exchange S E B)
    → Result E A × S
    → Result E B × S
proceed next (ok a, s) = next a s
proceed next (err e, s) = (err e, s)

infixl 5 ◌>>=◌
abbrev pub ◌>>=◌ {ℓ κ μ} :
    {S : Type 0} {E : Type ℓ} {A : Type κ} {B : Type μ}
    → Exchange S E A
    → (A → Exchange S E B)
    → Exchange S E B
call >>= next = λ s. proceed next (call s)

infixl 5 ◌>>◌
abbrev pub ◌>>◌ {ℓ κ} :
    {S : Type 0} {E : Type ℓ} {B : Type κ}
    → Exchange S E (Unit {0})
    → Exchange S E B
    → Exchange S E B
check >> next = check >>= λ nothing. next

abbrev pub answer {ℓ κ} : {S : Type 0} {E : Type ℓ} {A : Type κ} → A → Exchange S E A
answer a s = (ok a, s)

abbrev pub fail_if {ℓ} : {S : Type 0} {E : Type ℓ} → Bool → E → Exchange S E (Unit {0})
fail_if true e s = (err e, s)
fail_if false e s = (ok tt, s)

abbrev pub or_fail {ℓ κ} : {S : Type 0} {E : Type ℓ} {A : Type κ} → Option A → E → Exchange S E A
or_fail none e s = (err e, s)
or_fail (some a) e s = (ok a, s)

abbrev pub relabelled {ℓ κ μ} :
    {S : Type 0} {D : Type ℓ} {E : Type κ} {A : Type μ} → (D → E) → Result D A × S → Result E A × S
relabelled f (ok a, s) = (ok a, s)
relabelled f (err d, s) = (err (f d), s)

-- The same call with its error translated.
abbrev pub relabel {ℓ κ μ} :
    {S : Type 0} {D : Type ℓ} {E : Type κ} {A : Type μ} → (D → E) → Exchange S D A → Exchange S E A
relabel f call s = relabelled f (call s)

-- ===== src/Common/Exchange/Inversion.antt =====
-- What a call that goes on has passed.
use mathlib.Core.Path.{◌≡◌, refl}
use mathlib.Core.Bool.{Bool, true, false}
use mathlib.Core.Option.{Option, none, some}
use native.Mathlib.Omega.{arith}
use uber_clone.Common.Outcome.{Result, ok, err}
use uber_clone.Common.Exchange.{
  Exchange, ◌>>=◌, proceed, answer, fail_if, or_fail, relabelled, relabel,
}

module _ {ℓ} {S : Type 0} {E : Type ℓ} where
  proceed-inv {κ μ} :
      {A : Type κ} {B : Type μ} (next : A → Exchange S E B) (x : Result E A × S) {b : B} {s' : S}
      → proceed next x ≡ (ok b, s')
      → (a : A) × (s₁ : S) × (x ≡ (ok a, s₁)) × (next a s₁ ≡ (ok b, s'))
  proceed-inv next (ok a, s₁) h = (a, s₁, refl, h)
  proceed-inv next (err e, s₁) h = cc

  pub >>=-inv {κ μ} :
      {A : Type κ} {B : Type μ} (call : Exchange S E A) (next : A → Exchange S E B) (s : S) {b : B}
      {s' : S}
      → (call >>= next) s ≡ (ok b, s')
      → (a : A) × (s₁ : S) × (call s ≡ (ok a, s₁)) × (next a s₁ ≡ (ok b, s'))
  >>=-inv call next s h = proceed-inv next (call s) h

  pub fail_if-inv :
      (b : Bool) (e : E) (s : S) {t : Unit {0}} {s' : S}
      → fail_if b e s ≡ (ok t, s')
      → (b ≡ false) × (s' ≡ s)
  fail_if-inv true e s h = cc
  fail_if-inv false e s h = (refl, ground arith)

module _ {ℓ κ} {S : Type 0} {E : Type ℓ} {A : Type κ} where
  pub answer-inv : (a : A) (s : S) {b : A} {s' : S} → answer {E = E} a s ≡ (ok b, s') → s' ≡ s
  answer-inv a s h = ground arith

  pub answer-same : (a : A) (s : S) {b : A} {s' : S} → answer {E = E} a s ≡ (ok b, s') → a ≡ b
  answer-same a s h = ground arith

  pub or_fail-inv :
      (o : Option A) (e : E) (s : S) {a : A} {s' : S}
      → or_fail o e s ≡ (ok a, s')
      → (o ≡ some a) × (s' ≡ s)
  or_fail-inv none e s h = cc
  or_fail-inv (some a) e s h = (ground arith, ground arith)

  relabelled-inv {μ} :
      {D : Type μ} (f : D → E) (x : Result D A × S) {a : A} {s' : S}
      → relabelled f x ≡ (ok a, s')
      → x ≡ (ok a, s')
  relabelled-inv f (ok a, s) h = ground arith
  relabelled-inv f (err d, s) h = cc

  pub relabel-inv {μ} :
      {D : Type μ} (f : D → E) (call : Exchange S D A) (s : S) {a : A} {s' : S}
      → relabel f call s ≡ (ok a, s')
      → call s ≡ (ok a, s')
  relabel-inv f call s h = relabelled-inv f (call s) h

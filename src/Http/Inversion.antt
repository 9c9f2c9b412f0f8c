-- ===== src/Http/Inversion.antt =====
-- What a handler that goes on has passed.
use uber_clone.Common.{◌≡◌, Bool, false, Option, some, Result, ok, err, arith}
use uber_clone.Common.Exchange.Inversion.{or_fail-inv, fail_if-inv}
pub use uber_clone.Common.Exchange.Inversion.{>>=-inv, answer-inv, answer-same}
use uber_clone.Store.{Db}
use uber_clone.Http.{Response, refuse_if, or_refuse, call, read, outcome}

module _ {ℓ} {A : Type ℓ} where
  pub or_refuse-inv :
      (o : Option A) (r : Response) (db : Db) {a : A} {db' : Db}
      → or_refuse o r db ≡ (ok a, db')
      → (o ≡ some a) × (db' ≡ db)
  or_refuse-inv = or_fail-inv

  read_inv {κ} :
      {E : Type κ} (f : E → Response) (m : Result E A) (db : Db) {a : A} {db' : Db}
      → ◌≡◌ {A = Result Response A × Db}
          (elim m [ ok a ↦ (ok a, db) | err e ↦ (err (f e), db) ])
          (ok a, db')
      → (m ≡ ok a) × (db' ≡ db)
  read_inv f (ok a) db h = (ground arith, ground arith)
  read_inv f (err e) db h = cc

  pub read-inv {κ} :
      {E : Type κ} (service : Db → Result E A) (f : E → Response) (db : Db) {a : A} {db' : Db}
      → read service f db ≡ (ok a, db')
      → (service db ≡ ok a) × (db' ≡ db)
  read-inv service f db h = read_inv f (service db) db h

  outcome-inv {κ} :
      {E : Type κ} (f : E → Response) (db : Db) (m : Result E (A × Db)) {a : A} {db' : Db}
      → outcome f db m ≡ (ok a, db')
      → m ≡ ok (a, db')
  outcome-inv f db (ok (a, db₁)) h = ground arith
  outcome-inv f db (err e) h = cc

  pub call-inv {κ} :
      {E : Type κ} (service : Db → Result E (A × Db)) (f : E → Response) (db : Db) {a : A}
      {db' : Db}
      → call service f db ≡ (ok a, db')
      → service db ≡ ok (a, db')
  call-inv service f db h = outcome-inv f db (service db) h

pub refuse_if-inv :
    (b : Bool) (r : Response) (db : Db) {t : Unit {0}} {db' : Db}
    → refuse_if b r db ≡ (ok t, db')
    → (b ≡ false) × (db' ≡ db)
refuse_if-inv = fail_if-inv

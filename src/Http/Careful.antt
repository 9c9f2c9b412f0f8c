-- ===== src/Http/Careful.antt =====
-- What a handler leaves when it refuses a request, built up from its parts.
use uber_clone.Common.{
  ◌≤◌, ◌<◌, ◌≡◌, ◌∙◌, refl, Bool, true, false, Option, none, some, Result, ok, err, arith,
  if◌then◌else◌,
}
use uber_clone.Common.Text.{Text}
use uber_clone.Store.{Db}
use uber_clone.Driver.Presence.Frame.{SameProfiles}
use uber_clone.Http.{
  Response, Handler, ◌>>=◌, proceed, answer, refuse_if, or_refuse, call, call_kept, read, outcome,
  kept, refusal,
}

-- No other table changed than those of users, identities, Riders and profiles.
abbrev pub SameTables : Db → Db → Type 0
SameTables db db' = db' ≡ record db {
  users = db'.users;
  identities = db'.identities;
  riders = db'.riders;
  profiles = db'.profiles;
}

-- Nor did more of a profile change than its presence.
abbrev pub Frame : Db → Db → Type 0
Frame db db' = SameTables db db' × SameProfiles db db'

pub Frame-refl : (db : Db) → Frame db db
Frame-refl db = (refl, refl)

SameTables-trans : (a b c : Db) → SameTables a b → SameTables b c → SameTables a c
SameTables-trans a b c f g = ground arith

pub Frame-trans : (a b c : Db) → Frame a b → Frame b c → Frame a c
Frame-trans a b c f g = (SameTables-trans a b c f.0 g.0, g.1 ∙ f.1)

module _ {ℓ} {A : Type ℓ} where
  abbrev pub Passes : Db → Result Response A × Db → Type 0
  Passes db (ok a, db') = Frame db db'
  Passes db (err r, db') = (299 < r.status) × Frame db db'

  -- A check: it writes nothing but accounts and presence, and a refusal is one.
  pub record IsCheck (h : Handler A) : Type ℓ where
    pub passes : (db : Db) → Passes db (h db)

  pub answer-IsCheck : (a : A) → IsCheck (answer a)
  answer-IsCheck a = record { passes = λ db. Frame-refl db }

  pub or_refuse-IsCheck : (o : Option A) (r : Response) → 299 < r.status → IsCheck (or_refuse o r)
  or_refuse-IsCheck none r h = record { passes = λ db. (h, Frame-refl db) }
  or_refuse-IsCheck (some a) r h = record { passes = λ db. Frame-refl db }

  pub bad_request-IsCheck :
      (o : Option A) (message : Text) → IsCheck (or_refuse o (refusal 400 message))
  bad_request-IsCheck none message = record { passes = λ db. (omega arith, Frame-refl db) }
  bad_request-IsCheck (some a) message = record { passes = λ db. Frame-refl db }

  pub if-IsCheck :
      (b : Bool) (m n : Handler A) → IsCheck m → IsCheck n → IsCheck (if b then m else n)
  if-IsCheck true m n h k = h
  if-IsCheck false m n h k = k

  read-passing {κ} :
      {E : Type κ} (f : E → Response) (m : Result E A) (db : Db)
      → ((e : E) → 299 < (f e).status)
      → Passes db (elim m [ ok a ↦ (ok a, db) | err e ↦ (err (f e), db) ])
  read-passing f (ok a) db h = Frame-refl db
  read-passing f (err e) db h = (h e, Frame-refl db)

  pub read-IsCheck {κ} :
      {E : Type κ} (service : Db → Result E A) (f : E → Response)
      → ((e : E) → 299 < (f e).status)
      → IsCheck (read service f)
  read-IsCheck service f h = record { passes = λ db. read-passing f (service db) db h }

pub refuse_if-IsCheck : (b : Bool) (r : Response) → 299 < r.status → IsCheck (refuse_if b r)
refuse_if-IsCheck true r h = record { passes = λ db. (h, Frame-refl db) }
refuse_if-IsCheck false r h = record { passes = λ db. Frame-refl db }

module _ {ℓ κ} {A : Type ℓ} {B : Type κ} where
  proceed-Passes :
      (next : A → Handler B) (db : Db) (x : Result Response A × Db)
      → Passes db x
      → ((a : A) → IsCheck (next a))
      → Passes db (proceed next x)
  proceed-Passes next db (err r, db') p q = p
  proceed-Passes next db (ok a, db') p q = then_passes (next a db') ((q a).passes db')
    where
      then_passes : (y : Result Response B × Db) → Passes db' y → Passes db y
      then_passes (ok b, db'') f = Frame-trans db db' db'' p f
      then_passes (err r, db'') f = (f.0, Frame-trans db db' db'' p f.1)

  pub >>=-IsCheck :
      (m : Handler A) (next : A → Handler B)
      → IsCheck m
      → ((a : A) → IsCheck (next a))
      → IsCheck (m >>= next)
  >>=-IsCheck m next p q = record { passes = λ db. proceed-Passes next db (m db) (p.passes db) q }

abbrev pub Finishes : Db → Result Response Response × Db → Type 0
Finishes db (ok r, db') = r.status ≤ 299
Finishes db (err r, db') = (299 < r.status) × Frame db db'

-- A whole handler: where it refuses, it has written nothing but accounts and presence.
pub record IsCareful (h : Handler Response) : Type 0 where
  pub finishes : (db : Db) → Finishes db (h db)

pub answer-IsCareful : (r : Response) → r.status ≤ 299 → IsCareful (answer r)
answer-IsCareful r h = record { finishes = λ db. h }

module _ {ℓ} {A : Type ℓ} where
  proceed-Finishes :
      (next : A → Handler Response) (db : Db) (x : Result Response A × Db)
      → Passes db x
      → ((a : A) → IsCareful (next a))
      → Finishes db (proceed next x)
  proceed-Finishes next db (err r, db') p q = p
  proceed-Finishes next db (ok a, db') p q = then_finishes (next a db') ((q a).finishes db')
    where
      then_finishes : (y : Result Response Response × Db) → Finishes db' y → Finishes db y
      then_finishes (ok r, db'') f = f
      then_finishes (err r, db'') f = (f.0, Frame-trans db db' db'' p f.1)

  pub >>=-IsCareful :
      (m : Handler A) (next : A → Handler Response)
      → IsCheck m
      → ((a : A) → IsCareful (next a))
      → IsCareful (m >>= next)
  >>=-IsCareful m next p q = record {
    finishes = λ db. proceed-Finishes next db (m db) (p.passes db) q;
  }

  call-ends {κ} :
      {E : Type κ} (f : E → Response) (show : A → Response) (db : Db) (x : Result E (A × Db))
      → ((e : E) → 299 < (f e).status)
      → ((a : A) → (show a).status ≤ 299)
      → Finishes db (proceed (λ a. answer (show a)) (outcome f db x))
  call-ends f show db (ok (a, db')) p q = q a
  call-ends f show db (err e) p q = (p e, Frame-refl db)

  -- One transaction, whose answer is shown.
  pub call-IsCareful {κ} :
      {E : Type κ} (service : Db → Result E (A × Db)) (f : E → Response) (show : A → Response)
      → ((e : E) → 299 < (f e).status)
      → ((a : A) → (show a).status ≤ 299)
      → IsCareful (call service f >>= λ a. answer (show a))
  call-IsCareful service f show p q = record {
    finishes = λ db. call-ends f show db (service db) p q;
  }

  -- What a service leaves that commits before it fails.
  abbrev pub KeepsFrame {κ} : {E : Type κ} → Db → Result E A × Db → Type 0
  KeepsFrame db (ok a, db') = Unit {0}
  KeepsFrame db (err e, db') = Frame db db'

  kept-ends {κ} :
      {E : Type κ} (f : E → Response) (show : A → Response) (db : Db) (x : Result E A × Db)
      → ((e : E) → 299 < (f e).status)
      → ((a : A) → (show a).status ≤ 299)
      → KeepsFrame db x
      → Finishes db (proceed (λ a. answer (show a)) (kept f x))
  kept-ends f show db (ok a, db') p q k = q a
  kept-ends f show db (err e, db') p q k = (p e, k)

  pub call_kept-IsCareful {κ} :
      {E : Type κ} (service : Db → Result E A × Db) (f : E → Response) (show : A → Response)
      → ((e : E) → 299 < (f e).status)
      → ((a : A) → (show a).status ≤ 299)
      → ((db : Db) → KeepsFrame db (service db))
      → IsCareful (call_kept service f >>= λ a. answer (show a))
  call_kept-IsCareful service f show p q k = record {
    finishes = λ db. kept-ends f show db (service db) p q (k db);
  }

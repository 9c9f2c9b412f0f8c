-- ===== src/Http.antt =====
-- Requests, answers and handlers (httpapi/response.go, identity/http.go, httpapi/user.go). A handler
-- reads a request, may change the database, and answers; headers of the answer are left out.
pub mod Values
pub mod Access
pub mod Careful
pub mod Inversion
pub mod Allowed
use uber_clone.Common.{
  ℕ, Bool, true, false, ◌||◌, Option, none, some, List, [], ◌∷◌, ltb, Result, ok, err,
}
use uber_clone.Common.Text.{Text, codes}
use uber_clone.Store.{Db, Clock}
use uber_clone.Users.{ExternalIdentity}
use uber_clone.Common.Exchange.{Exchange, fail_if, or_fail}
pub use uber_clone.Common.Exchange.{proceed, ◌>>=◌, ◌>>◌, answer}
use Values.{Json, object, text}

pub data Content : Type 0 where
  empty : Content
  plain : Text → Content
  json : Json → Content

pub record Response : Type 0 where
  pub status : ℕ
  pub content : Content

-- writeJSON, and the body {"error": …} of most refusals.
abbrev pub write_json : ℕ → Json → Response
write_json status payload = record { status = status; content = json payload }

abbrev pub refusal : ℕ → Text → Response
refusal status message = write_json status (object ((codes "error", text message) ∷ []))

-- http.Error
abbrev pub http_error : Text → ℕ → Response
http_error message status = record { status = status; content = plain message }

-- w.WriteHeader(http.StatusNoContent)
abbrev pub no_content : Response
no_content = record { status = 204; content = empty }

-- What a handler reads of a request: the principal that the middleware has put into its context, the
-- values of the path's wildcards, and the body. `now` and `fresh` are what time.Now and uuid.New
-- answer to it, `clock` gives the times of its transaction, and `later` those of a second one.
pub record Request : Type 0 where
  pub authorization : Text
  pub principal : Option ExternalIdentity
  pub path_value : Text → Text
  pub body : Text
  pub now : ℕ
  pub fresh : ℕ
  pub clock : Clock
  pub later : Clock

-- A part of a handler: it goes on with an answer, or has written the response. Either way the
-- changes that it committed stay.
abbrev pub Handler {ℓ} : Type ℓ → Type ℓ
Handler A = Exchange Db Response A

abbrev pub refuse {ℓ} : {A : Type ℓ} → Response → Handler A
refuse r db = (err r, db)

abbrev pub refuse_if : Bool → Response → Handler (Unit {0})
refuse_if = fail_if

abbrev pub or_refuse {ℓ} : {A : Type ℓ} → Option A → Response → Handler A
or_refuse = or_fail

abbrev pub outcome {ℓ κ} :
    {E : Type ℓ} {A : Type κ} → (E → Response) → Db → Result E (A × Db) → Result Response A × Db
outcome f db (ok (a, db')) = (ok a, db')
outcome f db (err e) = (err (f e), db)

-- A call of a service, whose transaction is rolled back on an error; the error is written.
abbrev pub call {ℓ κ} :
    {E : Type ℓ} {A : Type κ} → (Db → Result E (A × Db)) → (E → Response) → Handler A
call service f db = outcome f db (service db)

-- The same where the service commits before it fails.
abbrev pub kept {ℓ κ} :
    {E : Type ℓ} {A : Type κ} → (E → Response) → Result E A × Db → Result Response A × Db
kept f (ok a, db) = (ok a, db)
kept f (err e, db) = (err (f e), db)

abbrev pub call_kept {ℓ κ} :
    {E : Type ℓ} {A : Type κ} → (Db → Result E A × Db) → (E → Response) → Handler A
call_kept service f db = kept f (service db)

-- The same for a call that only reads.
abbrev pub read {ℓ κ} : {E : Type ℓ} {A : Type κ} → (Db → Result E A) → (E → Response) → Handler A
read service f db = elim (service db) [ ok a ↦ (ok a, db) | err e ↦ (err (f e), db) ]

-- What the client gets.
abbrev pub written : Result Response Response → Response
written (ok r) = r
written (err r) = r

abbrev pub serve : Handler Response → Db → Response × Db
serve h db = (written (h db).0, (h db).1)

abbrev pub is_refusal : Response → Bool
is_refusal r = ltb 299 r.status

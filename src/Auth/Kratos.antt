-- ===== src/Auth/Kratos.antt =====
-- auth/kratos/provider.go and verification.go: the accounts and sessions of an Ory Kratos server. What
-- the server answers and how bodies are decoded are parameters.
pub mod Problems
pub mod Sessions
pub mod Identity
pub mod Verified
pub mod Extended
use Prim.Native.Nat.{max, min}
use uber_clone.Common.{
  ℕ, ◌-◌, ◌*◌, ◌/◌, ◌^◌, Bool, true, false, ◌&&◌, ◌||◌, not, Option, none, some, List, [], ◌∷◌,
  ◌++◌, ◌==◌, ltb, leb, Result, ok, err, if◌then◌else◌,
}
use uber_clone.Common.Table.{exists}
use uber_clone.Common.Text.{Text, codes, Cases, text_eq, trim_space, is_empty, strip_prefix}
use uber_clone.Http.Values.{Json, object, text}
use uber_clone.Auth.{
  AuthError, invalid_credentials, verification_invalid, verification_required,
  session_not_extendable, unavailable, Failure, known, Credentials, Session, Exchange, ◌>>=◌, ◌>>◌,
  answer, fail_if, or_fail, relabel, Provider,
}

-- A request to one of the two URLs of the server. `flow` is the query's value.
pub record Outgoing : Type 0 where
  pub admin : Bool
  pub method : Text
  pub path : Text
  pub session_token : Text
  pub flow : Option Text
  pub body : Option Json

pub record Reply : Type 0 where
  pub status : ℕ
  pub body : Text

pub record Flow : Type 0 where
  pub id : Text
  pub method : Text

pub record Continuation : Type 0 where
  pub action : Text
  pub flow : Option Text

pub record LoggedIn : Type 0 where
  pub session_token : Text
  pub expires_at : Option ℕ

pub record KratosSession : Type 0 where
  pub id : Text
  pub expires_at : Option ℕ

pub record Node : Type 0 where
  pub name : Text
  pub messages : List Text

-- The body of a refusal: its message, and those of the form and of the form's fields.
pub record Problem : Type 0 where
  pub message : Text
  pub messages : List Text
  pub nodes : List Node

-- The server as http.Client shows it (no reply where the call fails), url.PathEscape, the case tables,
-- and json.Decoder on each kind of body. The zero time is `none`.
pub record Server (S : Type 0) : Type 0 where
  pub send : Outgoing → S → Option Reply × S
  pub escape : Text → Text
  pub cases : Cases
  pub flow_body : Text → Option Flow
  pub continue_body : Text → Option (List Continuation)
  pub login_body : Text → Option LoggedIn
  pub state_body : Text → Option Text
  pub session_body : Text → Option KratosSession
  pub problem_body : Text → Option Problem
  pub addresses_body : Text → Option (List Bool)
  pub identity_body : Text → Option (Text × List Bool)

-- A call that failed: providerResponseError, or any other error.
pub data SubmitError : Type 0 where
  rejected : ℕ → List Text → List Text → SubmitError
  other : SubmitError

unfoldable pub is_client_failure : SubmitError → Bool
is_client_failure (rejected status fields messages) = leb 400 status && ltb status 500
is_client_failure other = false

unfoldable pub bearer : Text → Text
bearer token = elim (strip_prefix (codes "Bearer ") token) [
  | none ↦ trim_space token
  | some rest ↦ trim_space rest
]

-- max(1, int64(time.Until(t).Seconds())); a Duration is an int64 of nanoseconds.
abbrev pub seconds_left : ℕ → ℕ → ℕ
seconds_left now expires = max 1 (min ((expires - now) * 1000) (2 ^ 63 - 1) / 1000000000)

abbrev pub plain_get : Text → Text → Outgoing
plain_get path token = record {
  admin = false;
  method = codes "GET";
  path = path;
  session_token = token;
  flow = none;
  body = none;
}

abbrev pub whoami : Text → Outgoing
whoami token = plain_get (codes "/sessions/whoami") token

abbrev pub failed_with : AuthError → AuthError → SubmitError → Failure
failed_with refused lost e = known (if is_client_failure e then refused else lost)

abbrev pub lost {ℓ} : {E : Type ℓ} → E → Failure
lost e = known unavailable

abbrev pub starts_verification : Continuation → Bool
starts_verification c = text_eq c.action (codes "show_verification_ui")

abbrev pub flow_id : Continuation → Text
flow_id c = elim c.flow [ none ↦ [] | some id ↦ id ]

-- The identifier of the first step that shows a verification.
unfoldable pub challenge : List Continuation → Option Text
challenge [] = none
challenge (c ∷ l) =
    let rest = challenge l in
    if starts_verification c && not (is_empty (flow_id c)) then some (flow_id c) else rest

abbrev pub is_invalid_flow : Flow → Bool
is_invalid_flow f =
    is_empty f.id || (not (is_empty f.method) && not (text_eq f.method (codes "POST")))

module _ {S : Type 0} (k : Server S) where
  abbrev pub replied : Option Reply × S → Result SubmitError Reply × S
  replied (none, s) = (err other, s)
  replied (some r, s) = (ok r, s)

  -- client.Do
  abbrev pub ask : Outgoing → Exchange S SubmitError Reply
  ask o s = replied (k.send o s)

  -- createFlow
  unfoldable pub create_flow : Text → Exchange S SubmitError Flow
  create_flow path = do
    r ← ask (plain_get path [])
    fail_if (leb 300 r.status) other
    f ← or_fail (k.flow_body r.body) other
    fail_if (is_invalid_flow f) other
    answer f

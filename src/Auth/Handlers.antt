-- ===== src/Auth/Handlers.antt =====
-- auth/http.go: the endpoints of registration, login, verification and sessions.
use uber_clone.Common.{ℕ, ◌||◌, Option, none, some, [], ◌∷◌, Result, ok, err, if◌then◌else◌}
use uber_clone.Common.Int.{pos}
use uber_clone.Common.Text.{Text, codes, trim_space, is_empty}
use uber_clone.Http.{Response, write_json, no_content}
use uber_clone.Http.Values.{object, text, int}
use uber_clone.Auth.{
  AuthError, invalid_credentials, identifier_conflict, password_rejected, registration_invalid,
  verification_invalid, verification_required, session_not_extendable, unavailable, Failure, known,
  public, Credentials, Session, Provider, login, extend_session,
}

-- `decode` on each kind of body; a field that is absent is empty.
pub record Bodies : Type 0 where
  pub credentials : Text → Option Credentials
  pub email : Text → Option Text
  pub verification : Text → Option (Text × Text)

pub record AuthRequest : Type 0 where
  pub authorization : Text
  pub body : Text
  pub now : ℕ

-- httpAuthError: the status, the code and the message.
unfoldable pub http_auth_error : AuthError → ℕ × Text × Text
http_auth_error invalid_credentials =
    (401, codes "invalid_credentials", codes "Invalid credentials.")
http_auth_error verification_required =
    (403, codes "verification_required", codes "Account verification is required.")
http_auth_error session_not_extendable =
    (409, codes "session_not_extendable", codes "Session cannot be extended yet.")
http_auth_error identifier_conflict = (
  409,
  codes "identifier_already_exists",
  codes "An account with this identifier already exists.",
)
http_auth_error password_rejected =
    (400, codes "password_rejected", codes "Password does not meet requirements.")
http_auth_error registration_invalid =
    (400, codes "registration_invalid", codes "Registration request is invalid.")
http_auth_error verification_invalid =
    (400, codes "verification_invalid", codes "Verification is invalid or expired.")
http_auth_error unavailable =
    (503, codes "authentication_unavailable", codes "Authentication service is unavailable.")

-- authError
abbrev pub auth_error : ℕ → Text → Text → Response
auth_error status code message =
    write_json status (object ((codes "error", text code) ∷ (codes "message", text message) ∷ []))

abbrev pub or_else : Text → Text → Text
or_else value otherwise = if is_empty (trim_space value) then otherwise else value

unfoldable pub auth_failure : Failure → Response
unfolding http_auth_error
auth_failure (known e) = let x = http_auth_error e in auth_error x.0 x.1 x.2
auth_failure (public e code message) =
    let x = http_auth_error e in auth_error x.0 (or_else code x.1) (or_else message x.2)

abbrev pub invalid_request : Response
invalid_request = auth_error 400 (codes "invalid_request") (codes "Invalid request.")

-- The answer of a call.
abbrev pub answered {ℓ} :
    {S : Type 0} {A : Type ℓ} → (A → Response) → Result Failure A × S → Response × S
answered f (ok a, s) = (f a, s)
answered f (err e, s) = (auth_failure e, s)

abbrev pub session_response : Session → Response
session_response x = write_json 200 (
    object (
      (codes "access_token", text x.access_token)
      ∷ (codes "expires_in", int (pos x.expires_in))
      ∷ []))

abbrev pub challenge_response : ℕ → Text → Response
challenge_response status id = write_json status (object ((codes "verification_id", text id) ∷ []))

-- The credentials of a body that has both.
unfoldable pub given_credentials : Option Credentials → Option Credentials
given_credentials none = none
given_credentials (some c) =
    if is_empty (trim_space c.identifier) || is_empty c.password
    then none
    else some (record { identifier = trim_space c.identifier; password = c.password })

unfoldable pub given_text : Option Text → Option Text
given_text none = none
given_text (some s) = if is_empty (trim_space s) then none else some (trim_space s)

unfoldable pub given_code : Option (Text × Text) → Option (Text × Text)
given_code none = none
given_code (some (id, code)) =
    if is_empty (trim_space id) || is_empty (trim_space code)
    then none
    else some (trim_space id, trim_space code)

module _ {S : Type 0} where
  -- A handler goes on with what the request holds, or refuses it.
  abbrev pub with_given {ℓ} : {A : Type ℓ} → Option A → (A → S → Response × S) → S → Response × S
  with_given none f s = (invalid_request, s)
  with_given (some a) f s = f a s

  abbrev pub ignored : Result Failure (Unit {0}) × S → Result Failure (Unit {0}) × S
  ignored (err (known invalid_credentials), s) = (ok tt, s)
  ignored (err (public invalid_credentials code message), s) = (ok tt, s)
  ignored x = x

module _ {S : Type 0} (p : Provider S) (b : Bodies) where
  unfoldable pub register : AuthRequest → S → Response × S
  register r =
      with_given (given_credentials (b.credentials r.body))
        (λ c s. answered (challenge_response 201) (p.register c s))

  unfoldable pub log_in : AuthRequest → S → Response × S
  log_in r =
      with_given (given_credentials (b.credentials r.body))
        (λ c s. answered session_response (login p r.now c s))

  unfoldable pub verify : AuthRequest → S → Response × S
  verify r =
      with_given (given_text (b.email r.body))
        (λ email s. answered (challenge_response 200) (p.start_verification email s))

  unfoldable pub complete_verification : AuthRequest → S → Response × S
  complete_verification r =
      with_given (given_code (b.verification r.body))
        (λ x s. answered (λ done. no_content) (p.complete_verification x.0 x.1 s))

  unfoldable pub extend : AuthRequest → S → Response × S
  extend r =
      with_given (given_text (some r.authorization))
        (λ token s. answered session_response (extend_session p r.now token s))

  unfoldable pub log_out : AuthRequest → S → Response × S
  log_out r =
      with_given (given_text (some r.authorization))
        (λ token s. answered (λ done. no_content) (ignored (p.log_out token s)))

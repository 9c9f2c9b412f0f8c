-- ===== src/Auth.antt =====
-- auth/service.go: accounts and sessions, over a provider of identities whose state the calls change.
pub mod Words
pub mod Kratos
pub mod Handlers
pub mod Tests
use uber_clone.Common.{ℕ, Bool, true, false, Option, none, some, List, [], ◌∷◌, Result, ok, err}
use uber_clone.Common.Text.{Text}
pub use uber_clone.Common.Exchange.{Exchange, ◌>>=◌, ◌>>◌, answer, fail_if, or_fail, relabel}

pub data AuthError : Type 0 where
  invalid_credentials identifier_conflict password_rejected registration_invalid
        verification_invalid verification_required session_not_extendable unavailable :
      AuthError

-- An error, by itself or with the code and the message of a PublicError.
pub data Failure : Type 0 where
  known : AuthError → Failure
  public : AuthError → Text → Text → Failure

pub record Credentials : Type 0 where
  pub identifier : Text
  pub password : Text

pub record Session : Type 0 where
  pub access_token : Text
  pub expires_in : ℕ

-- auth.Provider; a challenge is its identifier, and the number is time.Now() where the call reads it.
pub record Provider (S : Type 0) : Type 0 where
  pub register : Credentials → Exchange S Failure Text
  pub log_in : ℕ → Credentials → Exchange S Failure Session
  pub log_out : Text → Exchange S Failure (Unit {0})
  pub extend : ℕ → Text → Exchange S Failure Session
  pub ensure_verified_session : Text → Exchange S Failure (Unit {0})
  pub start_verification : Text → Exchange S Failure Text
  pub complete_verification : Text → Text → Exchange S Failure (Unit {0})

module _ {S : Type 0} (p : Provider S) where
  -- A session that is refused is ended, whatever that answers.
  abbrev pub or_log_out : Text → Result Failure (Unit {0}) × S → Result Failure (Unit {0}) × S
  or_log_out token (ok t, s) = (ok t, s)
  or_log_out token (err e, s) = (err e, (p.log_out token s).1)

  abbrev pub verified : Text → Exchange S Failure (Unit {0})
  verified token s = or_log_out token (p.ensure_verified_session token s)

  -- Service.Login
  unfoldable pub login : ℕ → Credentials → Exchange S Failure Session
  login now c = do session ← p.log_in now c; verified session.access_token; answer session

  -- Service.ExtendSession
  unfoldable pub extend_session : ℕ → Text → Exchange S Failure Session
  extend_session now token = do p.ensure_verified_session token; p.extend now token

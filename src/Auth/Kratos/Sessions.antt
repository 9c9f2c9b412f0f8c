-- ===== src/Auth/Kratos/Sessions.antt =====
-- auth/kratos/provider.go and verification.go: the calls of auth.Provider, made to the server.
use uber_clone.Common.{
  ℕ, Bool, true, false, not, Option, none, some, List, [], ◌∷◌, ◌++◌, ◌==◌, ltb, leb, if◌then◌else◌,
}
use uber_clone.Common.Table.{exists}
use uber_clone.Common.Text.{Text, codes, text_eq, is_empty}
use uber_clone.Http.Values.{Json, object, text}
use uber_clone.Auth.{
  invalid_credentials, verification_invalid, verification_required, session_not_extendable,
  unavailable, Failure, known, Credentials, Session, Exchange, ◌>>=◌, ◌>>◌, answer, fail_if,
  or_fail, relabel, Provider,
}
use uber_clone.Auth.Kratos.{
  Outgoing, Reply, LoggedIn, KratosSession, Server, SubmitError, other, bearer, seconds_left,
  whoami, failed_with, lost, challenge, ask, create_flow,
}
use uber_clone.Auth.Kratos.Problems.{refusal_of, classify_registration_error}

abbrev submission : Text → Text → Json → Outgoing
submission path flow_id body = record {
  admin = false;
  method = codes "POST";
  path = path;
  session_token = [];
  flow = some flow_id;
  body = some body;
}

abbrev registration_body : Credentials → Json
registration_body c = object (
    (codes "method", text (codes "password"))
    ∷ (codes "password", text c.password)
    ∷ (codes "traits", object ((codes "email", text c.identifier) ∷ []))
    ∷ [])

abbrev login_form : Credentials → Json
login_form c = object (
    (codes "method", text (codes "password"))
    ∷ (codes "identifier", text c.identifier)
    ∷ (codes "password", text c.password)
    ∷ [])

abbrev code_body : Text → Text → Json
code_body name value = object ((codes "method", text (codes "code")) ∷ (name, text value) ∷ [])

abbrev pub extension : Text → Outgoing
extension path = record {
  admin = true;
  method = codes "PATCH";
  path = path;
  session_token = [];
  flow = none;
  body = none;
}

abbrev pub logout_request : Text → Outgoing
logout_request token = record {
  admin = false;
  method = codes "DELETE";
  path = codes "/self-service/logout/api";
  session_token = [];
  flow = none;
  body = some (object ((codes "session_token", text token) ∷ []));
}

abbrev expiry : KratosSession → Option ℕ
expiry x = if is_empty x.id then none else x.expires_at

abbrev pub login_session : ℕ → LoggedIn → Option Session
login_session now l = elim l.expires_at [
  | none ↦ none
  | some at ↦
      if is_empty l.session_token
      then none
      else some (record { access_token = l.session_token; expires_in = seconds_left now at })
]

-- A caller that reads no body.
abbrev no_result : Text → Option (Unit {0})
no_result body = some tt

abbrev pub any_verified : List Bool → Bool
any_verified = exists (λ b. b)

module _ {S : Type 0} (k : Server S) where
  -- submitFlow; `decode` is what the caller makes of the body.
  unfoldable pub submit_flow {ℓ} :
      {A : Type ℓ} → Text → Text → Json → (Text → Option A) → Exchange S SubmitError A
  submit_flow path flow_id body decode = do
    r ← ask k (submission path flow_id body)
    fail_if (leb 300 r.status) (refusal_of r.status (k.problem_body r.body))
    or_fail (decode r.body) other

  unfoldable pub register : Credentials → Exchange S Failure Text
  register c = do
    f ← relabel lost (create_flow k (codes "/self-service/registration/api"))
    l ← relabel (classify_registration_error k.cases) (
        submit_flow (codes "/self-service/registration") f.id (registration_body c) k.continue_body)
    or_fail (challenge l) (known unavailable)

  unfoldable pub log_in : ℕ → Credentials → Exchange S Failure Session
  log_in now c = do
    f ← relabel lost (create_flow k (codes "/self-service/login/api"))
    l ←
        relabel (failed_with invalid_credentials unavailable)
          (submit_flow (codes "/self-service/login") f.id (login_form c) k.login_body)
    or_fail (login_session now l) (known invalid_credentials)

  unfoldable pub start_verification : Text → Exchange S Failure Text
  start_verification email = do
    f ← relabel lost (create_flow k (codes "/self-service/verification/api"))
    done ← relabel (failed_with verification_invalid unavailable) (
        submit_flow (codes "/self-service/verification") f.id (code_body (codes "email") email)
          no_result)
    answer f.id

  unfoldable pub complete_verification : Text → Text → Exchange S Failure (Unit {0})
  complete_verification challenge_id code = do
    state ← relabel (failed_with verification_invalid unavailable) (
        submit_flow (codes "/self-service/verification") challenge_id
          (code_body (codes "code") code) k.state_body)
    fail_if (not (text_eq state (codes "passed_challenge"))) (known verification_invalid)

  -- The reply about a token's session.
  unfoldable pub who : Text → Exchange S Failure Reply
  who token = do
    r ← relabel lost (ask k (whoami token))
    fail_if (r.status == 401) (known invalid_credentials)
    fail_if (leb 300 r.status) (known unavailable)
    answer r

  -- `session`, with its identifier and its end.
  unfoldable pub session : Text → Exchange S Failure (Text × ℕ)
  session token = do
    r ← who token
    x ← or_fail (k.session_body r.body) (known unavailable)
    at ← or_fail (expiry x) (known unavailable)
    answer (x.id, at)

  unfoldable pub extend : ℕ → Text → Exchange S Failure Session
  extend now header = do
    let token = bearer header
    fail_if (is_empty token) (known invalid_credentials)
    current ← session token
    r ←
        relabel lost
          (ask k (extension (codes "/sessions/" ++ k.escape current.0 ++ codes "/extend")))
    fail_if (r.status == 404) (known session_not_extendable)
    fail_if (leb 300 r.status) (known unavailable)
    updated ← session token
    fail_if (not (ltb current.1 updated.1)) (known session_not_extendable)
    answer (record { access_token = token; expires_in = seconds_left now updated.1 })

  -- The end of a session that the server confirms.
  unfoldable pub end_session : Text → Exchange S Failure (Unit {0})
  end_session token = do
    r ← relabel lost (ask k (logout_request token))
    fail_if (not (r.status == 204))
        (known (if r.status == 401 then invalid_credentials else unavailable))

  unfoldable pub log_out : Text → Exchange S Failure (Unit {0})
  log_out header =
      let token = bearer header in if is_empty token then answer tt else end_session token

  unfoldable pub ensure_verified_session : Text → Exchange S Failure (Unit {0})
  ensure_verified_session header = do
    let token = bearer header
    fail_if (is_empty token) (known invalid_credentials)
    r ← who token
    l ← or_fail (k.addresses_body r.body) (known unavailable)
    fail_if (not (any_verified l)) (known verification_required)

  abbrev pub kratos : Provider S
  kratos = record {
    register = register;
    log_in = log_in;
    log_out = log_out;
    extend = extend;
    ensure_verified_session = ensure_verified_session;
    start_verification = start_verification;
    complete_verification = complete_verification;
  }

-- ===== src/Auth/Tests.antt =====
-- Tests of sessions: a server with one account, whose state is the end of its session.
use uber_clone.Common.{ℕ, ◌+◌, ◌≡◌, refl, true, Option, none, some, [], ◌∷◌, ok, if◌then◌else◌}
use uber_clone.Common.Text.{
  Text, ascii, codes, trim_space, trim_left, trim_right, is_space, strip_prefix,
}
use uber_clone.Auth.{Credentials, Session, extend_session}
use uber_clone.Auth.Kratos.{Outgoing, Reply, KratosSession, Server, bearer}
use uber_clone.Auth.Kratos.Sessions.{kratos, who, session, extend, ensure_verified_session}
use uber_clone.Auth.Kratos.Verified.{IsVerified}
use uber_clone.Auth.Kratos.Extended.{IsExtended, extend_session-IsExtended}

abbrev replies : Outgoing → ℕ → Option Reply × ℕ
replies o at =
    (some (record { status = 200; body = at ∷ [] }), if o.admin then at + 60000000 else at)

abbrev ends : Text → Option KratosSession
ends [] = none
ends (at ∷ s) = some (record { id = codes "s"; expires_at = some at })

abbrev server : Server ℕ
server = record {
  send = replies;
  escape = λ s. s;
  cases = ascii;
  flow_body = λ b. some (record { id = codes "f"; method = codes "POST" });
  continue_body = λ b. none;
  login_body = λ b. some (record { session_token = codes "t"; expires_at = some 90000000 });
  state_body = λ b. none;
  session_body = ends;
  problem_body = λ b. none;
  addresses_body = λ b. some (true ∷ []);
  identity_body = λ b. some (codes "rita", true ∷ []);
}

abbrev rita : Credentials
rita = record { identifier = codes "rita"; password = codes "secret" }

abbrev her_session : Session
her_session = record { access_token = codes "t"; expires_in = 80 }

abbrev longer : Session
longer = record { access_token = codes "t"; expires_in = 140 }

extends :
    extend_session (kratos server) 10000000 (codes "Bearer t") 90000000 ≡ (ok longer, 150000000)
unfolding extend_session extend session ensure_verified_session who bearer trim_space trim_left
    trim_right is_space strip_prefix
extends = refl

extend_session-IsExtended_example :
    (s₁ : ℕ) × IsVerified server (codes "Bearer t") 90000000 s₁
    × IsExtended server 10000000 (codes "Bearer t") longer s₁ 150000000
extend_session-IsExtended_example =
    extend_session-IsExtended server 10000000 (codes "Bearer t") 90000000 extends

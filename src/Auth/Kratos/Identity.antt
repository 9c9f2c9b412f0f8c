-- ===== src/Auth/Kratos/Identity.antt =====
-- identity/kratos and identity/oidc: who a token stands for.
use uber_clone.Common.{Bool, ◌||◌, not, Option, none, some, ◌==◌, Result, ok, err, if◌then◌else◌}
use uber_clone.Common.Text.{Text, is_empty}
use uber_clone.Users.{ExternalIdentity}
use uber_clone.Http.Access.{IdentityError, invalid_token, verification_required}
use uber_clone.Auth.{Exchange, ◌>>=◌, ◌>>◌, answer, fail_if, or_fail, relabel}
use uber_clone.Auth.Kratos.{Server, whoami, ask}
use uber_clone.Auth.Kratos.Sessions.{any_verified}

abbrev invalid {ℓ} : {E : Type ℓ} → E → IdentityError
invalid e = invalid_token

module _ {S : Type 0} (k : Server S) (source : Text) where
  -- kratos.Provider.AuthenticateVerified; the identity of the session has an identifier.
  unfoldable pub authenticate_verified : Text → Exchange S IdentityError ExternalIdentity
  authenticate_verified token = do
    r ← relabel invalid (ask k (whoami token))
    fail_if (not (r.status == 200)) invalid_token
    x ← or_fail (k.identity_body r.body) invalid_token
    fail_if (is_empty x.0) invalid_token
    fail_if (not (any_verified x.1)) verification_required
    answer (record { issuer = source; subject = x.0 })

-- What go-oidc's verifier answers about a token, and the claim `email_verified` (none where the claims
-- cannot be decoded).
pub record IdToken : Type 0 where
  pub issuer : Text
  pub subject : Text
  pub email_verified : Option Bool

abbrev claimed : IdToken → Result IdentityError ExternalIdentity
claimed t = elim t.email_verified [
  | none ↦ err invalid_token
  | some v ↦
      if v
      then ok (record { issuer = t.issuer; subject = t.subject })
      else err verification_required
]

-- oidc.Provider.AuthenticateVerified
unfoldable pub authenticate_oidc :
    (Text → Option IdToken) → Text → Result IdentityError ExternalIdentity
authenticate_oidc verify token = elim (verify token) [
  | none ↦ err invalid_token
  | some t ↦ if is_empty t.subject || is_empty t.issuer then err invalid_token else claimed t
]

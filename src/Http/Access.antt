-- ===== src/Http/Access.antt =====
-- identity/http.go and httpapi/user.go: the identity of a request, and the capabilities of its user.
use uber_clone.Common.{Option, none, some, [], ◌∷◌, Result, ok, err, if◌then◌else◌, map}
use uber_clone.Common.Text.{Text, codes, is_empty, trim_space, strip_prefix}
use uber_clone.Users.{
  Capability, rider, driver, ExternalIdentity, User, UserError, holds, get_or_create,
  enable_capability,
}
use uber_clone.Http.{
  Response, Request, Handler, write_json, refusal, http_error, ◌>>=◌, answer, refuse, or_refuse,
  call,
}
use uber_clone.Http.Values.{Json, object, array, text, uuid}

pub data IdentityError : Type 0 where
  invalid_token verification_required : IdentityError

-- identity.Provider, AuthenticateVerified.
abbrev pub Provider : Type 0
Provider = Text → Result IdentityError ExternalIdentity

abbrev some_token : Text → Option Text
some_token token = if is_empty token then none else some token

unfoldable pub bearer_token : Text → Option Text
bearer_token header = elim (strip_prefix (codes "Bearer ") header) [
  | none ↦ none
  | some rest ↦ some_token (trim_space rest)
]

abbrev pub unauthenticated : Response
unauthenticated = http_error (codes "identity is unauthenticated") 401

abbrev pub with_principal : ExternalIdentity → Request → Request
with_principal p r = record r { principal = some p }

abbrev pub authenticate : Provider → Request → Option ExternalIdentity
authenticate provider r = elim (bearer_token r.authorization) [
  | none ↦ none
  | some token ↦ elim (provider token) [ ok p ↦ some p | err e ↦ none ]
]

unfoldable pub middleware : Provider → (Request → Handler Response) → Request → Handler Response
middleware provider next r = do
  p ← or_refuse (authenticate provider r) unauthenticated
  next (with_principal p r)

abbrev pub capability_name : Capability → Text
capability_name rider = codes "rider"
capability_name driver = codes "driver"

unfoldable pub user_response : User → Json
user_response u = object (
    (codes "id", uuid u.id)
    ∷ (codes "capabilities", array (map (λ k. text (capability_name k)) u.capabilities))
    ∷ [])

abbrev pub principal_required : Request → Handler ExternalIdentity
principal_required r = or_refuse r.principal (refusal 401 (codes "authentication required"))

abbrev pub unable : Text → UserError → Response
unable message e = refusal 500 message

unfoldable pub current_user : Request → Handler User
current_user r = do
  p ← principal_required r
  call (get_or_create r.now r.fresh p) (unable (codes "unable to load user"))

abbrev pub missing : Capability → Response
missing rider = refusal 403 (codes "rider capability required")
missing driver = refusal 403 (codes "driver capability required")

-- requireRiderCapability and requireDriverCapability
unfoldable pub require_capability : Capability → Request → Handler User
require_capability k r = do u ← current_user r; if holds k u then answer u else refuse (missing k)

unfoldable pub me : Request → Handler Response
me r = do u ← current_user r; answer (write_json 200 (user_response u))

unfoldable pub enable_driver_capability : Request → Handler Response
enable_driver_capability r = do
  p ← principal_required r
  u ←
      call (enable_capability r.now r.fresh p driver)
        (unable (codes "unable to enable driver capability"))
  answer (write_json 200 (user_response u))

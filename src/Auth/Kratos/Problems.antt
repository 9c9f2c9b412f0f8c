-- ===== src/Auth/Kratos/Problems.antt =====
-- auth/kratos/provider.go: what a refusal of the server means (submitFlow, publicMessage,
-- classifyRegistrationError).
use uber_clone.Common.{
  ℕ, Bool, true, false, ◌&&◌, ◌||◌, not, Option, none, some, List, [], ◌∷◌, ◌++◌, if◌then◌else◌,
}
use uber_clone.Common.Table.{exists}
use uber_clone.Common.Text.{Text, codes, Cases, to_lower, trim_space, is_empty}
use uber_clone.Auth.{
  identifier_conflict, password_rejected, registration_invalid, unavailable, Failure, known, public,
}
use uber_clone.Auth.Words.{words, joined, contains, first_bytes}
use uber_clone.Auth.Kratos.{Node, Problem, SubmitError, rejected, other, is_client_failure}

abbrev is_blank : Text → Bool
is_blank s = is_empty (trim_space s)

unfoldable pub nonblank : List Text → List Text
nonblank [] = []
nonblank (m ∷ l) = let rest = nonblank l in if is_blank m then rest else m ∷ rest

unfoldable pub node_messages : List Node → List Text
node_messages [] = []
node_messages (n ∷ l) = n.messages ++ node_messages l

abbrev has_messages : Node → Bool
has_messages n = elim n.messages [ [] ↦ false | m ∷ l ↦ true ]

unfoldable pub node_fields : List Node → List Text
node_fields [] = []
node_fields (n ∷ l) =
    let rest = node_fields l in
    if not (is_blank n.name) && has_messages n then n.name ∷ rest else rest

abbrev pub problem_messages : Problem → List Text
problem_messages p = nonblank (p.message ∷ p.messages ++ node_messages p.nodes)

-- The error of submitFlow for a status of 300 and above.
abbrev pub refusal_of : ℕ → Option Problem → SubmitError
refusal_of status none = rejected status [] []
refusal_of status (some p) = rejected status (node_fields p.nodes) (problem_messages p)

-- `publicMessage`; the cut leaves a message of at most 300 bytes as it is.
unfoldable pub public_message : List Text → Text
public_message [] = []
public_message (m ∷ l) =
    let rest = public_message l in
    if is_blank m then rest else first_bytes 300 (joined (words (trim_space m)))

abbrev pub fallback : Text → Text → Text
fallback value otherwise = if is_blank value then otherwise else value

abbrev pub password_failure : Text → Failure
password_failure message =
    public password_rejected (codes "password_rejected")
      (fallback message (codes "Password does not meet requirements."))

abbrev pub conflict_failure : Text → Failure
conflict_failure message =
    public identifier_conflict (codes "identifier_already_exists")
      (fallback message (codes "An account with this identifier already exists."))

abbrev pub invalid_failure : Text → Failure
invalid_failure message =
    public registration_invalid (codes "registration_invalid")
      (fallback message (codes "Registration request is invalid."))

abbrev pub is_about_password : Text → Bool
is_about_password s =
    contains (codes "password") s || contains (codes "breach") s || contains (codes "pwn") s

abbrev pub is_about_conflict : Text → Bool
is_about_conflict s =
    contains (codes "already") s
    && (contains (codes "exist") s
        || contains (codes "used") s
        || contains (codes "taken") s
        || contains (codes "registered") s)

abbrev pub names_password : Cases → Text → Bool
names_password u field = contains (codes "password") (to_lower u field)

-- The texts of a refusal.
unfoldable pub registration_failure : Cases → List Text → List Text → Failure
registration_failure u fields messages =
    let message = public_message messages in
    let all = to_lower u (joined messages) in
    if exists (names_password u) fields || is_about_password all
    then password_failure message
    else if is_about_conflict all
    then conflict_failure message
    else invalid_failure message

unfoldable pub classify_registration_error : Cases → SubmitError → Failure
classify_registration_error u other = known unavailable
classify_registration_error u (rejected status fields messages) =
    if is_client_failure (rejected status fields messages)
    then registration_failure u fields messages
    else known unavailable

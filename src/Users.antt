-- ===== src/Users.antt =====
-- user/user.go and user/postgres_repository.go: users, who sign in with external identities, and
-- their capabilities.
pub mod Identified
pub mod Signed
pub mod Tests
use uber_clone.Common.{
  ℕ, Bool, true, false, ◌&&◌, not, Option, none, some, List, [], ◌∷◌, ◌++◌, ◌==◌, Result, ok, err,
  ◌>>=◌, ◌>>◌, or_fail, fail_if, if◌then◌else◌,
}
use uber_clone.Common.Table.{find, exists}
use uber_clone.Common.Text.{Text, text_eq}
use uber_clone.Store.{Db, UserRow, IdentityRow}

pub data Capability : Type 0 where
  rider driver : Capability

abbrev pub same_capability : Capability → Capability → Bool
same_capability rider rider = true
same_capability rider driver = false
same_capability driver rider = false
same_capability driver driver = true

-- Also identity.Principal, with the same fields.
pub record ExternalIdentity : Type 0 where
  pub issuer : Text
  pub subject : Text

pub record User : Type 0 where
  pub id : ℕ
  pub capabilities : List Capability
  pub created_at : ℕ

-- `for _, capability := range u.Capabilities { if capability == k … }`
abbrev pub holds : Capability → User → Bool
holds k u = exists (same_capability k) u.capabilities

-- What the tables' keys refuse, and the sql.ErrNoRows of find.
pub data UserError : Type 0 where
  user_exists user_missing no_user : UserError

abbrev pub is_identity : ExternalIdentity → IdentityRow → Bool
is_identity x r = text_eq r.issuer x.issuer && text_eq r.subject x.subject

abbrev pub is_user : ℕ → UserRow → Bool
is_user id u = u.id == id

-- user_capabilities, one list of users for each capability.
abbrev pub holders : Capability → Db → List ℕ
holders rider db = db.riders
holders driver db = db.drivers

abbrev pub set_holders : Capability → List ℕ → Db → Db
set_holders rider l db = record db { riders = l }
set_holders driver l db = record db { drivers = l }

abbrev pub has : ℕ → Capability → Db → Bool
has user k db = exists (λ u. u == user) (holders k db)

-- INSERT INTO user_capabilities … ON CONFLICT DO NOTHING, with the foreign key to users.
unfoldable pub insert_capability : ℕ → Capability → Db → Result UserError Db
insert_capability user k db = do
  fail_if (not (exists (is_user user) db.users)) user_missing
  ok (if has user k db then db else set_holders k (holders k db ++ user ∷ []) db)

abbrev pub identity_row : ℕ → ExternalIdentity → IdentityRow
identity_row id x = record { user_id = id; issuer = x.issuer; subject = x.subject }

abbrev pub with_user : ℕ → ℕ → ExternalIdentity → Db → Db
with_user now id x db = record db {
  users = db.users ++ record { id = id; created_at = now } ∷ [];
  identities = db.identities ++ identity_row id x ∷ [];
}

-- The row of the users table and that of the identity.
unfoldable pub insert_user : ℕ → ℕ → ExternalIdentity → Db → Result UserError Db
insert_user now id x db = do
  fail_if (exists (is_user id) db.users) user_exists
  ok (with_user now id x db)

-- ORDER BY capability
abbrev pub list_capabilities : ℕ → Db → List Capability
list_capabilities user db =
    (if has user driver db then driver ∷ [] else [])
    ++ (if has user rider db then rider ∷ [] else [])

abbrev pub user_of : UserRow → Db → User
user_of r db = record {
  id = r.id;
  capabilities = list_capabilities r.id db;
  created_at = r.created_at;
}

unfoldable pub find_user : ℕ → Db → Result UserError User
find_user user db = do u ← or_fail (find (is_user user) db.users) no_user; ok (user_of u db)

-- The user of an identity that is known, or a new one; `now` is time.Now() and `fresh` uuid.New().
abbrev pub identified : ℕ → ℕ → ExternalIdentity → Db → Result UserError (ℕ × Db)
identified now fresh x db = elim (find (is_identity x) db.identities) [
  | some r ↦ ok (r.user_id, db)
  | none ↦ insert_user now fresh x db >>= λ db'. ok (fresh, db')
]

unfoldable pub create_with_default_rider :
    ℕ → ℕ → ExternalIdentity → Db → Result UserError (User × Db)
create_with_default_rider now fresh x db = do
  (id, db₁) ← identified now fresh x db
  db₂ ← insert_capability id rider db₁
  u ← find_user id db₂
  ok (u, db₂)

unfoldable pub add_capability : ℕ → Capability → Db → Result UserError (User × Db)
add_capability user k db = do db' ← insert_capability user k db; u ← find_user user db'; ok (u, db')

-- Service
abbrev pub get_or_create : ℕ → ℕ → ExternalIdentity → Db → Result UserError (User × Db)
get_or_create = create_with_default_rider

unfoldable pub enable_capability :
    ℕ → ℕ → ExternalIdentity → Capability → Db → Result UserError (User × Db)
enable_capability now fresh x k db = do
  (u, db') ← create_with_default_rider now fresh x db
  add_capability u.id k db'

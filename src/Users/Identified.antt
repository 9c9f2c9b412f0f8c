-- ===== src/Users/Identified.antt =====
-- An identity keeps its user, who has the capability of a Rider.
use uber_clone.Common.{
  ℕ, ◌≡◌, ◌⊎◌, refl, sym, ◌∙◌, ap, subst, inl, inr, true, false, none, some, List, [], ◌∷◌, ◌++◌,
  ◌==◌, ==_refl, ok, Option-cases, Bool-cases, >>=-eq-ok, arith,
}
use uber_clone.Common.Text.{text_eq_refl}
use uber_clone.Common.Table.{find, exists, find-append, find_sound, exists-find}
use uber_clone.Store.{Db, UserRow, IdentityRow}
use uber_clone.Users.{
  Capability, rider, driver, ExternalIdentity, User, is_identity, is_user, holders, set_holders,
  has, insert_capability, identity_row, with_user, same_capability, holds, insert_user,
  list_capabilities, user_of, find_user, identified, create_with_default_rider,
}

insert_capability-cases :
    (user : ℕ) (k : Capability) (db : Db) {db' : Db}
    → insert_capability user k db ≡ ok db'
    → (exists (is_user user) db.users ≡ true)
      × ((has user k db ≡ true) × (db' ≡ db)
          ⊎ (has user k db ≡ false) × (db' ≡ set_holders k (holders k db ++ user ∷ []) db))
unfolding insert_capability
insert_capability-cases user k db h = ground arith

has_appended : (user : ℕ) (t : List ℕ) → exists (λ u. u == user) (t ++ user ∷ []) ≡ true
has_appended user [] = rw (==_refl user) refl
has_appended user (u ∷ t) = ground (arith, has_appended user t)

-- What the statement leaves: the user has the capability, and only the table of its holders changes.
abbrev pub Granted : ℕ → Capability → Db → Db → Type 0
Granted user k db db' =
    (exists (is_user user) db'.users ≡ true)
    × (has user k db' ≡ true)
    × (db' ≡ set_holders k (holders k db') db)

set_holders_lem :
    (k : Capability) (l : List ℕ) (db : Db)
    → set_holders k (holders k (set_holders k l db)) db ≡ set_holders k l db
set_holders_lem rider l db = refl
set_holders_lem driver l db = refl

holders-set : (k : Capability) (l : List ℕ) (db : Db) → holders k (set_holders k l db) ≡ l
holders-set rider l db = refl
holders-set driver l db = refl

holders_kept : (k : Capability) (db : Db) → db ≡ set_holders k (holders k db) db
holders_kept rider db = refl
holders_kept driver db = refl

users-set : (k : Capability) (l : List ℕ) (db : Db) → (set_holders k l db).users ≡ db.users
users-set rider l db = refl
users-set driver l db = refl

identities-set :
    (k : Capability) (l : List ℕ) (db : Db) → (set_holders k l db).identities ≡ db.identities
identities-set rider l db = refl
identities-set driver l db = refl

pub insert_capability-Granted :
    (user : ℕ) (k : Capability) (db : Db) {db' : Db}
    → insert_capability user k db ≡ ok db'
    → Granted user k db db'
insert_capability-Granted user k db h =
    let (there, way) = insert_capability-cases user k db h in
    elim way [
      | inl (had, e) ↦ rw e (there, had, holders_kept k db)
      | inr (new, e) ↦ rw e (
        rw (users-set k (holders k db ++ user ∷ []) db) there,
        rw (holders-set k (holders k db ++ user ∷ []) db) (has_appended user (holders k db)),
        sym (set_holders_lem k (holders k db ++ user ∷ []) db),
      )
    ]

pub insert_capability-granted :
    (user : ℕ) (k : Capability) (db : Db)
    → exists (is_user user) db.users ≡ true
    → has user k db ≡ true
    → insert_capability user k db ≡ ok db
unfolding insert_capability
insert_capability-granted user k db there had = rw (there, had) refl

-- The identity is known, as the user's.
abbrev pub Known : ExternalIdentity → ℕ → Db → Type 0
Known x user db =
    (r : IdentityRow) × (find (is_identity x) db.identities ≡ some r) × (r.user_id ≡ user)

-- The two ways to find the user of an identity.
abbrev pub Found : ℕ → ℕ → ExternalIdentity → Db → ℕ → Db → Type 0
Found now fresh x db id db' =
    ((r : IdentityRow) × (find (is_identity x) db.identities ≡ some r)
      × (id ≡ r.user_id)
      × (db' ≡ db))
    ⊎ (find (is_identity x) db.identities ≡ none)
      × (exists (is_user fresh) db.users ≡ false)
      × (id ≡ fresh)
      × (db' ≡ with_user now fresh x db)

identified-Found :
    (now fresh : ℕ) (x : ExternalIdentity) (db : Db) {id : ℕ} {db' : Db}
    → identified now fresh x db ≡ ok (id, db')
    → Found now fresh x db id db'
unfolding insert_user
identified-Found now fresh x db h = elim (Option-cases (find (is_identity x) db.identities)) [
  | inl e ↦ inr (e, ground arith, ground arith, ground arith)
  | inr (r, e) ↦ inl (r, e, ground arith, ground arith)
]

is_identity_row : (id : ℕ) (x : ExternalIdentity) → is_identity x (identity_row id x) ≡ true
is_identity_row id x = rw (text_eq_refl x.issuer, text_eq_refl x.subject) refl

find-none-exists :
    (x : ExternalIdentity) (t : List IdentityRow)
    → find (is_identity x) t ≡ none
    → exists (is_identity x) t ≡ false
find-none-exists x t h = elim (Bool-cases (exists (is_identity x) t)) [
  | inl e ↦ let (r, f) = exists-find (is_identity x) t e in cc
  | inr e ↦ e
]

pub Found-Known :
    (now fresh : ℕ) (x : ExternalIdentity) (db : Db) {id : ℕ} {db' : Db}
    → Found now fresh x db id db'
    → Known x id db'
Found-Known now fresh x db (inl (r, e, i, d)) = (r, rw d e, sym i)
Found-Known now fresh x db (inr (e, new, i, d)) = (
  identity_row fresh x,
  rw d (
      find-append (is_identity x) db.identities (identity_row fresh x ∷ [])
        (find-none-exists x db.identities e)
      ∙ rw (is_identity_row fresh x) refl),
  sym i,
)

holds-list :
    (k : Capability) (user : ℕ) (db : Db)
    → exists (same_capability k) (list_capabilities user db) ≡ has user k db
holds-list rider user db = ground arith
holds-list driver user db = ground arith

user_id : (user : ℕ) (r : UserRow) → is_user user r ≡ true → r.id ≡ user
user_id user r h = ground arith

find_user-inv :
    (user : ℕ) (db : Db) {u : User}
    → find_user user db ≡ ok u
    → (r : UserRow) × (find (is_user user) db.users ≡ some r) × (r.id ≡ user) × (u ≡ user_of r db)
unfolding find_user
find_user-inv user db h = elim (Option-cases (find (is_user user) db.users)) [
  | inl e ↦ cc
  | inr (r, e) ↦ (r, e, user_id user r (find_sound (is_user user) db.users e), ground arith)
]

pub find_user-holds :
    (user : ℕ) (db : Db) {u : User}
    → find_user user db ≡ ok u
    → (u.id ≡ user) × ((k : Capability) → holds k u ≡ has user k db)
find_user-holds user db h =
    let (r, f, same, e) = find_user-inv user db h in
    (ap (λ (v : User). v.id) e ∙ same, λ k. rw e (holds-list k r.id db ∙ ap (λ i. has i k db) same))

-- The parts of a call that succeeds.
pub record Created (now fresh : ℕ) (x : ExternalIdentity) (u : User) (db db' : Db) : Type 0 where
  pub first : Db
  pub found : Found now fresh x db u.id first
  pub granted : Granted u.id rider first db'
  pub inserted : insert_capability u.id rider first ≡ ok db'
  pub shown : find_user u.id db' ≡ ok u

assembled :
    (now fresh : ℕ) (x : ExternalIdentity) (db first : Db) (id : ℕ) {u : User} {db' : Db}
    → id ≡ u.id
    → identified now fresh x db ≡ ok (id, first)
    → insert_capability id rider first ≡ ok db'
    → find_user id db' ≡ ok u
    → Created now fresh x u db db'
assembled now fresh x db first id {u} {db'} same e₁ e₂ e₃ =
    let inserted : insert_capability u.id rider first ≡ ok db' =
      subst (λ i. insert_capability i rider first ≡ ok db') same e₂ in
    record {
      first = first;
      found =
          identified-Found now fresh x db
            (subst (λ i. identified now fresh x db ≡ ok (i, first)) same e₁);
      granted = insert_capability-Granted u.id rider first inserted;
      inserted = inserted;
      shown = subst (λ i. find_user i db' ≡ ok u) same e₃;
    }

pub create-Created :
    (now fresh : ℕ) (x : ExternalIdentity) (db : Db) {u : User} {db' : Db}
    → create_with_default_rider now fresh x db ≡ ok (u, db')
    → Created now fresh x u db db'
unfolding create_with_default_rider
create-Created now fresh x db {u} {db'} h =
    let (a, e₁, h₁) = >>=-eq-ok (identified now fresh x db) _ h in
    let (db₂, e₂, h₂) = >>=-eq-ok (insert_capability a.0 rider a.1) _ h₁ in
    let (v, e₃, h₃) = >>=-eq-ok (find_user a.0 db₂) _ h₂ in
    let e₂' : insert_capability a.0 rider a.1 ≡ ok db' = cc (e₂, h₃) in
    let e₃' : find_user a.0 db' ≡ ok u = cc (e₃, h₃) in
    assembled now fresh x db a.1 a.0 (sym (find_user-holds a.0 db' e₃').0) e₁ e₂' e₃'

pub identified-again :
    (now fresh : ℕ) (x : ExternalIdentity) (id : ℕ) (db : Db)
    → Known x id db
    → identified now fresh x db ≡ ok (id, db)
identified-again now fresh x id db (r, e, i) = rw (e, identified) (ap (λ k. ok (k, db)) i)

-- The other tables of identities and users are as before.
pub Granted-Known :
    (x : ExternalIdentity) (id : ℕ) (k : Capability) (user : ℕ) (db db' : Db)
    → Granted user k db db'
    → Known x id db
    → Known x id db'
Granted-Known x id k user db db' (there, had, e) (r, f, i) =
    (r, rw (ap (λ (d : Db). d.identities) e ∙ identities-set k (holders k db') db) f, i)

-- ===== src/Users/Signed.antt =====
-- Who is signed in: what the calls of user/user.go promise of an identity.
use uber_clone.Common.{
  ℕ, ◌≡◌, refl, sym, ◌∙◌, subst, inl, inr, true, false, none, [], ◌∷◌, ok, >>=-eq-ok, arith,
}
use uber_clone.Common.Table.{find, exists, find-append_old}
use uber_clone.Store.{Db}
use uber_clone.Users.{
  Capability, rider, driver, ExternalIdentity, User, is_identity, is_user, has, insert_capability,
  identity_row, holds, find_user, create_with_default_rider, add_capability, enable_capability,
}
use uber_clone.Users.Identified.{
  Granted, Known, Found, create-Created, insert_capability-Granted, insert_capability-granted,
  Found-Known, Granted-Known, find_user-holds, identified-again,
}

-- A call that succeeded can be repeated.
create_twice :
    (now fresh now' fresh' : ℕ) (x : ExternalIdentity) (db : Db) {u : User} {db' : Db}
    → create_with_default_rider now fresh x db ≡ ok (u, db')
    → create_with_default_rider now' fresh' x db' ≡ ok (u, db')
unfolding create_with_default_rider
create_twice now fresh now' fresh' x db {u} {db'} h =
    let c = create-Created now fresh x db h in
    let known =
      Granted-Known x u.id rider u.id c.first db' c.granted (Found-Known now fresh x db c.found) in
    rw
      (
        identified-again now' fresh' x u.id db' known,
        insert_capability-granted u.id rider db' c.granted.0 c.granted.1,
        c.shown,
      )
      refl

Found-Known_other :
    (now fresh : ℕ) (x y : ExternalIdentity) (db : Db) (user : ℕ) {id : ℕ} {db' : Db}
    → Found now fresh x db id db'
    → Known y user db
    → Known y user db'
Found-Known_other now fresh x y db user (inl (r, e, i, d)) known = rw d known
Found-Known_other now fresh x y db user (inr (e, new, i, d)) (r, f, j) =
    (r, rw d (find-append_old (is_identity y) db.identities (identity_row fresh x ∷ []) f), j)

Found-frame :
    (now fresh : ℕ) (x : ExternalIdentity) (db : Db) {id : ℕ} {db' : Db}
    → Found now fresh x db id db'
    → db' ≡ record db { users = db'.users; identities = db'.identities }
Found-frame now fresh x db {db'} (inl (r, e, i, d)) =
    subst (λ (z : Db). z ≡ record db { users = z.users; identities = z.identities }) (sym d) refl
Found-frame now fresh x db {db'} (inr (e, new, i, d)) =
    subst (λ (z : Db). z ≡ record db { users = z.users; identities = z.identities }) (sym d) refl

-- What GetOrCreate promises.
pub record IsSignedIn (fresh : ℕ) (x : ExternalIdentity) (u : User) (db db' : Db) : Type 0 where
  pub known : Known x u.id db'
  pub is_rider : holds rider u ≡ true
  pub same_user : (user : ℕ) → Known x user db → u.id ≡ user
  pub new_user :
      find (is_identity x) db.identities ≡ none
      → (u.id ≡ fresh) × (exists (is_user fresh) db.users ≡ false)
  pub again : (now' fresh' : ℕ) → create_with_default_rider now' fresh' x db' ≡ ok (u, db')
  pub others : (y : ExternalIdentity) (user : ℕ) → Known y user db → Known y user db'
  pub frame :
      db' ≡ record db { users = db'.users; identities = db'.identities; riders = db'.riders }

Found-same :
    (now fresh : ℕ) (x : ExternalIdentity) (db : Db) {id : ℕ} {db' : Db} (user : ℕ)
    → Found now fresh x db id db'
    → Known x user db
    → id ≡ user
Found-same now fresh x db user (inl (r, e, i, d)) (r', e', i') = cc
Found-same now fresh x db user (inr (e, new, i, d)) (r', e', i') = cc

Found-new :
    (now fresh : ℕ) (x : ExternalIdentity) (db : Db) {id : ℕ} {db' : Db}
    → Found now fresh x db id db'
    → find (is_identity x) db.identities ≡ none
    → (id ≡ fresh) × (exists (is_user fresh) db.users ≡ false)
Found-new now fresh x db (inl (r, e, i, d)) h = cc
Found-new now fresh x db (inr (e, new, i, d)) h = (i, new)

framed :
    (db first db' : Db)
    → first ≡ record db { users = first.users; identities = first.identities }
    → db' ≡ record first { riders = db'.riders }
    → db' ≡ record db { users = db'.users; identities = db'.identities; riders = db'.riders }
framed db first db' e f = ground arith

-- Where GetOrCreate succeeds, the identity is known as that of the answered user, who has the
-- capability of a Rider. A known identity keeps its user, and for an unknown one the new identifier
-- was that of no user. The call can be repeated, at any time and with any new identifier: it answers
-- the same user and changes nothing. All other identities keep their users, and no other table is changed than
-- those of users, identities and Riders.
pub create-IsSignedIn :
    (now fresh : ℕ) (x : ExternalIdentity) (db : Db) {u : User} {db' : Db}
    → create_with_default_rider now fresh x db ≡ ok (u, db')
    → IsSignedIn fresh x u db db'
create-IsSignedIn now fresh x db {u} {db'} h =
    let c = create-Created now fresh x db h in
    record {
      known =
          Granted-Known x u.id rider u.id c.first db' c.granted
            (Found-Known now fresh x db c.found);
      is_rider = (find_user-holds u.id db' c.shown).1 rider ∙ c.granted.1;
      same_user = λ user k. Found-same now fresh x db user c.found k;
      new_user = Found-new now fresh x db c.found;
      again = λ now' fresh'. create_twice now fresh now' fresh' x db h;
      others = λ y user k.
          Granted-Known y user rider u.id c.first db' c.granted
            (Found-Known_other now fresh x y db user c.found k);
      frame = framed db c.first db' (Found-frame now fresh x db c.found) c.granted.2;
    }

has_kept :
    (k k' : Capability) (user : ℕ) (db db' : Db)
    → Granted user k db db'
    → has user k' db ≡ true
    → has user k' db' ≡ true
has_kept rider rider user db db' g h = g.1
has_kept driver driver user db db' g h = g.1
has_kept rider driver user db db' g h = rw g.2 h
has_kept driver rider user db db' g h = rw g.2 h

enabled :
    (now fresh : ℕ) (x : ExternalIdentity) (k : Capability) (db : Db) (v : User) (first : Db)
    {u : User} {db' : Db}
    → create_with_default_rider now fresh x db ≡ ok (v, first)
    → insert_capability v.id k first ≡ ok db'
    → find_user v.id db' ≡ ok u
    → (holds k u ≡ true)
      × (holds rider u ≡ true)
      × ((user : ℕ) → Known x user db → u.id ≡ user)
      × ((now' fresh' : ℕ) → create_with_default_rider now' fresh' x db' ≡ ok (u, db'))
unfolding create_with_default_rider
enabled now fresh x k db v first {u} {db'} e₁ e₂ e₃ =
    let c = create-Created now fresh x db e₁ in
    let signed = create-IsSignedIn now fresh x db e₁ in
    let g = insert_capability-Granted v.id k first e₂ in
    let (same, shown) = find_user-holds v.id db' e₃ in
    let is_rider = has_kept k rider v.id first db' g c.granted.1 in
    (
      shown k ∙ g.1,
      shown rider ∙ is_rider,
      λ user known. same ∙ signed.same_user user known,
      λ now' fresh'.
          rw
            (
              identified-again now' fresh' x v.id db'
                  (Granted-Known x v.id k v.id first db' g signed.known),
              insert_capability-granted v.id rider db' g.0 is_rider,
              e₃,
            )
            refl,
    )

-- Where EnableCapability succeeds, the answered user has the capability and that of a Rider, and is
-- the identity's user of before, if it had one. From then on, GetOrCreate answers this user for the
-- identity, and changes nothing.
pub enable_capability-create :
    (now fresh : ℕ) (x : ExternalIdentity) (k : Capability) (db : Db) {u : User} {db' : Db}
    → enable_capability now fresh x k db ≡ ok (u, db')
    → (holds k u ≡ true)
      × (holds rider u ≡ true)
      × ((user : ℕ) → Known x user db → u.id ≡ user)
      × ((now' fresh' : ℕ) → create_with_default_rider now' fresh' x db' ≡ ok (u, db'))
unfolding enable_capability add_capability
enable_capability-create now fresh x k db {u} {db'} h =
    let (a, e₁, h₁) = >>=-eq-ok (create_with_default_rider now fresh x db) _ h in
    let (d, e₂, h₂) = >>=-eq-ok (insert_capability a.0.id k a.1) _ h₁ in
    let (w, e₃, h₃) = >>=-eq-ok (find_user a.0.id d) _ h₂ in
    let e₃' : find_user a.0.id db' ≡ ok u = cc (e₃, h₃) in
    let e₂' : insert_capability a.0.id k a.1 ≡ ok db' = cc (e₂, h₃) in
    enabled now fresh x k db a.0 a.1 e₁ e₂' e₃'

-- ===== src/Driver/Presence/Frame.antt =====
-- What the calls of driver/presence.go and driver/selection.go leave alone when they fail.
use uber_clone.Common.{
  ℕ, ◌+◌, ◌≡◌, refl, ◌∙◌, subst, Bool, true, false, not, List, map, [], ◌∷◌, ◌==◌, Result,
  >>=-eq-ok, or_fail, or_fail-eq-ok, fail_if, ◌||◌, ok, err, arith, inl, inr, transact, Bool-cases,
  if◌then◌else◌,
}
use uber_clone.Common.Table.{
  find, exists, change, update_where, exists-update_where, exists-find, find-exists,
}
use uber_clone.Store.{Db, Clock, Profile, DriverStatus}
use uber_clone.Driver.Eligibility.{has_active_trip}
use uber_clone.Driver.Presence.{
  DriverError, profile_not_found, selection_locked, selection_invalid, is_selectable_vehicle,
  check_online, is_stale, set_offline, expire_one, expire_each, expire_presence, online_ids,
  change_presence, set_presence, then_read, find_by_user_id, set_online, read_state,
  operating_state, choose_vehicle, select_operation,
}

-- A profile without what a change of presence writes.
abbrev pub at_rest : Profile → Profile
at_rest p = record p { is_online = false; status = DriverStatus.active; updated_at = 0 }

-- The same profiles in the same order, but for presence, status and time of update.
abbrev pub SameProfiles : Db → Db → Type 0
SameProfiles db db' = map at_rest db'.profiles ≡ map at_rest db.profiles

-- No table but that of profiles changed, and of a profile no more than its presence.
abbrev pub OnlyProfiles : Db → Db → Type 0
OnlyProfiles db db' = (db' ≡ record db { profiles = db'.profiles }) × SameProfiles db db'

map-update_where :
    (p : Profile → Bool) (f : Profile → Profile) (l : List Profile)
    → ((x : Profile) → at_rest (f x) ≡ at_rest x)
    → map at_rest (update_where p f l) ≡ map at_rest l
map-update_where p f [] same = refl
map-update_where p f (x ∷ l) same = elim (Bool-cases (p x)) [
  | inl e ↦ rw (e, same x, map-update_where p f l same) refl
  | inr e ↦ rw (e, map-update_where p f l same) refl
]

OnlyProfiles-trans : (a b c : Db) → OnlyProfiles a b → OnlyProfiles b c → OnlyProfiles a c
OnlyProfiles-trans a b c f g = (joined (f.0) (g.0), g.1 ∙ f.1)
  where
    joined :
        b ≡ record a { profiles = b.profiles }
        → c ≡ record b { profiles = c.profiles }
        → c ≡ record a { profiles = c.profiles }
    joined f g = ground arith

expire_each-OnlyProfiles :
    (c : Clock) (k : ℕ) (ids : List ℕ) (db : Db) → OnlyProfiles db (expire_each c k ids db)
unfolding expire_each expire_one
expire_each-OnlyProfiles c k [] db = (refl, refl)
expire_each-OnlyProfiles c k (i ∷ ids) db =
    let one = expire_one (c.at k) i db in
    OnlyProfiles-trans db one (expire_each c (k + 1) ids one)
      (
        refl,
        map-update_where (is_stale (c.at k) i db.locations) (set_offline (c.at k)) db.profiles
            (λ x. refl),
      )
      (expire_each-OnlyProfiles c (k + 1) ids one)

pub expire_presence-OnlyProfiles :
    (c : Clock) (user : ℕ) (db : Db) → OnlyProfiles db (expire_presence c user db)
unfolding expire_presence
expire_presence-OnlyProfiles c user db =
    expire_each-OnlyProfiles c 1 (online_ids user db.profiles) db

abbrev has_profile : ℕ → Db → Bool
has_profile user db = exists (λ p. p.user_id == user) db.profiles

same_user :
    (now i user : ℕ) (db : Db) (p : Profile)
    → ((change (is_stale now i db.locations) (set_offline now) p).user_id == user)
      ≡ (p.user_id == user)
same_user now i user db p = elim (Bool-cases (is_stale now i db.locations p)) [
  | inl e ↦ rw e refl
  | inr e ↦ rw e refl
]

expire_each-has_profile :
    (c : Clock) (k user : ℕ) (ids : List ℕ) (db : Db)
    → has_profile user (expire_each c k ids db) ≡ has_profile user db
unfolding expire_each expire_one
expire_each-has_profile c k user [] db = refl
expire_each-has_profile c k user (i ∷ ids) db =
    expire_each-has_profile c (k + 1) user ids (expire_one (c.at k) i db)
    ∙ exists-update_where (λ p. p.user_id == user) (is_stale (c.at k) i db.locations)
        (set_offline (c.at k)) db.profiles (same_user (c.at k) i user db)

expire_presence-has_profile :
    (c : Clock) (user : ℕ) (db : Db)
    → has_profile user (expire_presence c user db) ≡ has_profile user db
unfolding expire_presence
expire_presence-has_profile c user db =
    expire_each-has_profile c 1 user (online_ids user db.profiles) db

-- What a failed call leaves.
abbrev pub KeepsProfiles {ℓ} : {A : Type ℓ} → Db → Result DriverError A × Db → Type 0
KeepsProfiles db (ok a, db') = Unit {0}
KeepsProfiles db (err e, db') = OnlyProfiles db db'

pub keeps {ℓ} :
    {A : Type ℓ} (m : Result DriverError A) (db db' : Db)
    → OnlyProfiles db db'
    → KeepsProfiles db (m, db')
keeps (ok a) db db' h = tt
keeps (err e) db db' h = h

pub find_by_user_id-KeepsProfiles :
    (c : Clock) (user : ℕ) (db : Db) → KeepsProfiles db (find_by_user_id c user db)
unfolding find_by_user_id
find_by_user_id-KeepsProfiles c user db =
    keeps _ db (expire_presence c user db) (expire_presence-OnlyProfiles c user db)

pub operating_state-KeepsProfiles :
    (c : Clock) (user : ℕ) (db : Db) → KeepsProfiles db (operating_state c user db)
unfolding operating_state
operating_state-KeepsProfiles c user db =
    keeps _ db (expire_presence c user db) (expire_presence-OnlyProfiles c user db)

change_presence-OnlyProfiles :
    (c : Clock) (user : ℕ) (online : Bool) (db : Db) {db' : Db}
    → change_presence c user online db ≡ ok (tt, db')
    → OnlyProfiles db db'
unfolding change_presence
change_presence-OnlyProfiles c user online db {db'} h =
    let (p, e₁, h₁) =
      >>=-eq-ok (or_fail (find (λ p. p.user_id == user) db.profiles) profile_not_found) _ h in
    let (done, e₂, h₂) = >>=-eq-ok (if online then check_online c user db else ok tt) _ h₁ in
    let after : db' ≡ record db {
      profiles = update_where (λ p. p.user_id == user) (set_presence c online) db.profiles;
    } =
      ground arith in
    (
      rw after refl,
      rw after (
          map-update_where (λ p. p.user_id == user) (set_presence c online) db.profiles
            (λ x. refl)),
    )

then_read-KeepsProfiles {ℓ} :
    {B : Type ℓ} (x : Result DriverError (Unit {0} × Db)) (db : Db)
    (read : Db → Result DriverError B × Db)
    → ((db' : Db) → x ≡ ok (tt, db') → KeepsProfiles db (read db'))
    → KeepsProfiles db (then_read {A = Unit {0}} (transact (λ db. x) db) read)
then_read-KeepsProfiles (ok (done, db')) db read h = h db' refl
then_read-KeepsProfiles (err e) db read h = (refl, refl)

KeepsProfiles-trans {ℓ} :
    {A : Type ℓ} (a b : Db) (x : Result DriverError A × Db)
    → OnlyProfiles a b
    → KeepsProfiles b x
    → KeepsProfiles a x
KeepsProfiles-trans a b (ok v, c) f g = tt
KeepsProfiles-trans a b (err e, c) f g = OnlyProfiles-trans a b c f g

pub set_online-KeepsProfiles :
    (c c' : Clock) (user : ℕ) (online : Bool) (db : Db)
    → KeepsProfiles db (set_online c c' user online db)
unfolding set_online
set_online-KeepsProfiles c c' user online db =
    then_read-KeepsProfiles (change_presence c user online db) db (find_by_user_id c' user)
      (λ db' h.
        KeepsProfiles-trans db db' (find_by_user_id c' user db')
          (change_presence-OnlyProfiles c user online db h)
          (find_by_user_id-KeepsProfiles c' user db'))

-- The state of a Driver with a profile can be read.
operating_state-ok :
    (c : Clock) (user : ℕ) (a db : Db)
    → has_profile user db ≡ true
    → KeepsProfiles a (operating_state c user db)
unfolding operating_state read_state
operating_state-ok c user a db h =
    let (p, f) =
      exists-find (λ p. p.user_id == user) (expire_presence c user db).profiles
        (expire_presence-has_profile c user db ∙ h) in
    rw f tt

choose_vehicle-has_profile :
    (user vehicle : ℕ) (db : Db) {db' : Db}
    → choose_vehicle user vehicle db ≡ ok (tt, db')
    → has_profile user db' ≡ true
unfolding choose_vehicle
choose_vehicle-has_profile user vehicle db {db'} h =
    let (p, e, h₁) =
      >>=-eq-ok (or_fail (find (λ p. p.user_id == user) db.profiles) profile_not_found) _ h in
    let (d₁, e₁, h₂) =
      >>=-eq-ok (fail_if (p.is_online || has_active_trip user db.trips) selection_locked) _ h₁ in
    let (d₂, e₂, h₃) =
      >>=-eq-ok (fail_if (not (is_selectable_vehicle user vehicle db)) selection_invalid) _ h₂ in
    let same : db.profiles ≡ db'.profiles = ground arith in
    subst (λ ps. exists (λ p. p.user_id == user) ps ≡ true) same
      (find-exists (λ p. p.user_id == user) db.profiles (or_fail-eq-ok _ _ e))

pub select_operation-KeepsProfiles :
    (c c' : Clock) (user vehicle : ℕ) (db : Db)
    → KeepsProfiles db (select_operation c c' user vehicle db)
unfolding select_operation
select_operation-KeepsProfiles c c' user vehicle db = elim (Bool-cases (vehicle == 0)) [
  | inl e ↦ rw e (refl, refl)
  | inr e ↦ rw e (
      KeepsProfiles-trans db (expire_presence c user db) _ (expire_presence-OnlyProfiles c user db)
        (then_read-KeepsProfiles (choose_vehicle user vehicle (expire_presence c user db))
          (expire_presence c user db) (operating_state c' user)
          (λ db' h.
            operating_state-ok c' user (expire_presence c user db) db'
              (choose_vehicle-has_profile user vehicle (expire_presence c user db) h))))
]

-- ===== src/Driver/Presence.antt =====
-- presence.go: Drivers whose last location is too old go offline. postgres_repository.go: FindByUserID
-- and SetOnline. selection.go: OperatingState and SelectOperation, the vehicle that a Driver operates.
pub mod Effects
pub mod Frame
pub mod Selected
use uber_clone.Common.{
  ℕ, ◌+◌, Bool, true, false, ◌&&◌, ◌||◌, not, Option, none, some, List, [], ◌∷◌, ◌++◌, ◌==◌, ltb,
  Result, ok, err, ◌>>=◌, ◌>>◌, or_fail, fail_if, if◌then◌else◌, transact,
}
use uber_clone.Common.Table.{find, exists, update_where}
use uber_clone.Common.Text.{text_eq}
use uber_clone.Store.{Db, Profile, DriverStatus, Vehicle, Selection, DriverLocation, Clock}
use uber_clone.Driver.Eligibility.{is_fresh, has_active_trip, has_capability, is_offered_service}

pub data DriverError : Type 0 where
  profile_not_found selection_invalid selection_locked location_required trip_active : DriverError

-- The Driver sent a location that is fresh at `now`.
abbrev pub has_fresh : ℕ → ℕ → List DriverLocation → Bool
has_fresh now user = exists (λ l. (l.driver_user_id == user) && is_fresh now l.updated_at)

-- uuid.Nil, here 0, stands for every Driver.
abbrev pub in_scope : ℕ → Profile → Bool
in_scope user p = (user == 0) || (p.user_id == user)

unfoldable pub online_ids : ℕ → List Profile → List ℕ
online_ids user [] = []
online_ids user (p ∷ ps) =
    let rest = online_ids user ps in
    if p.is_online && in_scope user p then p.user_id ∷ rest else rest

abbrev pub is_stale : ℕ → ℕ → List DriverLocation → Profile → Bool
is_stale now id locations p =
    (p.user_id == id) && p.is_online && not (has_fresh now p.user_id locations)

abbrev pub set_offline : ℕ → Profile → Profile
set_offline now p = record p { is_online = false; updated_at = now }

unfoldable pub expire_one : ℕ → ℕ → Db → Db
expire_one now id db = record db {
  profiles = update_where (is_stale now id db.locations) (set_offline now) db.profiles;
}

-- The loop over the locked rows; its first statement is number `k`.
unfoldable pub expire_each : Clock → ℕ → List ℕ → Db → Db
expire_each c k [] db = db
expire_each c k (id ∷ ids) db = expire_each c (k + 1) ids (expire_one (c.at k) id db)

unfoldable pub expire_presence : Clock → ℕ → Db → Db
expire_presence c user db = expire_each c 1 (online_ids user db.profiles) db

-- ORDER BY v.created_at, v.id LIMIT 1
abbrev pub is_before : Vehicle → Vehicle → Bool
is_before v w = ltb v.created_at w.created_at || (v.created_at == w.created_at) && ltb v.id w.id

abbrev pub earlier : Vehicle → Option Vehicle → Vehicle
earlier v none = v
earlier v (some w) = if is_before w v then w else v

unfoldable pub first_vehicle : ℕ → List Vehicle → Option Vehicle
first_vehicle user [] = none
first_vehicle user (v ∷ vs) =
    let rest = first_vehicle user vs in
    if v.driver_user_id == user then some (earlier v rest) else rest

unfoldable pub read_profile : ℕ → Db → Result DriverError (Profile × Vehicle)
read_profile user db = do
  p ← or_fail (find (λ p. p.user_id == user) db.profiles) profile_not_found
  v ← or_fail (first_vehicle user db.vehicles) profile_not_found
  ok (p, v)

-- The expiry is committed before the profile is read.
unfoldable pub find_by_user_id : Clock → ℕ → Db → Result DriverError (Profile × Vehicle) × Db
find_by_user_id c user db = let db₁ = expire_presence c user db in (read_profile user db₁, db₁)

-- The vehicle is enrolled in an active service.
abbrev pub is_enrolled_somewhere : ℕ → Db → Bool
is_enrolled_somewhere vehicle db =
    exists (λ e. (e.vehicle_id == vehicle) && is_offered_service e.service_code db) db.enrollments

-- The Driver's selected vehicle is the Driver's own and is enrolled in an active service.
abbrev pub has_selection : ℕ → Db → Bool
has_selection user db =
    exists
      (λ s.
        (s.driver_user_id == user)
        && exists
            (λ v.
              (v.id == s.vehicle_id) && (v.driver_user_id == user) && is_enrolled_somewhere v.id db)
            db.vehicles)
      db.selections

-- The guards for going online. Both statuses of a profile are admitted.
unfoldable pub check_online : Clock → ℕ → Db → Result DriverError (Unit {0})
check_online c user db = do
  fail_if (not (has_selection user db && has_capability user db)) selection_invalid
  l ← or_fail (find (λ l. l.driver_user_id == user) db.locations) location_required
  fail_if (not (is_fresh (c.at 3) l.updated_at)) location_required
  fail_if (has_active_trip user db.trips) trip_active

-- CASE WHEN $2 THEN 'active' ELSE status END
abbrev pub set_presence : Clock → Bool → Profile → Profile
set_presence c online p = record p {
  is_online = online;
  status = if online then DriverStatus.active else p.status;
  updated_at = c.started;
}

unfoldable pub change_presence : Clock → ℕ → Bool → Db → Result DriverError (Unit {0} × Db)
change_presence c user online db = do
  p ← or_fail (find (λ p. p.user_id == user) db.profiles) profile_not_found
  if online then check_online c user db else ok tt
  ok (
    tt,
    record db {
      profiles = update_where (λ p. p.user_id == user) (set_presence c online) db.profiles;
    },
  )

-- A call that failed ends; one that succeeded is followed by the read, at its own times.
abbrev pub then_read {ℓ κ} :
    {A : Type ℓ} {B : Type κ}
    → Result DriverError A × Db
    → (Db → Result DriverError B × Db)
    → Result DriverError B × Db
then_read (ok a, db) read = read db
then_read (err e, db) read = (err e, db)

unfoldable pub set_online :
    Clock → Clock → ℕ → Bool → Db → Result DriverError (Profile × Vehicle) × Db
set_online c c' user online db =
    then_read (transact (change_presence c user online) db) (find_by_user_id c' user)

pub record OperatingState : Type 0 where
  pub selection : Option (ℕ × Bool)  -- vehicle_id and valid
  pub can_change : Bool

abbrev pub selection_state : ℕ → Db → Option (ℕ × Bool)
selection_state user db = elim (find (λ s. s.driver_user_id == user) db.selections) [
  | none ↦ none
  | some s ↦ some (
    s.vehicle_id,
    exists
        (λ v. (v.id == s.vehicle_id) && (v.driver_user_id == user) && is_enrolled_somewhere v.id db)
        db.vehicles,
  )
]

unfoldable pub read_state : ℕ → Db → Result DriverError OperatingState
read_state user db = do
  p ← or_fail (find (λ p. p.user_id == user) db.profiles) profile_not_found
  ok (record {
    selection = selection_state user db;
    can_change = not p.is_online && not (has_active_trip user db.trips);
  })

unfoldable pub operating_state : Clock → ℕ → Db → Result DriverError OperatingState × Db
operating_state c user db = let db₁ = expire_presence c user db in (read_state user db₁, db₁)

-- The Driver's own vehicle, enrolled in an active service, of a user who is a Driver.
abbrev pub is_selectable_vehicle : ℕ → ℕ → Db → Bool
is_selectable_vehicle user vehicle db =
    exists
      (λ v.
        (v.id == vehicle)
        && (v.driver_user_id == user)
        && is_enrolled_somewhere v.id db
        && has_capability v.driver_user_id db)
      db.vehicles

-- INSERT … ON CONFLICT (driver_user_id) DO UPDATE
unfoldable pub upsert_selection : ℕ → ℕ → List Selection → List Selection
upsert_selection user vehicle selections =
    if exists (λ s. s.driver_user_id == user) selections
    then update_where (λ s. s.driver_user_id == user) (λ s. record s { vehicle_id = vehicle })
        selections
    else selections ++ record { driver_user_id = user; vehicle_id = vehicle } ∷ []

unfoldable pub choose_vehicle : ℕ → ℕ → Db → Result DriverError (Unit {0} × Db)
choose_vehicle user vehicle db = do
  p ← or_fail (find (λ p. p.user_id == user) db.profiles) profile_not_found
  fail_if (p.is_online || has_active_trip user db.trips) selection_locked
  fail_if (not (is_selectable_vehicle user vehicle db)) selection_invalid
  ok (tt, record db { selections = upsert_selection user vehicle db.selections })

-- Service.SelectOperation and the repository's: three transactions, the first and last of which bring
-- the presence up to date.
unfoldable pub select_operation :
    Clock → Clock → ℕ → ℕ → Db → Result DriverError OperatingState × Db
select_operation c c' user vehicle db =
    if vehicle == 0
    then (err selection_invalid, db)
    else then_read (transact (choose_vehicle user vehicle) (expire_presence c user db))
        (operating_state c' user)

-- ===== src/Cancellation/Calls.antt =====
-- The Rider's and the Driver's cancellation as whole calls.
use uber_clone.Common.{
  ℕ, subst, ◌≡◌, refl, true, Option, none, some, arith, Result, ok, ◌>>=◌, >>=-eq-ok, Option-cases,
  inl, inr, ◌⊎◌, or_fail, fail_if,
}
use mathlib.Core.Option.{map}
use mathlib.Core.Path.{subst₂}
use uber_clone.Marketplace.Expiry.Frame.{expire-trips, expire-rides-IsKeyed}
use uber_clone.Common.Table.{find, find_sound}
use uber_clone.Common.Keys.{IsKeyed, find-weaken}
use uber_clone.Store.{Db, Ride, RideStatus, CancellationActor, Trip, Clock, trip_key, ride_key}
use uber_clone.Marketplace.Expiry.{expire, is_ride}
use uber_clone.Cancellation.{
  CancellationError, not_found, trip_completed, Cancellation, LockedRide, LockedTrip, is_completed,
  is_ride_for, is_trip_for, is_trip_on, scan_trip, cancel_locked, cancel_by_status, existing_result,
  lock_ride, lock_trip, cancel_by_rider, cancel_by_driver,
}
use uber_clone.Cancellation.Effects.{
  IsCancelled, is_requested_or_accepted, cancel_locked-IsCancelled,
}

-- A Rider's or a Driver's call, and whose it is.
abbrev pub cancel_by :
    CancellationActor → Clock → ℕ → ℕ → Db → Result CancellationError (Cancellation × Db)
cancel_by CancellationActor.rider = cancel_by_rider
cancel_by CancellationActor.driver = cancel_by_driver

abbrev pub locked : Ride → LockedRide
locked r = record {
  status = r.status;
  cancelled_by = r.cancelled_by;
  cancelled_at = r.cancelled_at;
}

-- A call that finds the ride cancelled answers what is stored.
pub record IsRepeated (ride : ℕ) (db : Db) (r : Ride) (res : Cancellation) (db' : Db) : Type 0 where
  pub was_cancelled : r.status ≡ RideStatus.cancelled
  pub same : db' ≡ db
  pub answer :
      (res.ride_request_id ≡ ride)
      × (res.status ≡ RideStatus.cancelled)
      × (some res.cancelled_by ≡ r.cancelled_by)
      × (some res.cancelled_at ≡ r.cancelled_at)
  pub trip : res.trip ≡ map scan_trip (find (is_trip_on ride) db.trips)
  pub stored : existing_result ride (locked r) res.trip ≡ ok res

module _ (c : Clock) (ride : ℕ) (actor : CancellationActor) (r : Ride) (db : Db) where
  repeated :
      (found : Option Trip) {res : Cancellation} {db' : Db}
      → r.status ≡ RideStatus.cancelled
      → find (is_trip_on ride) db.trips ≡ found
      → cancel_by_status RideStatus.cancelled c ride actor (locked r) (map scan_trip found) db
        ≡ ok (res, db')
      → IsRepeated ride db r res db'
  unfolding cancel_by_status
  repeated none s f h = record {
    was_cancelled = s;
    same = ground arith;
    answer = ground arith;
    trip = rw f (ground arith);
    stored = ground arith;
  }
  repeated (some t) s f h = record {
    was_cancelled = s;
    same = ground arith;
    answer = ground arith;
    trip = rw f (ground arith);
    stored = ground arith;
  }

  carried_out :
      (s : RideStatus) (found : Option Trip) {res : Cancellation} {db' : Db}
      → r.status ≡ s
      → is_requested_or_accepted s ≡ true
      → find (is_trip_on ride) db.trips ≡ found
      → cancel_by_status s c ride actor (locked r) (map scan_trip found) db ≡ ok (res, db')
      → IsCancelled c ride actor db r res db'
  unfolding cancel_by_status
  carried_out RideStatus.requested found e q f h =
      let (_, _, h') =
        >>=-eq-ok (fail_if (is_completed (map scan_trip found)) trip_completed)
          (λ _. cancel_locked c ride actor (map scan_trip found) db) h in
      cancel_locked-IsCancelled c ride actor db r found (rw e) f h'
  carried_out RideStatus.accepted found e q f h =
      let (_, _, h') =
        >>=-eq-ok (fail_if (is_completed (map scan_trip found)) trip_completed)
          (λ _. cancel_locked c ride actor (map scan_trip found) db) h in
      cancel_locked-IsCancelled c ride actor db r found (rw e) f h'
  carried_out RideStatus.cancelled found e q f h = cc
  carried_out RideStatus.expired found e q f h = cc

  cancel_by_status-cases :
      (s : RideStatus) (found : Option Trip) {res : Cancellation} {db' : Db}
      → r.status ≡ s
      → find (is_trip_on ride) db.trips ≡ found
      → cancel_by_status s c ride actor (locked r) (map scan_trip found) db ≡ ok (res, db')
      → IsRepeated ride db r res db' ⊎ IsCancelled c ride actor db r res db'
  unfolding cancel_by_status
  cancel_by_status-cases RideStatus.cancelled found e f h = inl (repeated found e f h)
  cancel_by_status-cases RideStatus.expired found e f h = cc
  cancel_by_status-cases RideStatus.requested found e f h =
      inr (carried_out RideStatus.requested found e refl f h)
  cancel_by_status-cases RideStatus.accepted found e f h =
      inr (carried_out RideStatus.accepted found e refl f h)

-- Whose ride a call may cancel.
abbrev pub MayCancel : CancellationActor → ℕ → ℕ → Db → Ride → Type 0
MayCancel CancellationActor.rider ride user db r = r.rider_user_id ≡ user
MayCancel CancellationActor.driver ride user db r =
    (t : Trip) × (find (is_trip_on ride) db.trips ≡ some t) × (t.driver_user_id ≡ user)

lock_ride-ok :
    (ride : ℕ) (rider : Option ℕ) (db : Db) {state : LockedRide}
    → lock_ride ride rider db ≡ ok state
    → (r : Ride) × (find (is_ride_for ride rider) db.rides ≡ some r) × (state ≡ locked r)
unfolding lock_ride
lock_ride-ok ride rider db h = elim (Option-cases (find (is_ride_for ride rider) db.rides)) [
  | inl e ↦ absurd (ground arith)
  | inr (r, e) ↦ (r, e, ground arith)
]

lock_trip-ok :
    (ride driver : ℕ) (db : Db) {u : LockedTrip}
    → or_fail (lock_trip ride (some driver) db) not_found ≡ ok u
    → (t : Trip) × (find (is_trip_for ride (some driver)) db.trips ≡ some t) × (u ≡ scan_trip t)
unfolding lock_trip
lock_trip-ok ride driver db h =
    elim (Option-cases (find (is_trip_for ride (some driver)) db.trips)) [
      | inl e ↦ absurd (ground arith)
      | inr (t, e) ↦ (t, e, ground arith)
    ]

the_ride :
    (ride : ℕ) (rider : Option ℕ) (db : Db) {r : Ride}
    → IsKeyed ride_key db.rides
    → find (is_ride_for ride rider) db.rides ≡ some r
    → find (is_ride ride) db.rides ≡ some r
the_ride ride none db keyed f = f
the_ride ride (some user) db keyed f =
    find-weaken ride_key (is_ride_for ride (some user)) (is_ride ride) ride db.rides
      (λ x e. ground arith) (λ x e. ground arith) keyed f

the_trip :
    (ride driver : ℕ) (db : Db) {t : Trip}
    → IsKeyed trip_key db.trips
    → find (is_trip_for ride (some driver)) db.trips ≡ some t
    → find (is_trip_on ride) db.trips ≡ some t
the_trip ride driver db keyed f =
    find-weaken trip_key (is_trip_for ride (some driver)) (is_trip_on ride) ride db.trips
      (λ x e. ground arith) (λ x e. ground arith) keyed f

by_rider :
    (ride user : ℕ) (r : Ride) → is_ride_for ride (some user) r ≡ true → r.rider_user_id ≡ user
by_rider ride user r h = ground arith

by_driver :
    (ride user : ℕ) (t : Trip) → is_trip_for ride (some user) t ≡ true → t.driver_user_id ≡ user
by_driver ride user t h = ground arith

-- In a store whose rides and Trips have distinct primary keys, every successful cancellation is by the ride's Rider or by the Driver of its Trip. It finds the
-- ride cancelled, answers what is stored about that and changes nothing; or it finds the ride
-- requested or accepted and cancels it, calls off its Trip, if there is one, which must be running,
-- and leaves no offer of the ride pending and no opportunity open or offered. All this in the
-- database that `Expire` brought up to date.
pub cancel_by-cases :
    (actor : CancellationActor) (c : Clock) (ride user : ℕ) (db : Db) {res : Cancellation}
    {db' : Db}
    → IsKeyed ride_key db.rides
    → IsKeyed trip_key db.trips
    → cancel_by actor c ride user db ≡ ok (res, db')
    → let db₀ = expire c 0 db in
      (r : Ride) × (find (is_ride ride) db₀.rides ≡ some r)
      × MayCancel actor ride user db₀ r
      × (IsRepeated ride db₀ r res db' ⊎ IsCancelled c ride actor db₀ r res db')
unfolding cancel_by_rider cancel_by_driver
cancel_by-cases CancellationActor.rider c ride user db {res} {db'} kr kt h =
    let db₀ = expire c 0 db in
    let (state, e, h') =
      >>=-eq-ok (lock_ride ride (some user) db₀)
        (λ s.
          cancel_by_status s.status c ride CancellationActor.rider s (lock_trip ride none db₀) db₀)
        h in
    let (r, f, s) = lock_ride-ok ride (some user) db₀ e in
    let h'' =
      subst
        (λ s.
          cancel_by_status s.status c ride CancellationActor.rider s (lock_trip ride none db₀) db₀
          ≡ ok (res, db'))
        s h' in
    (
      r,
      the_ride ride (some user) db₀ (expire-rides-IsKeyed c 0 db kr) f,
      by_rider ride user r (find_sound (is_ride_for ride (some user)) db₀.rides f),
      cancel_by_status-cases c ride CancellationActor.rider r db₀ r.status
          (find (is_trip_on ride) db₀.trips) refl refl h'',
    )
cancel_by-cases CancellationActor.driver c ride user db {res} {db'} kr kt h =
    let db₀ = expire c 0 db in
    let (state, e, h') =
      >>=-eq-ok (lock_ride ride none db₀)
        (λ s. or_fail (lock_trip ride (some user) db₀) not_found >>= λ t.
          cancel_by_status s.status c ride CancellationActor.driver s (some t) db₀)
        h in
    let (r, f, s) = lock_ride-ok ride none db₀ e in
    let (u, e', h'') =
      >>=-eq-ok (or_fail (lock_trip ride (some user) db₀) not_found)
        (λ t. cancel_by_status state.status c ride CancellationActor.driver state (some t) db₀)
        h' in
    let (t, ft, s') = lock_trip-ok ride user db₀ e' in
    let ft' = the_trip ride user db₀ (rw (expire-trips c 0 db) kt) ft in
    let h₃ =
      subst₂
        (λ s t.
          cancel_by_status s.status c ride CancellationActor.driver s (some t) db₀ ≡ ok (res, db'))
        s s' h'' in
    (
      r,
      f,
      (t, ft', by_driver ride user t (find_sound (is_trip_for ride (some user)) db₀.trips ft)),
      cancel_by_status-cases c ride CancellationActor.driver r db₀ r.status (some t) refl ft' h₃,
    )

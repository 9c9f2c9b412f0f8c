-- ===== src/Cancellation/Repeat.antt =====
-- A cancellation that is repeated.
use uber_clone.Common.{
  ℕ, ap, subst, some-injective, ◌≡◌, refl, sym, false, Option, some, arith, ok, ◌>>=◌, inl, inr,
  ◌∙◌,
}
use mathlib.Core.Option.{map}
use uber_clone.Marketplace.Expiry.Frame.{expire-trips, expire-find_ride}
use uber_clone.Common.Table.{find, find-update_self, find_sound, find-strengthen}
use uber_clone.Common.Keys.{IsKeyed}
use uber_clone.Store.{Db, Ride, RideStatus, CancellationActor, Trip, Clock, trip_key, ride_key}
use uber_clone.Marketplace.Expiry.{expire, is_ride, is_requested}
use uber_clone.Cancellation.{
  Cancellation, LockedRide, LockedTrip, is_ride_for, is_trip_for, is_trip_on, scan_trip,
  set_ride_cancelled, set_trip_cancelled, cancel_by_status, existing_result, cancel_by_rider,
  cancel_by_driver,
}
use uber_clone.Cancellation.Effects.{CancelsTrip, IsCancelled}
use uber_clone.Cancellation.Calls.{cancel_by, locked, MayCancel, cancel_by-cases}

replay_status :
    (s : RideStatus) (c : Clock) (ride : ℕ) (actor : CancellationActor) (state : LockedRide)
    (trip : Option LockedTrip) (db : Db) {res : Cancellation}
    → s ≡ RideStatus.cancelled
    → existing_result ride state trip ≡ ok res
    → cancel_by_status s c ride actor state trip db ≡ ok (res, db)
unfolding cancel_by_status
replay_status RideStatus.cancelled c ride actor state trip db s e =
    ap (λ m. m >>= λ result. ok (result, db)) e
replay_status RideStatus.requested c ride actor state trip db s e = cc
replay_status RideStatus.accepted c ride actor state trip db s e = cc
replay_status RideStatus.expired c ride actor state trip db s e = cc

not_requested : (s : RideStatus) → s ≡ RideStatus.cancelled → is_requested s ≡ false
not_requested s e = rw e

found_for :
    (ride user : ℕ) (db : Db) {r : Ride}
    → find (is_ride ride) db.rides ≡ some r
    → r.rider_user_id ≡ user
    → find (is_ride_for ride (some user)) db.rides ≡ some r
found_for ride user db {r} f m =
    find-strengthen (is_ride ride) (is_ride_for ride (some user)) db.rides (λ x e. ground arith) f
      (ground (arith, find_sound (is_ride ride) db.rides f))

found_trip_for :
    (ride user : ℕ) (db : Db) {t : Trip}
    → find (is_trip_on ride) db.trips ≡ some t
    → t.driver_user_id ≡ user
    → find (is_trip_for ride (some user)) db.trips ≡ some t
found_trip_for ride user db {t} f m =
    find-strengthen (is_trip_on ride) (is_trip_for ride (some user)) db.trips (λ x e. ground arith)
      f (ground (arith, find_sound (is_trip_on ride) db.trips f))

-- A call on a ride that is cancelled already, with what it needs stored, changes nothing but what
-- `Expire` does, and answers what is stored.
replay :
    (actor : CancellationActor) (c : Clock) (ride user : ℕ) (db : Db) (r : Ride)
    (res : Cancellation)
    → find (is_ride ride) db.rides ≡ some r
    → r.status ≡ RideStatus.cancelled
    → MayCancel actor ride user db r
    → existing_result ride (locked r) (map scan_trip (find (is_trip_on ride) db.trips)) ≡ ok res
    → cancel_by actor c ride user db ≡ ok (res, expire c 0 db)
unfolding cancel_by_rider cancel_by_driver
replay CancellationActor.rider c ride user db r res f s m e =
    let f' = expire-find_ride c 0 db ride f (not_requested r.status s) in
    rw (found_for ride user (expire c 0 db) f' m) (
      replay_status r.status c ride CancellationActor.rider (locked r)
        (map scan_trip (find (is_trip_on ride) (expire c 0 db).trips)) (expire c 0 db) s
        (rw (expire-trips c 0 db) e))
replay CancellationActor.driver c ride user db r res f s (t, ft, d) e =
    let f' = expire-find_ride c 0 db ride f (not_requested r.status s) in
    let ft' = found_trip_for ride user (expire c 0 db) {t = t} (rw (expire-trips c 0 db) ft) d in
    rw (f', ft')
      (replay_status r.status c ride CancellationActor.driver (locked r) (some (scan_trip t))
        (expire c 0 db) s (rw ft at e))

module _ (actor : CancellationActor) (c : Clock) (ride : ℕ) (db : Db) (r : Ride)
    (res : Cancellation) (db' : Db) (k : IsCancelled c ride actor db r res db') where
  leaves_ride :
      find (is_ride ride) db.rides ≡ some r
      → find (is_ride ride) db'.rides ≡ some (set_ride_cancelled actor (c.at 8) r)
  leaves_ride f =
      rw k.ride_cancelled
        (find-update_self (is_ride ride) (set_ride_cancelled actor (c.at 8)) db.rides (λ x. refl) f)

  -- The Trip that is stored is the one that was answered.
  leaves_trip : map scan_trip (find (is_trip_on ride) db'.trips) ≡ res.trip
  unfolding CancelsTrip
  leaves_trip = elim k.trip [
    | inl (f, answered, same) ↦ rw (same, f, answered)
    | inr (t, f, running, answered, trips) ↦ rw (
      trips,
      find-update_self (is_trip_on ride) (set_trip_cancelled (c.at 8)) db.trips (λ x. refl) f,
      answered,
    )
  ]

  leaves_answer :
      existing_result ride
        (locked (set_ride_cancelled actor (c.at 8) r))
        (map scan_trip (find (is_trip_on ride) db'.trips))
      ≡ ok res
  unfolding existing_result CancelsTrip
  leaves_answer = rw leaves_trip (elim k.trip [
    | inl (f, answered, same) ↦ ground (arith, k.answer)
    | inr (t, f, running, answered, trips) ↦ ground (arith, k.answer)
  ])

still-MayCancel :
    (actor : CancellationActor) (c : Clock) (ride user : ℕ) (db : Db) (r : Ride)
    (res : Cancellation) (db' : Db)
    → IsCancelled c ride actor db r res db'
    → MayCancel actor ride user db r
    → MayCancel actor ride user db' (set_ride_cancelled actor (c.at 8) r)
unfolding CancelsTrip
still-MayCancel CancellationActor.rider c ride user db r res db' k m = m
still-MayCancel CancellationActor.driver c ride user db r res db' k (t, f, d) = elim k.trip [
  | inl (f', answered, same) ↦ cc (f, f')
  | inr (t', f', running, answered, trips) ↦
      let same : t' ≡ t = some-injective t' t (sym f' ∙ f) in
      (
        set_trip_cancelled (c.at 8) t',
        rw trips (
            find-update_self (is_trip_on ride) (set_trip_cancelled (c.at 8)) db.trips (λ x. refl)
              f'),
        rw same d,
      )
]

-- In a store whose rides and Trips have distinct primary keys, a cancellation that succeeded can be repeated by the same user at any later time: it answers the
-- same result, and changes nothing but what `Expire` does at that time.
pub cancel_by_twice :
    (actor : CancellationActor) (c c' : Clock) (ride user : ℕ) (db : Db) {res : Cancellation}
    {db' : Db}
    → IsKeyed ride_key db.rides
    → IsKeyed trip_key db.trips
    → cancel_by actor c ride user db ≡ ok (res, db')
    → cancel_by actor c' ride user db' ≡ ok (res, expire c' 0 db')
cancel_by_twice actor c c' ride user db {res} {db'} kr kt h =
    let (r, f, m, cases) = cancel_by-cases actor c ride user db kr kt h in
    let db₀ = expire c 0 db in
    elim cases [
      | inl k ↦
          subst (λ d. cancel_by actor c' ride user d ≡ ok (res, expire c' 0 d)) (sym k.same)
            (replay actor c' ride user db₀ r res f k.was_cancelled m
              (subst (λ t. existing_result ride (locked r) t ≡ ok res) k.trip k.stored))
      | inr k ↦
          replay actor c' ride user db' (set_ride_cancelled actor (c.at 8) r) res
            (leaves_ride actor c ride db₀ r res db' k f) refl
            (still-MayCancel actor c ride user db₀ r res db' k m)
            (leaves_answer actor c ride db₀ r res db' k)
    ]

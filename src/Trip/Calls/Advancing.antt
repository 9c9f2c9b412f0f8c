-- ===== src/Trip/Calls/Advancing.antt =====
-- The three calls (trip/postgres_repository.go) refine the life of a Trip.
use uber_clone.Common.{ℕ, ◌≡◌, refl, sym, inl, inr, true, some, arith, All, All-map, ok, subst}
use uber_clone.Common.Keys.{IsKeyed, find-only}
use uber_clone.Store.{trip_key, Db, Clock, Trip}
use uber_clone.Trip.{is_trip_of}
use uber_clone.Trip.Lifecycle.{TripStep, Advances, Advances-refl, update_where-Advances}
use uber_clone.Trip.Validity.{IsValidTrip}
use uber_clone.Trip.Calls.{
  trip_for, write_trip, Call, run_call, write_of, verdict, moves, Went, run_call-Went,
  moves-TripStep,
}

pub on_key :
    (ride driver : ℕ) (x : Trip) → is_trip_of ride driver x ≡ true → x.ride_request_id ≡ ride
on_key ride driver x h = ground arith

write-Advances :
    (a : Call) (c : Clock) (ride driver : ℕ) (db : Db) {t : Trip}
    → IsKeyed trip_key db.trips
    → trip_for ride driver db ≡ some t
    → verdict a t.status t.settlement.status ≡ moves
    → Advances db.trips (write_trip (write_of a c) ride driver db).trips
write-Advances a c ride driver db {t} keyed e m =
    update_where-Advances (is_trip_of ride driver) (write_of a c) db.trips (
      All-map (λ x. is_trip_of ride driver x ≡ true → x ≡ t)
        (λ x. is_trip_of ride driver x ≡ true → TripStep x (write_of a c x)) db.trips
        (λ x only px.
          subst (λ y. TripStep y (write_of a c y)) (sym (only px)) (moves-TripStep a c t m))
        (find-only trip_key (is_trip_of ride driver) ride db.trips (on_key ride driver) keyed e))

Went-Advances :
    (a : Call) (c : Clock) (ride driver : ℕ) (db : Db) (t' : Trip) {db' : Db}
    → IsKeyed trip_key db.trips
    → Went a c ride driver db t' db'
    → Advances db.trips db'.trips × (db' ≡ record db { trips = db'.trips })
Went-Advances a c ride driver db t' keyed (t, e, inl (m, p, q)) =
    subst (λ d. Advances db.trips d.trips × (d ≡ record db { trips = d.trips })) (sym q)
      (write-Advances a c ride driver db keyed e m, refl)
Went-Advances a c ride driver db t' keyed (t, e, inr (r, p, q)) =
    subst (λ d. Advances db.trips d.trips × (d ≡ record db { trips = d.trips })) (sym q)
      (Advances-refl db.trips, refl)

-- In a table of Trips with distinct primary keys that all meet its constraints, a successful call
-- takes the table of Trips along their life, each row at most one step on, and
-- leaves every other table as it is.
pub run_call-Advances :
    (a : Call) (c : Clock) (ride driver : ℕ) (db : Db) {t' : Trip} {db' : Db}
    → IsKeyed trip_key db.trips
    → All IsValidTrip db.trips
    → run_call a c ride driver db ≡ ok (t', db')
    → Advances db.trips db'.trips × (db' ≡ record db { trips = db'.trips })
run_call-Advances a c ride driver db {t'} keyed valid h =
    Went-Advances a c ride driver db t' keyed (run_call-Went a c ride driver db valid h)

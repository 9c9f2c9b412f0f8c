-- ===== src/System/Steps.antt =====
-- The operations that write the table of Trips: assignment, the Driver's calls and cancellation.
use uber_clone.Common.{ℕ, ◌≡◌, refl, sym, subst, ◌⊎◌, inl, inr, true, Option, arith, All-map, ok}
use uber_clone.Common.Keys.{IsKeyed, find-only}
use uber_clone.Store.{Db, Trip, TripStatus, Clock, CancellationActor, ride_key, trip_key}
use uber_clone.Marketplace.Expiry.{expire}
use uber_clone.Marketplace.Assignment.{select_offer}
use uber_clone.Marketplace.Assignment.Rows.{HasKeys}
use uber_clone.Marketplace.Assignment.Effects.{select_offer-assigns}
use uber_clone.Cancellation.{Cancellation, LockedTrip, set_trip_cancelled, is_trip_on}
use uber_clone.Cancellation.Effects.{CancelsTrip, is_running}
use uber_clone.Cancellation.Calls.{cancel_by, cancel_by-cases}
use uber_clone.Trip.{is_trip_of}
use uber_clone.Trip.Lifecycle.{TripStep, call_off}
use uber_clone.Trip.Calls.{
  Call, start_call, complete_call, confirm_call, run_call, write_of, Went, run_call-Went,
  moves-TripStep,
}
use uber_clone.Trip.Calls.Advancing.{on_key}
use uber_clone.System.Changes.{
  IsConsistent, IsChange, untouched, updated, assigned, IsChange-IsConsistent,
}

-- A step takes one store to the next; the primary keys of the tables of rides and opportunities hold
-- in the store that an assignment or a cancellation starts from. Whatever else is done leaves the
-- table of Trips as it is.
pub data Step (db db' : Db) : Type 0 where
  assigns :
      (c : Clock) (ride rider driver version : ℕ) (t : Trip)
      → HasKeys db
      → select_offer c ride rider driver version db ≡ ok (t, db')
      → Step db db'
  calls :
      (a : Call) (c : Clock) (ride driver : ℕ) (t : Trip)
      → run_call a c ride driver db ≡ ok (t, db')
      → Step db db'
  cancels :
      (actor : CancellationActor) (c : Clock) (ride user : ℕ) (res : Cancellation)
      → IsKeyed ride_key db.rides
      → cancel_by actor c ride user db ≡ ok (res, db')
      → Step db db'
  elsewhere : db'.trips ≡ db.trips → Step db db'

pub data Reaches (db : Db) : Db → Type 0 where
  start : Reaches db db
  next : (db' db'' : Db) → Reaches db db' → Step db' db'' → Reaches db db''

select_offer-IsChange :
    (c : Clock) (ride rider driver version : ℕ) (db : Db) (t : Trip) (db' : Db)
    → HasKeys db
    → select_offer c ride rider driver version db ≡ ok (t, db')
    → IsChange db.trips db'.trips
unfolding expire
select_offer-IsChange c ride rider driver version db t db' keys h =
    let (r, o, p, s, a) = select_offer-assigns c ride rider driver version db keys h in
    assigned t (record {
      fresh = rw a.the_trip (ground arith);
      free_driver = rw a.the_trip a.driver_was_free;
      free_ride = rw a.the_trip s.no_trip;
      result = a.trips;
    })

write_key : (a : Call) (c : Clock) (x : Trip) → trip_key (write_of a c x) ≡ trip_key x
write_key start_call c x = refl
write_key complete_call c x = refl
write_key confirm_call c x = refl

Went-IsChange :
    (a : Call) (c : Clock) (ride driver : ℕ) (db : Db) (t : Trip) (db' : Db)
    → IsKeyed trip_key db.trips
    → Went a c ride driver db t db'
    → IsChange db.trips db'.trips
Went-IsChange a c ride driver db t db' keyed (t₀, e, inr (_, _, same)) = untouched (rw same refl)
Went-IsChange a c ride driver db t db' keyed (t₀, e, inl (m, _, after)) =
    updated (is_trip_of ride driver) (write_of a c) (record {
      same_key = write_key a c;
      steps =
          All-map (λ x. is_trip_of ride driver x ≡ true → x ≡ t₀)
            (λ x. is_trip_of ride driver x ≡ true → TripStep x (write_of a c x)) db.trips
            (λ x only px.
              subst (λ y. TripStep y (write_of a c y)) (sym (only px)) (moves-TripStep a c t₀ m))
            (find-only trip_key (is_trip_of ride driver) ride db.trips (on_key ride driver) keyed
              e);
      result = rw after refl;
    })

was_running :
    (s : TripStatus)
    → is_running s ≡ true
    → (s ≡ TripStatus.assigned) ⊎ (s ≡ TripStatus.in_progress)
was_running TripStatus.assigned h = inl refl
was_running TripStatus.in_progress h = inr refl
was_running TripStatus.completed h = cc
was_running TripStatus.cancelled h = cc

CancelsTrip-IsChange :
    (at ride : ℕ) (db : Db) (answered : Option LockedTrip) (db' : Db)
    → IsKeyed trip_key db.trips
    → CancelsTrip at ride db answered db'
    → IsChange db.trips db'.trips
unfolding CancelsTrip
CancelsTrip-IsChange at ride db answered db' keyed (inl (_, _, same)) = untouched same
CancelsTrip-IsChange at ride db answered db' keyed (inr (t, e, running, _, after)) =
    updated (is_trip_on ride) (set_trip_cancelled at) (record {
      same_key = λ x. refl;
      steps =
          All-map (λ x. is_trip_on ride x ≡ true → x ≡ t)
            (λ x. is_trip_on ride x ≡ true → TripStep x (set_trip_cancelled at x)) db.trips
            (λ x only px. call_off at (was_running x.status (rw (only px) running)) refl)
            (find-only trip_key (is_trip_on ride) ride db.trips (λ x m. ground arith) keyed e);
      result = after;
    })

cancel_by-IsChange :
    (actor : CancellationActor) (c : Clock) (ride user : ℕ) (db : Db) (res : Cancellation)
    (db' : Db)
    → IsKeyed ride_key db.rides
    → IsKeyed trip_key db.trips
    → cancel_by actor c ride user db ≡ ok (res, db')
    → IsChange db.trips db'.trips
unfolding expire
cancel_by-IsChange actor c ride user db res db' kr kt h =
    let (r, _, _, went) = cancel_by-cases actor c ride user db kr kt h in
    elim went [
      | inl again ↦ untouched (rw again.same refl)
      | inr done ↦ CancelsTrip-IsChange (c.at 8) ride (expire c 0 db) res.trip db' kt done.trip
    ]

Step-IsChange : (db db' : Db) → Step db db' → IsConsistent db.trips → IsChange db.trips db'.trips
Step-IsChange db db' (assigns c ride rider driver version t keys h) i =
    select_offer-IsChange c ride rider driver version db t db' keys h
Step-IsChange db db' (calls a c ride driver t h) i =
    Went-IsChange a c ride driver db t db' i.keyed (run_call-Went a c ride driver db i.valid h)
Step-IsChange db db' (cancels actor c ride user res kr h) i =
    cancel_by-IsChange actor c ride user db res db' kr i.keyed h
Step-IsChange db db' (elsewhere same) i = untouched same

-- In whatever order offers are selected, Trips are started, completed and settled, and rides are
-- cancelled, from a store where no ride has two Trips, every Trip meets the table's constraints and no
-- Driver has two active Trips: this holds of every store that is reached. (The primary keys of the
-- rides and the opportunities hold where a step needs them; other operations leave the Trips.)
pub Reaches-IsConsistent :
    (db db' : Db) → Reaches db db' → IsConsistent db.trips → IsConsistent db'.trips
Reaches-IsConsistent db _ start i = i
Reaches-IsConsistent db _ (next db' db'' before step) i =
    let i' = Reaches-IsConsistent db db' before i in
    IsChange-IsConsistent db'.trips db''.trips (Step-IsChange db' db'' step i') i'

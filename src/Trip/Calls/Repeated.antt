-- ===== src/Trip/Calls/Repeated.antt =====
-- The three calls (trip/postgres_repository.go) are idempotent.
use uber_clone.Common.{ℕ, ◌≡◌, refl, inl, inr, arith, All, ok, ◌∙◌}
use uber_clone.Common.Table.{find-update_self, All-find}
use uber_clone.Store.{Db, Clock, Trip}
use uber_clone.Trip.{is_trip_of}
use uber_clone.Trip.Validity.{IsValidTrip, TripStep-IsValidTrip}
use uber_clone.Trip.Calls.{
  write_trip, Call, start_call, complete_call, confirm_call, run_call, write_of, verdict, moves,
  repeats, Went, run_call-Went, run_call-answer, moves-TripStep,
}

moves_then_repeats :
    (a : Call) (c : Clock) (t : Trip)
    → verdict a t.status t.settlement.status ≡ moves
    → verdict a (write_of a c t).status (write_of a c t).settlement.status ≡ repeats
moves_then_repeats start_call c t h = refl
moves_then_repeats complete_call c t h = refl
moves_then_repeats confirm_call c t h = ground arith

write_same :
    (a : Call) (c : Clock) (ride driver : ℕ) (x : Trip)
    → is_trip_of ride driver (write_of a c x) ≡ is_trip_of ride driver x
write_same start_call c ride driver x = refl
write_same complete_call c ride driver x = refl
write_same confirm_call c ride driver x = refl

Went-twice :
    (a : Call) (c c' : Clock) (ride driver : ℕ) (db : Db) {t' : Trip} {db' : Db}
    → All IsValidTrip db.trips
    → Went a c ride driver db t' db'
    → run_call a c' ride driver db' ≡ ok (t', db')
Went-twice a c c' ride driver db valid (t, e, inl (m, p, q)) =
    let v = All-find IsValidTrip (is_trip_of ride driver) db.trips valid e in
    let again =
      find-update_self (is_trip_of ride driver) (write_of a c) db.trips (write_same a c ride driver)
        e in
    rw (p, q)
      (run_call-answer a c' ride driver (write_trip (write_of a c) ride driver db)
          (TripStep-IsValidTrip (moves-TripStep a c t m) v) again
        ∙ rw (moves_then_repeats a c t m))
Went-twice a c c' ride driver db valid (t, e, inr (r, p, q)) =
    let v = All-find IsValidTrip (is_trip_of ride driver) db.trips valid e in
    rw (p, q) (run_call-answer a c' ride driver db v e ∙ rw r)

-- Where all Trips meet the constraints of the table, a call that succeeded can be repeated, at any later time: it answers the same Trip and leaves the
-- database as it is.
run_call_twice :
    (a : Call) (c c' : Clock) (ride driver : ℕ) (db : Db) {t' : Trip} {db' : Db}
    → All IsValidTrip db.trips
    → run_call a c ride driver db ≡ ok (t', db')
    → run_call a c' ride driver db' ≡ ok (t', db')
run_call_twice a c c' ride driver db valid h =
    Went-twice a c c' ride driver db valid (run_call-Went a c ride driver db valid h)

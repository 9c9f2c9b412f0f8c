-- ===== src/Trip/Tests.antt =====
-- Tests of a Driver's calls on the sample Trip.
use uber_clone.Common.{◌≡◌, refl, [], ◌∷◌, arith, All, ok}
use uber_clone.Store.{Db, frozen}
use uber_clone.Sample.{sample, noon, a_trip}
use uber_clone.Trip.{start, set_started}
use uber_clone.Trip.Lifecycle.{Advances}
use uber_clone.Trip.Validity.{IsValidTrip}
use uber_clone.Trip.Calls.{start_call, run_call, answer, verdict, run_call-answer}
use uber_clone.Trip.Calls.Advancing.{run_call-Advances}

abbrev started : Db
started = record sample { trips = set_started (frozen noon) a_trip ∷ [] }

a_trip-IsValidTrip : IsValidTrip a_trip
a_trip-IsValidTrip = ground arith

trips-valid : All IsValidTrip sample.trips
trips-valid = (a_trip-IsValidTrip, tt)

starts :
    run_call start_call (frozen noon) 2 22 sample ≡ ok (set_started (frozen noon) a_trip, started)
unfolding start
starts = refl

run_call-answer_example :
    run_call start_call (frozen noon) 2 22 sample
    ≡ answer
        (verdict start_call a_trip.status a_trip.settlement.status)
        start_call
        (frozen noon)
        2
        22
        a_trip
        sample
run_call-answer_example =
    run_call-answer start_call (frozen noon) 2 22 sample a_trip-IsValidTrip refl

run_call-Advances_example :
    Advances sample.trips started.trips × (started ≡ record sample { trips = started.trips })
run_call-Advances_example =
    run_call-Advances start_call (frozen noon) 2 22 sample (tt, tt) trips-valid starts

-- ===== src/Cancellation/Tests.antt =====
-- Tests of the cancellations on the sample store.
use uber_clone.Common.{◌≡◌, refl, none, some, arith, Result, ok, err, ◌⊎◌}
use uber_clone.Common.Table.{find}
use uber_clone.Common.Keys.{IsKeyed}
use uber_clone.Store.{Db, Ride, frozen, CancellationActor, RideStatus, ride_key, trip_key}
use uber_clone.Sample.{sample, noon}
use uber_clone.Marketplace.Expiry.{expire, is_ride}
use uber_clone.Cancellation.{CancellationError, Cancellation, cancel_by_driver}
use uber_clone.Cancellation.Effects.{IsCancelled}
use uber_clone.Cancellation.Calls.{cancel_by, cancel_by-cases, MayCancel, IsRepeated}
use uber_clone.Cancellation.Repeat.{cancel_by_twice}

abbrev nothing : Cancellation × Db
nothing = (
  record {
    ride_request_id = 0;
    status = RideStatus.cancelled;
    cancelled_by = CancellationActor.rider;
    cancelled_at = 0;
    trip = none;
  },
  sample,
)

abbrev result_or : Result CancellationError (Cancellation × Db) → Cancellation × Db
result_or (ok x) = x
result_or (err e) = nothing

-- Driver 22 cancels the Trip of ride 2.
abbrev cancelled_trip : Cancellation × Db
unfolding cancel_by_driver
cancelled_trip = result_or (cancel_by_driver (frozen noon) 2 22 sample)

cancels :
    cancel_by CancellationActor.driver (frozen noon) 2 22 sample
    ≡ ok (cancelled_trip.0, cancelled_trip.1)
unfolding cancel_by_driver expire
cancels = refl

rides-IsKeyed : IsKeyed ride_key sample.rides
rides-IsKeyed = ground arith

trips-IsKeyed : IsKeyed trip_key sample.trips
trips-IsKeyed = (tt, tt)

cancel_by-cases_example :
    let db₀ = expire (frozen noon) 0 sample in
    (r : Ride) × (find (is_ride 2) db₀.rides ≡ some r)
    × MayCancel CancellationActor.driver 2 22 db₀ r
    × (IsRepeated 2 db₀ r cancelled_trip.0 cancelled_trip.1
        ⊎ IsCancelled
            (frozen noon)
            2
            CancellationActor.driver
            db₀
            r
            cancelled_trip.0
            cancelled_trip.1)
cancel_by-cases_example =
    cancel_by-cases CancellationActor.driver (frozen noon) 2 22 sample rides-IsKeyed trips-IsKeyed
      cancels

cancel_by_twice_example :
    cancel_by CancellationActor.driver (frozen 11000000) 2 22 cancelled_trip.1
    ≡ ok (cancelled_trip.0, expire (frozen 11000000) 0 cancelled_trip.1)
cancel_by_twice_example =
    cancel_by_twice CancellationActor.driver (frozen noon) (frozen 11000000) 2 22 sample
      rides-IsKeyed trips-IsKeyed cancels

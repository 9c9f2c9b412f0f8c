-- ===== src/Views/Tests.antt =====
-- Tests of what Riders and Drivers read.
use uber_clone.Common.{◌+◌, ◌++◌, ◌≡◌, refl, arith, some, [], ◌∷◌, ok}
use uber_clone.Common.Int.{◌-ℤ◌}
use uber_clone.Common.Float.{leb_float, degrees, minus_degrees}
use uber_clone.Store.{Db, RideStatus, Trip, TripStatus, Clock}
use uber_clone.Marketplace.Expiry.{expire}
use uber_clone.Trip.Validity.{IsValidTrip}
use uber_clone.Driver.Location.{
  set_current, upsert_current, upsert_location, valid_coordinate, heartbeat, drop_offline,
}
use uber_clone.Views.RideStatus.{get_owned, scan_view}
use uber_clone.Views.Current.{IsCurrentView, get_owned-IsCurrentView}
use uber_clone.Sample.{sample, a_ride, a_trip, a_profile, here}

abbrev ticks : Clock
ticks = record { started = 10000000; at = λ k. 10000000 + k }

shows :
    get_owned ticks 1 10 sample ≡ ok (scan_view sample (a_ride 1 10 RideStatus.requested), sample)
unfolding get_owned expire
shows = refl

get_owned-IsCurrentView_example :
    IsCurrentView 10000000 1 10 (scan_view sample (a_ride 1 10 RideStatus.requested))
get_owned-IsCurrentView_example = get_owned-IsCurrentView ticks 1 10 sample (λ k. omega arith) shows

abbrev with_driver : Db
with_driver = record sample { profiles = a_profile 22 ∷ sample.profiles }

abbrev after_heartbeat : Db
after_heartbeat = record sample {
  profiles = drop_offline (a_profile 22) ∷ sample.profiles;
  locations = sample.locations ++ heartbeat ticks 22 here ∷ [];
}

beats : set_current ticks 22 here with_driver ≡ ok (heartbeat ticks 22 here, after_heartbeat)
unfolding set_current upsert_current upsert_location valid_coordinate leb_float degrees
    minus_degrees ◌-ℤ◌
beats = refl

abbrev moving_trip : Trip
moving_trip = record a_trip { status = TripStatus.in_progress; started_at = some 3000000 }

moving_trip-IsValidTrip : IsValidTrip moving_trip
moving_trip-IsValidTrip = ground arith

abbrev moving : Db
moving = record sample { trips = moving_trip ∷ [] }

-- ===== src/Views/Ended.antt =====
-- The Driver's place after the end of a Trip (Trip and RiderLocation together).
use uber_clone.Common.{
  ℕ, ◌≡◌, refl, Bool, false, none, some, List, ◌==◌, arith, ok, err, Option-cases, inl, inr,
}
use uber_clone.Common.Table.{find, update_where, find_sound, find-update_self}
use uber_clone.Common.Keys.{IsKeyed, update_where-IsKeyed, find-weaken}
use uber_clone.Store.{Db, Trip, TripStatus, Clock, trip_key}
use uber_clone.Trip.{complete, set_completed, is_trip_of}
use uber_clone.Trip.Validity.{IsValidTrip}
use uber_clone.Trip.Calls.{trip_for, write_trip, run_call-answer, complete_call}
use uber_clone.Views.RiderLocation.{is_followed, active_trip_not_found, get_for_ride}

is_for : ℕ → Trip → Bool
is_for ride t = t.ride_request_id == ride

not_followed :
    (ride rider : ℕ) (t : Trip) → t.status ≡ TripStatus.completed → is_followed ride rider t ≡ false
not_followed ride rider t over = rw over (ground arith)

-- The only Trip of the ride is over, so that nobody follows it.
followed_by_none :
    (ride driver rider : ℕ) (t : Trip) (ts : List Trip)
    → IsKeyed trip_key ts
    → find (is_trip_of ride driver) ts ≡ some t
    → t.status ≡ TripStatus.completed
    → find (is_followed ride rider) ts ≡ none
unfolding is_for
followed_by_none ride driver rider t ts keyed row over =
    elim (Option-cases (find (is_followed ride rider) ts)) [
      | inl e ↦ e
      | inr (u, e) ↦
          let one =
            find-weaken trip_key (is_trip_of ride driver) (is_for ride) ride ts
              (λ x m. ground arith) (λ x m. ground arith) keyed row in
          let other =
            find-weaken trip_key (is_followed ride rider) (is_for ride) ride ts
              (λ x m. ground arith) (λ x m. ground arith) keyed e in
          let same : u ≡ t = cc (one, other) in
          let m = find_sound (is_followed ride rider) ts e in
          cc (same, m, not_followed ride rider t over)
    ]

-- A Driver can complete a Trip that is in progress, where each ride has at most one Trip and the
-- table's constraints hold for this one; from then on no Rider reads the Driver's place for the ride.
complete-get_for_ride :
    (c : Clock) (ride driver rider : ℕ) (db : Db) (t : Trip)
    → IsValidTrip t
    → IsKeyed trip_key db.trips
    → trip_for ride driver db ≡ some t
    → t.status ≡ TripStatus.in_progress
    → (complete c ride driver db
        ≡ ok (set_completed c t, write_trip (set_completed c) ride driver db))
      × (get_for_ride ride rider (write_trip (set_completed c) ride driver db)
          ≡ err active_trip_not_found)
unfolding get_for_ride
complete-get_for_ride c ride driver rider db t valid keyed row moving =
    let p = is_trip_of ride driver in
    let f = set_completed c in
    let answer = run_call-answer complete_call c ride driver db valid row in
    let gone =
      followed_by_none ride driver rider (f t) (update_where p f db.trips)
        (update_where-IsKeyed trip_key p f db.trips (λ x. refl) keyed)
        (find-update_self p f db.trips (λ x. refl) row) refl in
    (rw moving at answer, rw gone refl)

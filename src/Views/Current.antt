-- ===== src/Views/Current.antt =====
-- What a Rider and a Driver see is current.
use uber_clone.Common.{
  ℕ, ◌<◌, ◌≡◌, refl, subst, Bool, true, false, ◌&&◌, none, some, ◌==◌, arith, ok, Option-cases, inl,
  inr,
}
use uber_clone.Common.Table.{find, All-find, find_sound, All-find-none, All-false-exists}
use uber_clone.Store.{Db, Ride, Trip, Location, DriverLocation, Clock, IsMonotone}
use uber_clone.Marketplace.Expiry.{expire, is_requested, is_ride, has_trip}
use uber_clone.Marketplace.Expiry.Effects.{IsCurrentRide, expire-IsCurrent}
use uber_clone.Driver.Location.{set_current, upsert_current}
use uber_clone.Driver.Location.Current.{set_current-stores}
use uber_clone.Views.RideStatus.{View, is_trip_for, scan_view, get_owned}
use uber_clone.Views.RiderLocation.{is_followed, get_for_ride}

-- The Rider's own request, which is not open past its deadline.
pub record IsCurrentView (now ride rider : ℕ) (v : View) : Type 0 where
  pub same_ride : v.ride_request.id ≡ ride
  pub own : v.ride_request.rider_user_id ≡ rider
  pub in_time :
      is_requested v.ride_request.status ≡ true → v.trip ≡ none → now < v.ride_request.expires_at

no_trip : (r : Ride) (db : Db) → (scan_view db r).trip ≡ none → has_trip r.id db.trips ≡ false
no_trip r db h = elim (Option-cases (find (is_trip_for r.id) db.trips)) [
  | inl e ↦
      All-false-exists (is_trip_for r.id) db.trips (All-find-none (is_trip_for r.id) db.trips e)
  | inr (t, e) ↦ cc (rw (e, scan_view) at h)
]

view-IsCurrentView :
    (now ride rider : ℕ) (db : Db) (r : Ride)
    → (is_ride ride r && r.rider_user_id == rider) ≡ true
    → IsCurrentRide now db.trips r
    → IsCurrentView now ride rider (scan_view db r)
view-IsCurrentView now ride rider db r m c = record {
  same_ride = ground arith;
  own = ground arith;
  in_time = λ open_ none_. c.in_time open_ (no_trip r db none_);
}

-- Where time does not run backwards, GetOwned shows the Rider the own request, and a request that is
-- shown as requested and without a Trip has its deadline after the time at which the call began.
pub get_owned-IsCurrentView :
    (c : Clock) (ride rider : ℕ) (db : Db) {v : View} {db' : Db}
    → IsMonotone c
    → get_owned c ride rider db ≡ ok (v, db')
    → IsCurrentView (c.at 0) ride rider v
unfolding get_owned
get_owned-IsCurrentView c ride rider db {v} m h =
    let q : Ride → Bool = λ r. is_ride ride r && r.rider_user_id == rider in
    elim (Option-cases (find q (expire c 0 db).rides)) [
      | inl e ↦ absurd (ground arith)
      | inr (r, e) ↦
          let same : scan_view (expire c 0 db) r ≡ v = ground arith in
          let row =
            All-find (IsCurrentRide (c.at 0) (expire c 0 db).trips) q (expire c 0 db).rides
              (expire-IsCurrent c 0 db m).rides e in
          subst (IsCurrentView (c.at 0) ride rider) same (
            view-IsCurrentView (c.at 0) ride rider (expire c 0 db) r
              (find_sound q (expire c 0 db).rides e) row)
    ]

trips-set_current :
    (c : Clock) (driver : ℕ) (place : Location) (db : Db) {l : DriverLocation} {db' : Db}
    → set_current c driver place db ≡ ok (l, db')
    → db'.trips ≡ db.trips
unfolding set_current upsert_current
trips-set_current c driver place db h = ground arith

-- While a Trip is assigned or in progress, its Rider reads the place of the Driver's last accepted
-- heartbeat, and its time.
set_current-get_for_ride :
    (c : Clock) (place : Location) (ride rider : ℕ) (db : Db) (t : Trip) {l : DriverLocation}
    {db' : Db}
    → find (is_followed ride rider) db.trips ≡ some t
    → set_current c t.driver_user_id place db ≡ ok (l, db')
    → get_for_ride ride rider db'
      ≡ ok (record { ride_request_id = ride; place = place; updated_at = c.started })
unfolding get_for_ride
set_current-get_for_ride c place ride rider db t {l} {db'} row h =
    let (_, same, stored, _) = set_current-stores c t.driver_user_id place db h in
    let trips = trips-set_current c t.driver_user_id place db h in
    let mine = find_sound (is_followed ride rider) db.trips row in
    let id : t.ride_request_id ≡ ride = ground arith in rw (trips, row, stored, same, id) refl

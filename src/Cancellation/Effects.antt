-- ===== src/Cancellation/Effects.antt =====
-- What a cancellation does.
use uber_clone.Common.{
  ℕ, ◌≡◌, refl, sym, Bool, true, false, ◌&&◌, Option, none, some, List, ◌==◌, arith, All, ok, inl,
  inr, ◌⊎◌,
}
use mathlib.Core.Path.{subst₂}
use mathlib.Core.Option.{map}
use uber_clone.Common.Table.{find, update_where, find-update_self, All-update}
use uber_clone.Store.{
  Db, Ride, RideStatus, CancellationActor, Trip, TripStatus, Offer, Opportunity, Clock,
}
use uber_clone.Marketplace.Expiry.{is_pending, is_live, is_ride}
use uber_clone.Cancellation.{
  Cancellation, LockedTrip, is_trip_on, scan_trip, set_ride_cancelled, set_trip_cancelled,
  close_decided, close_responded, cancel_trip_by, cancel_locked,
}

-- A Trip that can still be called off.
abbrev pub is_running : TripStatus → Bool
is_running TripStatus.assigned = true
is_running TripStatus.in_progress = true
is_running _ = false

abbrev pub is_requested_or_accepted : RideStatus → Bool
is_requested_or_accepted RideStatus.requested = true
is_requested_or_accepted RideStatus.accepted = true
is_requested_or_accepted _ = false

abbrev pub cancelled_trip : ℕ → LockedTrip → LockedTrip
cancelled_trip at t = record t { status = TripStatus.cancelled; cancelled_at = some at }

cancel_trip_by-ok :
    (at ride : ℕ) (t : Trip) (db : Db) {u : LockedTrip} {db' : Db}
    → find (is_trip_on ride) db.trips ≡ some t
    → cancel_trip_by t.status at ride (scan_trip t) db ≡ ok (u, db')
    → (is_running t.status ≡ true)
      × (u ≡ cancelled_trip at (scan_trip t))
      × (db'
          ≡ record db { trips = update_where (is_trip_on ride) (set_trip_cancelled at) db.trips })
unfolding cancel_trip_by
cancel_trip_by-ok at ride t db h e =
    let again = find-update_self (is_trip_on ride) (set_trip_cancelled at) db.trips (λ x. refl) h in
    (ground (arith, again), ground (arith, again), ground (arith, again))

-- What a cancellation has done to the Trip of the ride, if there is one.
unfoldable pub CancelsTrip : ℕ → ℕ → Db → Option LockedTrip → Db → Type 0
CancelsTrip at ride db answered db' =
    (find (is_trip_on ride) db.trips ≡ none) × (answered ≡ none) × (db'.trips ≡ db.trips)
    ⊎ ((t : Trip) × (find (is_trip_on ride) db.trips ≡ some t)
        × (is_running t.status ≡ true)
        × (answered ≡ some (cancelled_trip at (scan_trip t)))
        × (db'.trips ≡ update_where (is_trip_on ride) (set_trip_cancelled at) db.trips))

-- A cancellation that was carried out: `db` is the database brought up to date.
pub record IsCancelled (c : Clock) (ride : ℕ) (actor : CancellationActor) (db : Db) (r : Ride)
    (res : Cancellation) (db' : Db) : Type 0 where
  pub stood : is_requested_or_accepted r.status ≡ true
  pub ride_cancelled :
      db'.rides ≡ update_where (is_ride ride) (set_ride_cancelled actor (c.at 8)) db.rides
  pub answer :
      (res.ride_request_id ≡ ride)
      × (res.status ≡ RideStatus.cancelled)
      × (res.cancelled_by ≡ actor)
      × (res.cancelled_at ≡ c.at 8)
  pub trip : CancelsTrip (c.at 8) ride db res.trip db'
  pub no_offer : All (λ o. o.ride_request_id ≡ ride → is_pending o.status ≡ false) db'.offers
  pub no_opportunity :
      All (λ o. o.ride_request_id ≡ ride → is_live o.status ≡ false) db'.opportunities

module _ (c : Clock) (ride : ℕ) (actor : CancellationActor) (db : Db) where
  no_offer_left :
      (offers : List Offer)
      → All
          (λ o. o.ride_request_id ≡ ride → is_pending o.status ≡ false)
          (update_where
            (λ o. (o.ride_request_id == ride) && is_pending o.status)
            (close_decided (c.at 8) (c.at 10))
            offers)
  no_offer_left offers =
      All-update (λ o. o.ride_request_id ≡ ride → is_pending o.status ≡ false)
        (λ o. (o.ride_request_id == ride) && is_pending o.status) (close_decided (c.at 8) (c.at 10))
        offers (λ o e. ground arith)

  no_opportunity_left :
      (opportunities : List Opportunity)
      → All
          (λ o. o.ride_request_id ≡ ride → is_live o.status ≡ false)
          (update_where
            (λ o. (o.ride_request_id == ride) && is_live o.status)
            (close_responded (c.at 8))
            opportunities)
  no_opportunity_left opportunities =
      All-update (λ o. o.ride_request_id ≡ ride → is_live o.status ≡ false)
        (λ o. (o.ride_request_id == ride) && is_live o.status) (close_responded (c.at 8))
        opportunities (λ o e. ground arith)

  -- The answer, and the database that is left, with the Trips given.
  answer_with : Option LockedTrip → Cancellation
  answer_with trip = record {
    ride_request_id = ride;
    status = RideStatus.cancelled;
    cancelled_by = actor;
    cancelled_at = c.at 8;
    trip = trip;
  }

  left_with : List Trip → Db
  left_with trips = record db {
    rides = update_where (is_ride ride) (set_ride_cancelled actor (c.at 8)) db.rides;
    trips = trips;
    offers =
        update_where (λ o. (o.ride_request_id == ride) && is_pending o.status)
          (close_decided (c.at 8) (c.at 10)) db.offers;
    opportunities =
        update_where (λ o. (o.ride_request_id == ride) && is_live o.status)
          (close_responded (c.at 8)) db.opportunities;
  }

  left-IsCancelled :
      (r : Ride) (trip : Option LockedTrip) (trips : List Trip)
      → is_requested_or_accepted r.status ≡ true
      → CancelsTrip (c.at 8) ride db trip (left_with trips)
      → IsCancelled c ride actor db r (answer_with trip) (left_with trips)
  unfolding answer_with left_with
  left-IsCancelled r trip trips s t = record {
    stood = s;
    ride_cancelled = refl;
    answer = (refl, refl, refl, refl);
    trip = t;
    no_offer = no_offer_left db.offers;
    no_opportunity = no_opportunity_left db.opportunities;
  }

  cancel_locked-none :
      {res : Cancellation} {db' : Db}
      → cancel_locked c ride actor none db ≡ ok (res, db')
      → (res ≡ answer_with none) × (db' ≡ left_with db.trips)
  unfolding cancel_locked answer_with left_with
  cancel_locked-none h = (ground arith, ground arith)

  cancel_locked-some :
      {t : Trip} {res : Cancellation} {db' : Db}
      → find (is_trip_on ride) db.trips ≡ some t
      → cancel_locked c ride actor (some (scan_trip t)) db ≡ ok (res, db')
      → (is_running t.status ≡ true)
        × (res ≡ answer_with (some (cancelled_trip (c.at 8) (scan_trip t))))
        × (db' ≡ left_with (update_where (is_trip_on ride) (set_trip_cancelled (c.at 8)) db.trips))
  unfolding cancel_locked answer_with left_with
  cancel_locked-some {t} f h =
      let again =
        find-update_self (is_trip_on ride) (set_trip_cancelled (c.at 8)) db.trips (λ x. refl) f in
      (ground (arith, again), ground (arith, again), ground (arith, again))

  pub cancel_locked-IsCancelled :
      (r : Ride) (found : Option Trip) {res : Cancellation} {db' : Db}
      → is_requested_or_accepted r.status ≡ true
      → find (is_trip_on ride) db.trips ≡ found
      → cancel_locked c ride actor (map scan_trip found) db ≡ ok (res, db')
      → IsCancelled c ride actor db r res db'
  unfolding CancelsTrip left_with
  cancel_locked-IsCancelled r none s f h =
      let (e, e') = cancel_locked-none h in
      subst₂ (IsCancelled c ride actor db r) (sym e) (sym e')
        (left-IsCancelled r none db.trips s (inl (f, refl, refl)))
  cancel_locked-IsCancelled r (some t) s f h =
      let (running, e, e') = cancel_locked-some f h in
      subst₂ (IsCancelled c ride actor db r) (sym e) (sym e') (
        left-IsCancelled r (some (cancelled_trip (c.at 8) (scan_trip t)))
          (update_where (is_trip_on ride) (set_trip_cancelled (c.at 8)) db.trips) s
          (inr (t, f, running, refl, refl)))

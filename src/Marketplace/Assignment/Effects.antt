-- ===== src/Marketplace/Assignment/Effects.antt =====
-- What a successful selection means and does, and that a ride is never assigned twice.
use uber_clone.Common.{ℕ, subst, ◌≡◌, refl, sym, ◌≢◌, true, [], ◌∷◌, ◌==◌, arith, ok, >>=-eq-ok}
use uber_clone.Common.Table.{exists-append}
use uber_clone.Store.{Db, Ride, Trip, Offer, Opportunity, Clock}
use uber_clone.Marketplace.Expiry.{expire, has_trip}
use uber_clone.Marketplace.Expiry.Frame.{expire-rides-IsKeyed, expire-opportunities-IsKeyed}
use uber_clone.Marketplace.Assignment.{check_selection, apply_selection, select_offer}
use uber_clone.Marketplace.Assignment.Selectable.{
  IsSelectable, check-IsSelectable, apply_selection-ok,
}
use uber_clone.Marketplace.Assignment.Rows.{
  HasKeys, IsAssignment, acceptable_ride, assigned_ride, assigned_offer, assigned_opportunity,
  assigned_no_pending, assigned_no_live,
}

apply_selection-IsAssignment :
    (c : Clock) (ride rider driver version : ℕ) (db : Db) {r : Ride} {o : Offer} {p : Opportunity}
    {t : Trip} {db' : Db}
    → HasKeys db
    → IsSelectable c ride rider driver version db r o p
    → apply_selection c ride rider driver db ≡ ok (t, db')
    → IsAssignment c ride rider driver db r o p t db'
apply_selection-IsAssignment c ride rider driver version db {r} {o} {p} {t} {db'} keys s h =
    let (a, e, e') = apply_selection-ok c ride rider driver db o s.the_offer h in
    let acc = acceptable_ride (c.at 16) ride db.rides keys.rides s.the_ride a.one_ride in
    subst (IsAssignment c ride rider driver db r o p t) (sym e') (record {
      the_trip = e;
      trips = refl;
      driver_was_free = a.free;
      ride_in_time = ground arith;
      ride_accepted = assigned_ride c ride driver t db s.the_ride acc;
      offer_accepted = assigned_offer c ride driver t db s.the_offer;
      opportunity_accepted = assigned_opportunity c ride driver t db s.the_opportunity s.offered;
      no_other_offer = assigned_no_pending c ride driver t db;
      no_other_opportunity =
          assigned_no_live c ride driver t db keys.opportunities s.the_opportunity s.offered;
    })

-- `Expire` keeps the keys.
expire-HasKeys : (c : Clock) (k : ℕ) (db : Db) → HasKeys db → HasKeys (expire c k db)
expire-HasKeys c k db keys = record {
  rides = expire-rides-IsKeyed c k db keys.rides;
  opportunities = expire-opportunities-IsKeyed c k db keys.opportunities;
}

-- In a store whose rides and opportunities have distinct primary keys, a selection that succeeds was
-- allowed, in the database brought up to date by `Expire`: the ride
-- is the Rider's, open, in time and without a Trip; the offer is pending, in time and of the version
-- that the Rider saw; the opportunity is offered; the Driver is eligible and still operates the
-- vehicle and service of the offer. It then adds exactly the Trip that is answered, of a Driver with
-- no active Trip; accepts the ride, the offer and the opportunity; and leaves no other offer of the
-- ride pending and no other opportunity open or offered.
pub select_offer-assigns :
    (c : Clock) (ride rider driver version : ℕ) (db : Db) {t : Trip} {db' : Db}
    → HasKeys db
    → select_offer c ride rider driver version db ≡ ok (t, db')
    → (r : Ride) × (o : Offer) × (p : Opportunity) × IsSelectable c ride rider driver version
        (expire c 0 db)
        r
        o
        p
      × IsAssignment c ride rider driver (expire c 0 db) r o p t db'
unfolding select_offer
select_offer-assigns c ride rider driver version db {t} {db'} keys h =
    let db₀ = expire c 0 db in
    let ((r, o), e, e') =
      >>=-eq-ok (check_selection c ride rider driver version db₀)
        (λ x. apply_selection c ride rider driver db₀) h in
    let (p, s) = check-IsSelectable c ride rider driver version db₀ {r = r} {o = o} e in
    (
      r,
      o,
      p,
      s,
      apply_selection-IsAssignment c ride rider driver version db₀ (expire-HasKeys c 0 db keys) s
          e',
    )

-- A ride that has a Trip is not assigned: whoever selects whatever offer, at whatever time.
pub select_offer-has_trip :
    (c : Clock) (ride rider driver version : ℕ) (db : Db) {t : Trip} {db' : Db}
    → has_trip ride db.trips ≡ true
    → select_offer c ride rider driver version db ≢ ok (t, db')
unfolding select_offer expire
select_offer-has_trip c ride rider driver version db h e =
    let db₀ = expire c 0 db in
    let ((r, o), e', e'') =
      >>=-eq-ok (check_selection c ride rider driver version db₀)
        (λ x. apply_selection c ride rider driver db₀) e in
    let (p, s) = check-IsSelectable c ride rider driver version db₀ {r = r} {o = o} e' in
    cc (h, s.no_trip)

IsAssignment-has_trip :
    (c : Clock) (ride rider driver : ℕ) (db : Db) {r : Ride} {o : Offer} {p : Opportunity}
    {t : Trip} {db' : Db}
    → IsAssignment c ride rider driver db r o p t db'
    → has_trip ride db'.trips ≡ true
IsAssignment-has_trip c ride rider driver db {t = t} a =
    rw (a.trips, exists-append (λ x. x.ride_request_id == ride) db.trips (t ∷ []))
      (rw a.the_trip (ground arith))

-- No ride is assigned twice: in a store whose rides and opportunities have distinct keys, after a selection has succeeded, every further one for the ride fails,
-- by whichever Rider, for whichever Driver and version, at whatever times.
pub select_offer_once :
    (c c' : Clock) (ride rider rider' driver driver' version version' : ℕ) (db : Db) {t t' : Trip}
    {db' db'' : Db}
    → HasKeys db
    → select_offer c ride rider driver version db ≡ ok (t, db')
    → select_offer c' ride rider' driver' version' db' ≢ ok (t', db'')
select_offer_once c c' ride rider rider' driver driver' version version' db {db' = db'} keys h =
    let (r, o, p, s, a) = select_offer-assigns c ride rider driver version db keys h in
    select_offer-has_trip c' ride rider' driver' version' db'
      (IsAssignment-has_trip c ride rider driver (expire c 0 db) a)

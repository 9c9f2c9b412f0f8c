-- ===== src/Offer/RiderList.antt =====
-- offer/rider_postgres.go: a Rider compares the offers for a request. `distance` is that of
-- Offer/Discovery.
pub mod Compared
use uber_clone.Common.{
  ℕ, Bool, true, false, ◌&&◌, ◌||◌, not, Option, none, some, List, [], ◌∷◌, ◌==◌, ltb, is_some,
  Result, ok, err, ◌>>=◌, ◌>>◌, or_fail, fail_if, if◌then◌else◌,
}
use uber_clone.Common.Int.{ℤ, ltb_ℤ, leb_ℤ}
use uber_clone.Common.Float.{Float, less_float, equal_float}
use uber_clone.Common.Text.{Text, text_eq, is_empty}
use uber_clone.Common.Table.{find, exists, select}
use uber_clone.Common.Order.{sort_by}
use uber_clone.Store.{Db, Ride, Offer, Opportunity, OperationContext, Location}
use uber_clone.Marketplace.Expiry.{
  is_pending, is_offered, is_requested, is_ride, has_trip, is_opportunity_of,
}
use uber_clone.Driver.Eligibility.{is_available, is_fresh}
use uber_clone.Offer.{OfferError, ride_not_found, ride_not_open, proposal}

abbrev pub eqb_ℤ : ℤ → ℤ → Bool
eqb_ℤ a b = leb_ℤ a b && leb_ℤ b a

pub record VehicleSummary : Type 0 where
  pub make : Text
  pub model : Text
  pub model_year : ℕ
  pub color : Text

pub record ServiceSummary : Type 0 where
  pub code : Text
  pub display_name : Text

-- The embedded Offer is the row `offer`; `driver` is the DriverSummary, which is a name.
pub record RiderOffer : Type 0 where
  pub offer : Offer
  pub driver : Option Text
  pub vehicle : Option VehicleSummary
  pub service : Option ServiceSummary
  pub pickup_distance_meters : Option Float
  pub matches_proposed_fare : Bool
  pub selectable : Bool

abbrev pub year_or_zero : Option ℕ → ℕ
year_or_zero none = 0
year_or_zero (some y) = y

-- Without a context every field of it is NULL.
abbrev pub driver_of : Option OperationContext → Option Text
driver_of none = none
driver_of (some x) = x.driver_name

abbrev pub vehicle_of : Option OperationContext → Option VehicleSummary
vehicle_of none = none
vehicle_of (some x) = some (record {
  make = x.make;
  model = x.model;
  model_year = year_or_zero x.model_year;
  color = x.color;
})

abbrev pub service_of : Option OperationContext → Option ServiceSummary
service_of none = none
service_of (some x) = some (record {
  code = x.service_code;
  display_name = if is_empty x.service_name then x.service_code else x.service_name;
})

-- The Driver's location, if it is fresh.
abbrev pub fresh_distance : (Location → Location → Float) → ℕ → ℕ → Db → Location → Option Float
fresh_distance distance now driver db pickup =
    elim (find (λ l. l.driver_user_id == driver) db.locations) [
      | none ↦ none
      | some l ↦ if is_fresh now l.updated_at then some (distance l.place pickup) else none
    ]

-- The offer's context names the selected vehicle and the service of the request.
abbrev pub matches_selection : ℕ → Text → Option OperationContext → Db → Bool
matches_selection driver service none db = false
matches_selection driver service (some x) db =
    exists (λ s. s.driver_user_id == driver && s.vehicle_id == x.vehicle_id) db.selections
    && text_eq x.service_code service

-- COALESCE(…, FALSE): a row that a LEFT JOIN does not have makes a test NULL. The joined rows and the
-- tests on them are those of is_available.
unfoldable pub is_selectable : ℕ → Db → Ride → Offer → Opportunity → Bool
is_selectable now db r o p =
    is_pending o.status
    && ltb now o.expires_at
    && ltb now r.expires_at
    && is_offered p.status
    && is_available now o.driver_user_id r.service_code db
    && matches_selection o.driver_user_id r.service_code o.operation_context db
    && not (o.driver_user_id == r.rider_user_id)

abbrev pub matches_fare : Ride → Offer → Bool
matches_fare r o = elim (proposal r) [
  | none ↦ false
  | some fare ↦ eqb_ℤ o.amount_minor fare.0 && text_eq o.currency fare.1
]

abbrev pub rider_offer :
    (Location → Location → Float) → ℕ → Db → Ride → Offer → Opportunity → RiderOffer
rider_offer distance now db r o p = record {
  offer = o;
  driver = driver_of o.operation_context;
  vehicle = vehicle_of o.operation_context;
  service = service_of o.operation_context;
  pickup_distance_meters = fresh_distance distance now o.driver_user_id db r.pickup;
  matches_proposed_fare = matches_fare r o;
  selectable = is_selectable now db r o p;
}

-- The WHERE on the offer, and the JOIN with its opportunity.
abbrev pub is_comparable : ℕ → ℕ → Offer → Bool
is_comparable now ride o = o.ride_request_id == ride && is_pending o.status && ltb now o.expires_at

unfoldable pub rider_offers :
    (Location → Location → Float) → ℕ → Db → Ride → List Offer → List RiderOffer
rider_offers distance now db r [] = []
rider_offers distance now db r (o ∷ t) =
    let rest = rider_offers distance now db r t in
    elim (find (is_opportunity_of o.ride_request_id o.driver_user_id) db.opportunities) [
      | none ↦ rest
      | some p ↦ if is_offered p.status then rider_offer distance now db r o p ∷ rest else rest
    ]

-- pickup_distance_meters ASC NULLS LAST, and whether two are equal in this order.
abbrev pub is_shorter : Option Float → Option Float → Bool
is_shorter none b = false
is_shorter (some a) none = true
is_shorter (some a) (some b) = less_float a b

abbrev pub is_as_long : Option Float → Option Float → Bool
is_as_long none b = not (is_some b)
is_as_long (some a) none = false
is_as_long (some a) (some b) = equal_float a b

-- ORDER BY selectable DESC, the amount, the distance, the time of the offer and its Driver.
abbrev pub is_better_offer : RiderOffer → RiderOffer → Bool
is_better_offer a b =
    a.selectable && not b.selectable
    || (a.selectable && b.selectable || not a.selectable && not b.selectable)
      && (ltb_ℤ a.offer.amount_minor b.offer.amount_minor
          || eqb_ℤ a.offer.amount_minor b.offer.amount_minor
            && (is_shorter a.pickup_distance_meters b.pickup_distance_meters
                || is_as_long a.pickup_distance_meters b.pickup_distance_meters
                  && (ltb a.offer.created_at b.offer.created_at
                      || a.offer.created_at == b.offer.created_at
                        && ltb a.offer.driver_user_id b.offer.driver_user_id)))

unfoldable pub second_query : (Location → Location → Float) → ℕ → ℕ → ℕ → Db → List RiderOffer
second_query distance now ride rider db =
    elim (find (λ r. is_ride ride r && r.rider_user_id == rider) db.rides) [
      | none ↦ []
      | some r ↦
          if is_requested r.status
            && ltb now r.expires_at
            && is_some (proposal r)
            && not (has_trip ride db.trips)
          then sort_by is_better_offer
              (rider_offers distance now db r (select (is_comparable now ride) db.offers))
          else []
    ]

-- The two queries run one after the other, at `now` and at `later`, in the stores `db` and `db'`.
unfoldable pub list_for_rider :
    (Location → Location → Float) → ℕ → ℕ → ℕ → ℕ → Db → Db → Result OfferError (List RiderOffer)
list_for_rider distance now later ride rider db db' = do
  r ← or_fail (find (λ r. is_ride ride r && r.rider_user_id == rider) db.rides) ride_not_found
  fail_if (has_trip ride db.trips) ride_not_found
  fail_if (not (is_requested r.status) || not (ltb now r.expires_at) || not (is_some (proposal r)))
      ride_not_open
  ok (second_query distance later ride rider db')

-- ===== src/Offer/Discovery.antt =====
-- offer/discovery_postgres.go: a Driver sees ride requests, nearest first, each in a window of time
-- that opens when the request is first shown. The distance is computed by the database's functions on
-- floating-point numbers (offer/geography_postgres.go); it is the parameter `distance`, of the
-- Driver's place and the pickup.
pub mod Windows
pub mod Shown
pub mod Tests
use uber_clone.Common.{
  ℕ, ◌+◌, ◌-◌, ◌*◌, Bool, true, false, ◌&&◌, ◌||◌, not, Option, none, some, List, [], ◌∷◌, ◌++◌,
  ◌==◌, take, ltb, is_some, if◌then◌else◌, Result, ok, err, ◌>>=◌, or_fail,
}
use uber_clone.Common.Int.{ℤ, pos_part}
use uber_clone.Common.Float.{Float, less_float, equal_float}
use uber_clone.Common.Text.{Text}
use uber_clone.Common.Table.{find, exists, select, count_where}
use uber_clone.Common.Order.{sort_by}
use uber_clone.Store.{
  Db, Ride, Opportunity, OpportunityStatus, Location, DriverLocation, TimingPolicy, Clock,
}
use uber_clone.Marketplace.Expiry.{
  expire, is_open, is_requested, is_ride, has_trip, is_opportunity_of,
}
use uber_clone.Driver.Eligibility.{
  is_available, is_active_driver, operates, is_fresh, has_active_trip,
}
use uber_clone.Offer.{Market, proposal}

pub record DiscoveryItem : Type 0 where
  pub pickup_distance_meters : Float
  pub ride_request_id : ℕ
  pub rider_user_id : ℕ
  pub pickup : Location
  pub destination : Location
  pub proposed_fare : Market
  pub created_at : ℕ
  pub ride_expires_at : ℕ
  pub opportunity_expires_at : ℕ

-- no_policy is the sql.ErrNoRows of LoadTimingPolicy, null_fare the failure of Scan on a NULL.
pub data DiscoveryError : Type 0 where
  no_policy null_fare : DiscoveryError

-- The Driver's place; the caller joins with the location, so that there is one.
abbrev pub distance_to : (Location → Location → Float) → ℕ → Db → Location → Float
distance_to distance driver db pickup = elim (find (λ l. l.driver_user_id == driver) db.locations) [
  | none ↦ Float.nan
  | some l ↦ distance l.place pickup
]

-- ORDER BY the distance, the time of the request and its identifier.
abbrev pub is_nearer : (Location → Float) → Ride → Ride → Bool
is_nearer away a b =
    less_float (away a.pickup) (away b.pickup)
    || equal_float (away a.pickup) (away b.pickup)
      && (ltb a.created_at b.created_at || a.created_at == b.created_at && ltb a.id b.id)

-- The rows of `eligible`: its JOINs are those of is_available.
unfoldable pub is_discoverable : ℕ → ℕ → Db → Ride → Bool
is_discoverable now driver db r =
    is_requested r.status
    && ltb now r.expires_at
    && is_available now driver r.service_code db
    && is_some (proposal r)
    && not (r.rider_user_id == driver)
    && not (exists (is_opportunity_of r.id driver) db.opportunities)
    && not (has_trip r.id db.trips)

abbrev pub is_visible_of : ℕ → ℕ → Opportunity → Bool
is_visible_of now driver o =
    o.driver_user_id == driver && is_open o.status && ltb now o.visible_until

abbrev pub new_opportunity : ℕ → ℕ → TimingPolicy → Ride → Opportunity
new_opportunity now driver policy r = record {
  ride_request_id = r.id;
  driver_user_id = driver;
  status = OpportunityStatus.open_;
  opened_at = now;
  visible_until = now + pos_part policy.driver_opportunity_ttl_seconds * 1000000;
  responded_at = none;
}

abbrev pub opportunities_for : ℕ → ℕ → TimingPolicy → List Ride → List Opportunity
opportunities_for now driver policy [] = []
opportunities_for now driver policy (r ∷ t) =
    new_opportunity now driver policy r ∷ opportunities_for now driver policy t

-- The INSERT; the LIMIT, as GREATEST with 0, is the subtraction of natural numbers.
unfoldable pub open_windows : (Location → Location → Float) → ℕ → ℕ → ℕ → TimingPolicy → Db → Db
open_windows distance now driver limit policy db =
    let shown = count_where (is_visible_of now driver) db.opportunities in
    let nearer = is_nearer (distance_to distance driver db) in
    let rides =
      take (limit - shown) (sort_by nearer (select (is_discoverable now driver db) db.rides)) in
    record db { opportunities = db.opportunities ++ opportunities_for now driver policy rides }

-- The JOINs and the WHERE of the SELECT on a request; unlike the INSERT, it does not ask for the
-- capability.
unfoldable pub is_listable : ℕ → ℕ → Db → Ride → Bool
is_listable now driver db r =
    exists (λ p. p.user_id == driver && is_active_driver p.status && p.is_online) db.profiles
    && operates driver r.service_code db
    && exists (λ l. l.driver_user_id == driver && is_fresh now l.updated_at) db.locations
    && not (has_active_trip driver db.trips)
    && is_requested r.status
    && ltb now r.expires_at
    && not (has_trip r.id db.trips)

abbrev pub item_of : (Location → Float) → Ride → Opportunity → ℤ × Text → DiscoveryItem
item_of away r o fare = record {
  pickup_distance_meters = away r.pickup;
  ride_request_id = r.id;
  rider_user_id = r.rider_user_id;
  pickup = r.pickup;
  destination = r.destination;
  proposed_fare = record {
    ride_request_id = r.id;
    proposed_amount_minor = fare.0;
    currency = fare.1;
  };
  created_at = r.created_at;
  ride_expires_at = r.expires_at;
  opportunity_expires_at = o.visible_until;
}

-- The joined rows: an opportunity with its request, by the request's primary key.
unfoldable pub listed : ℕ → ℕ → Db → List Opportunity → List (Ride × Opportunity)
listed now driver db [] = []
listed now driver db (o ∷ t) =
    let rest = listed now driver db t in
    elim (find (is_ride o.ride_request_id) db.rides) [
      | none ↦ rest
      | some r ↦ if is_listable now driver db r then (r, o) ∷ rest else rest
    ]

-- The loop over the rows: a NULL fare stops it.
unfoldable pub scan_items :
    (Location → Float) → List (Ride × Opportunity) → Result DiscoveryError (List DiscoveryItem)
scan_items away [] = ok []
scan_items away ((r, o) ∷ t) = do
  fare ← or_fail (proposal r) null_fare
  rest ← scan_items away t
  ok (item_of away r o fare ∷ rest)

abbrev pub is_row_nearer : (Location → Float) → Ride × Opportunity → Ride × Opportunity → Bool
is_row_nearer away a b = is_nearer away a.0 b.0

unfoldable pub list_open :
    (Location → Location → Float) → ℕ → ℕ → ℕ → Db → Result DiscoveryError (List DiscoveryItem)
list_open distance now driver limit db =
    let away = distance_to distance driver db in
    scan_items away (
      take limit (
        sort_by (is_row_nearer away)
          (listed now driver db (select (is_visible_of now driver) db.opportunities))))

-- `Expire` is statements 0 to 5, LoadTimingPolicy is 6, the INSERT 7 and the SELECT 8.
unfoldable pub discover :
    (Location → Location → Float)
    → Clock
    → ℕ
    → ℕ
    → Db
    → Result DiscoveryError (List DiscoveryItem × Db)
discover distance c driver limit db = do
  let db₀ = expire c 0 db
  policy ← or_fail db₀.timing_policy no_policy
  let db₁ = open_windows distance (c.at 7) driver limit policy db₀
  items ← list_open distance (c.at 8) driver limit db₁
  ok (items, db₁)

-- DiscoveryLimit, which Service.Discover passes on.
abbrev pub discovery_limit : ℕ
discovery_limit = 50

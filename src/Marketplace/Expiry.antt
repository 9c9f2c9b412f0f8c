-- ===== src/Marketplace/Expiry.antt =====
-- lifecycle.go: `Expire` brings the stored statuses up to date with the deadlines, in six UPDATE
-- statements. Statement number `k` of a transaction runs at the time `c.at k`; `Expire` is called
-- with the number of its first one.
pub mod Effects
pub mod Idempotent
pub mod Frame
use uber_clone.Common.{
  ℕ, ◌+◌, Bool, true, false, ◌&&◌, ◌||◌, not, Option, some, List, ◌==◌, leb, coalesce,
}
use uber_clone.Common.Table.{exists, update_where}
use uber_clone.Store.{
  Db, Ride, RideStatus, Trip, Offer, OfferStatus, Opportunity, OpportunityStatus, Clock,
}

abbrev pub is_pending : OfferStatus → Bool
is_pending OfferStatus.pending = true
is_pending _ = false

abbrev pub is_expired_offer : OfferStatus → Bool
is_expired_offer OfferStatus.expired = true
is_expired_offer _ = false

abbrev pub is_open : OpportunityStatus → Bool
is_open OpportunityStatus.open_ = true
is_open _ = false

abbrev pub is_offered : OpportunityStatus → Bool
is_offered OpportunityStatus.offered = true
is_offered _ = false

-- status IN ('open', 'offered')
abbrev pub is_live : OpportunityStatus → Bool
is_live OpportunityStatus.open_ = true
is_live OpportunityStatus.offered = true
is_live _ = false

abbrev pub is_requested : RideStatus → Bool
is_requested RideStatus.requested = true
is_requested _ = false

-- status IN ('accepted', 'cancelled', 'expired')
abbrev pub is_over : RideStatus → Bool
is_over RideStatus.requested = false
is_over _ = true

-- The rows of one ride, and of one ride and Driver.
abbrev pub is_ride : ℕ → Ride → Bool
is_ride ride r = r.id == ride

abbrev pub has_trip : ℕ → List Trip → Bool
has_trip ride = exists (λ t. t.ride_request_id == ride)

abbrev pub is_offer_of : ℕ → ℕ → Offer → Bool
is_offer_of ride driver o = (o.ride_request_id == ride) && (o.driver_user_id == driver)

abbrev pub is_opportunity_of : ℕ → ℕ → Opportunity → Bool
is_opportunity_of ride driver o = (o.ride_request_id == ride) && (o.driver_user_id == driver)

-- UPDATE ride_offers SET status, decided_at, updated_at
abbrev pub decide : OfferStatus → ℕ → Offer → Offer
decide status now o = record o { status = status; decided_at = some now; updated_at = now }

-- UPDATE driver_ride_request_opportunities SET status, responded_at, where a response that is
-- there stays.
abbrev pub respond : OpportunityStatus → ℕ → Opportunity → Opportunity
respond status now o = record o {
  status = status;
  responded_at = some (coalesce o.responded_at now);
}

abbrev pub is_late_offer : ℕ → Offer → Bool
is_late_offer now o = is_pending o.status && leb o.expires_at now

abbrev pub offer_has_expired : List Offer → Opportunity → Bool
offer_has_expired offers o =
    is_offered o.status
    && exists
        (λ ro. is_offer_of o.ride_request_id o.driver_user_id ro && is_expired_offer ro.status)
        offers

abbrev pub is_late_opportunity : ℕ → Opportunity → Bool
is_late_opportunity now o = is_open o.status && leb o.visible_until now

abbrev pub is_late_ride : ℕ → List Trip → Ride → Bool
is_late_ride now trips r =
    is_requested r.status && leb r.expires_at now && not (has_trip r.id trips)

abbrev pub ride_is_over : ℕ → List Ride → Bool
ride_is_over ride = exists (λ r. is_ride ride r && is_over r.status)

abbrev pub is_stray_offer : List Ride → Offer → Bool
is_stray_offer rides o = is_pending o.status && ride_is_over o.ride_request_id rides

abbrev pub is_stray_opportunity : List Ride → Opportunity → Bool
is_stray_opportunity rides o = is_live o.status && ride_is_over o.ride_request_id rides

abbrev pub set_expired : Ride → Ride
set_expired r = record r { status = RideStatus.expired }

abbrev pub end_window : ℕ → Opportunity → Opportunity
end_window now o = record o { status = OpportunityStatus.window_expired; responded_at = some now }

expire_offers : ℕ → Db → Db
expire_offers now db = record db {
  offers = update_where (is_late_offer now) (decide OfferStatus.expired now) db.offers;
}

end_expired_offers : ℕ → Db → Db
end_expired_offers now db = record db {
  opportunities =
      update_where (offer_has_expired db.offers) (respond OpportunityStatus.offer_expired now)
        db.opportunities;
}

end_windows : ℕ → Db → Db
end_windows now db = record db {
  opportunities = update_where (is_late_opportunity now) (end_window now) db.opportunities;
}

expire_rides : ℕ → Db → Db
expire_rides now db = record db {
  rides = update_where (is_late_ride now db.trips) set_expired db.rides;
}

close_offers : ℕ → Db → Db
close_offers now db = record db {
  offers = update_where (is_stray_offer db.rides) (decide OfferStatus.closed now) db.offers;
}

close_opportunities : ℕ → Db → Db
close_opportunities now db = record db {
  opportunities =
      update_where (is_stray_opportunity db.rides) (respond OpportunityStatus.closed now)
        db.opportunities;
}

unfoldable pub expire : Clock → ℕ → Db → Db
unfolding expire_offers end_expired_offers end_windows expire_rides close_offers close_opportunities
expire c k db =
    let db₁ = expire_offers (c.at k) db in
    let db₂ = end_expired_offers (c.at (k + 1)) db₁ in
    let db₃ = end_windows (c.at (k + 2)) db₂ in
    let db₄ = expire_rides (c.at (k + 3)) db₃ in
    let db₅ = close_offers (c.at (k + 4)) db₄ in close_opportunities (c.at (k + 5)) db₅

-- ExpiryService.Sweep runs the statements outside a transaction of its own.
unfoldable pub sweep : Clock → Db → Db
sweep c db = expire c 0 db

-- ===== src/Offer/RiderList/Compared.antt =====
-- What a Rider is shown: offers that can still be answered, those that can be selected first.
use uber_clone.Common.{
  ℕ, ◌≡◌, Bool, true, false, ◌&&◌, not, some, List, [], ◌∷◌, ◌==◌, arith, All, ltb, is_some, ok,
  Bool-cases, Option-cases, inl, inr,
}
use uber_clone.Common.Float.{Float}
use uber_clone.Common.Table.{find, select, All-select}
use uber_clone.Common.Order.{IsSorted, sort_by-IsSorted_coarse, All-sort_by}
use uber_clone.Store.{Db, Ride, Offer, Location}
use uber_clone.Marketplace.Expiry.{is_offered, is_requested, is_ride, has_trip, is_opportunity_of}
use uber_clone.Offer.{proposal}
use uber_clone.Offer.RiderList.{
  RiderOffer, is_comparable, rider_offers, is_better_offer, second_query, list_for_rider,
}

-- The offers that can be selected come first.
abbrev pub is_selectable_first : RiderOffer → RiderOffer → Bool
is_selectable_first a b = a.selectable && not b.selectable

better_later : (a b : RiderOffer) → is_better_offer a b ≡ true → is_selectable_first b a ≡ false
better_later a b h = ground arith

worse_sooner : (a b : RiderOffer) → is_better_offer a b ≡ false → is_selectable_first a b ≡ false
worse_sooner a b h = ground arith

first_step :
    (a b c : RiderOffer)
    → is_selectable_first b a ≡ false
    → is_selectable_first c b ≡ false
    → is_selectable_first c a ≡ false
first_step a b c h k = ground arith

All-rider_offers :
    (distance : Location → Location → Float) (now ride : ℕ) (db : Db) (r : Ride) (t : List Offer)
    → All (λ o. is_comparable now ride o ≡ true) t
    → All (λ i. is_comparable now ride i.offer ≡ true) (rider_offers distance now db r t)
unfolding rider_offers
All-rider_offers distance now ride db r [] a = tt
All-rider_offers distance now ride db r (o ∷ t) a =
    let rest = All-rider_offers distance now ride db r t a.1 in
    elim (Option-cases
      (find (is_opportunity_of o.ride_request_id o.driver_user_id) db.opportunities)) [
        | inl e ↦ rw (e, rider_offers) rest
        | inr (p, e) ↦ elim (Bool-cases (is_offered p.status)) [
          | inl f ↦ rw (e, f, rider_offers) (a.0, rest)
          | inr f ↦ rw (e, f, rider_offers) rest
        ]
      ]

second_query-IsSorted :
    (distance : Location → Location → Float) (now ride rider : ℕ) (db : Db)
    → IsSorted is_selectable_first (second_query distance now ride rider db)
      × All (λ i. is_comparable now ride i.offer ≡ true) (second_query distance now ride rider db)
unfolding second_query
second_query-IsSorted distance now ride rider db =
    elim (Option-cases (find (λ r. is_ride ride r && r.rider_user_id == rider) db.rides)) [
      | inl e ↦ rw (e, second_query) (tt, tt)
      | inr (r, e) ↦
          let visible =
            is_requested r.status
            && ltb now r.expires_at
            && is_some (proposal r)
            && not (has_trip ride db.trips) in
          elim (Bool-cases visible) [
            | inr f ↦ rw (e, f, second_query) (tt, tt)
            | inl f ↦
                let rows =
                  rider_offers distance now db r (select (is_comparable now ride) db.offers) in
                rw (e, f, second_query)
                  (
                    sort_by-IsSorted_coarse is_better_offer is_selectable_first better_later
                        worse_sooner first_step rows,
                    All-sort_by is_better_offer (λ i. is_comparable now ride i.offer ≡ true) rows
                        (All-rider_offers distance now ride db r
                          (select (is_comparable now ride) db.offers)
                          (All-select (is_comparable now ride) db.offers)),
                  )
          ]
    ]

-- Where ListForRider succeeds, the request was the Rider's, requested, before its deadline and
-- without a Trip; each offer that is listed is a pending one for the request and not past its
-- deadline; and those that can be selected stand before those that cannot.
pub list_for_rider-IsSorted :
    (distance : Location → Location → Float) (now later ride rider : ℕ) (db db' : Db)
    {items : List RiderOffer}
    → list_for_rider distance now later ride rider db db' ≡ ok items
    → IsSorted is_selectable_first items
      × All (λ i. is_comparable later ride i.offer ≡ true) items
      × (has_trip ride db.trips ≡ false)
      × (r : Ride) × (find (λ r. is_ride ride r && r.rider_user_id == rider) db.rides ≡ some r)
      × (is_requested r.status ≡ true)
      × (ltb now r.expires_at ≡ true)
unfolding list_for_rider
list_for_rider-IsSorted distance now later ride rider db db' {items} h =
    elim (Option-cases (find (λ r. is_ride ride r && r.rider_user_id == rider) db.rides)) [
      | inl e ↦ absurd (ground arith)
      | inr (r, e) ↦
          let same : second_query distance later ride rider db' ≡ items = ground arith in
          let (sorted, listed) = second_query-IsSorted distance later ride rider db' in
          (rw⁻¹ same sorted, rw⁻¹ same listed, ground arith, r, e, ground arith, ground arith)
    ]

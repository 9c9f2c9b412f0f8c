-- ===== src/Offer/Discovery/Tests.antt =====
-- Tests of what Drivers and Riders are shown.
use uber_clone.Common.{
  ◌+◌, ◌≤◌, ◌≡◌, refl, true, false, ◌&&◌, ◌==◌, ltb, some, [], ◌∷◌, All, length, ok,
}
use uber_clone.Common.Int.{pos}
use uber_clone.Common.Float.{Float, finite}
use uber_clone.Common.Text.{codes, text_eq}
use uber_clone.Common.Table.{find, count_where}
use uber_clone.Common.Order.{sort_by, insert_by, IsSorted}
use uber_clone.Store.{Ride, RideStatus, OpportunityStatus, Location, Clock}
use uber_clone.Marketplace.Expiry.{expire, is_requested, is_ride, has_trip}
use uber_clone.Driver.Eligibility.{is_available}
use uber_clone.Offer.Discovery.{
  DiscoveryItem, discover, open_windows, list_open, listed, scan_items, is_listable,
  is_discoverable, item_of, is_visible_of, discovery_limit,
}
use uber_clone.Offer.Discovery.Shown.{IsOpenItem, discover-IsOpenItem}
use uber_clone.Offer.RiderList.{
  RiderOffer, rider_offer, rider_offers, is_selectable, is_comparable, second_query, list_for_rider,
}
use uber_clone.Offer.RiderList.Compared.{is_selectable_first, list_for_rider-IsSorted}
use uber_clone.Sample.{sample, a_ride, an_offer, an_opportunity}

abbrev flat : Location → Location → Float
flat a b = finite (pos 0)

abbrev ticks : Clock
ticks = record { started = 10000000; at = λ k. 10000000 + k }

abbrev an_item : DiscoveryItem
an_item =
    item_of (λ l. finite (pos 0)) (a_ride 1 10 RideStatus.requested)
      (an_opportunity 23 OpportunityStatus.open_) (pos 50000, codes "PKR")

discovers : discover flat ticks 23 discovery_limit sample ≡ ok (an_item ∷ [], sample)
unfolding discover expire list_open scan_items sort_by listed open_windows is_listable text_eq
    insert_by is_discoverable is_available
discovers = refl

discover-IsOpenItem_example :
    (length (an_item ∷ []) ≤ 50)
    × All (IsOpenItem 10000008 sample) (an_item ∷ [])
    × (count_where (is_visible_of 10000007 23) (expire ticks 0 sample).opportunities ≤ 50
        → count_where (is_visible_of 10000007 23) sample.opportunities ≤ 50)
discover-IsOpenItem_example = discover-IsOpenItem flat ticks 23 50 sample discovers

abbrev first_offer : RiderOffer
first_offer =
    rider_offer flat 10000000 sample (a_ride 1 10 RideStatus.requested) (an_offer 20)
      (an_opportunity 20 OpportunityStatus.offered)

abbrev second_offer : RiderOffer
second_offer =
    rider_offer flat 10000000 sample (a_ride 1 10 RideStatus.requested) (an_offer 21)
      (an_opportunity 21 OpportunityStatus.offered)

lists :
    list_for_rider flat 9999999 10000000 1 10 sample sample ≡ ok (first_offer ∷ second_offer ∷ [])
unfolding list_for_rider second_query sort_by rider_offers insert_by is_selectable is_available
    text_eq
lists = refl

list_for_rider-IsSorted_example :
    IsSorted is_selectable_first (first_offer ∷ second_offer ∷ [])
    × All (λ i. is_comparable 10000000 1 i.offer ≡ true) (first_offer ∷ second_offer ∷ [])
    × (has_trip 1 sample.trips ≡ false)
    × (r : Ride) × (find (λ r. is_ride 1 r && r.rider_user_id == 10) sample.rides ≡ some r)
    × (is_requested r.status ≡ true)
    × (ltb 9999999 r.expires_at ≡ true)
list_for_rider-IsSorted_example =
    list_for_rider-IsSorted flat 9999999 10000000 1 10 sample sample lists

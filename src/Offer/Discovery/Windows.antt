-- ===== src/Offer/Discovery/Windows.antt =====
-- How many windows a Driver has open.
use uber_clone.Common.{ℕ, ◌-◌, ◌≤◌, ◌≡◌, refl, List, [], ◌∷◌, arith, take, length, length-take}
use uber_clone.Common.Float.{Float}
use uber_clone.Common.Table.{select, count_where, count_where-append, count_where-le-length}
use uber_clone.Common.Order.{sort_by}
use uber_clone.Store.{Db, Ride, Location, TimingPolicy}
use uber_clone.Offer.Discovery.{
  distance_to, is_nearer, is_discoverable, is_visible_of, opportunities_for, open_windows,
}

length-opportunities_for :
    (now driver : ℕ) (policy : TimingPolicy) (t : List Ride)
    → length (opportunities_for now driver policy t) ≡ length t
length-opportunities_for now driver policy [] = refl
length-opportunities_for now driver policy (r ∷ t) =
    omega (arith, length-opportunities_for now driver policy t)

-- The windows that are open and not yet over, before and after the INSERT.
pub open_windows-limit :
    (distance : Location → Location → Float) (now driver limit : ℕ) (policy : TimingPolicy)
    (db : Db)
    → count_where (is_visible_of now driver) db.opportunities ≤ limit
    → count_where
        (is_visible_of now driver)
        (open_windows distance now driver limit policy db).opportunities
      ≤ limit
unfolding open_windows
open_windows-limit distance now driver limit policy db few =
    let p = is_visible_of now driver in
    let sorted =
      sort_by (is_nearer (distance_to distance driver db))
        (select (is_discoverable now driver db) db.rides) in
    let rides = take (limit - count_where p db.opportunities) sorted in
    let new = opportunities_for now driver policy rides in
    let total = count_where-append p db.opportunities new in
    let added = count_where-le-length p new in
    let size = length-opportunities_for now driver policy rides in
    let cut = length-take (limit - count_where p db.opportunities) sorted in
    omega (arith, few, total, added, size, cut)

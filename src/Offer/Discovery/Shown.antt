-- ===== src/Offer/Discovery/Shown.antt =====
-- What a Driver is shown: how much, and that it is open.
use uber_clone.Common.{
  and_left, ℕ, ◌≤◌, ◌≡◌, refl, subst, Bool, true, false, ◌&&◌, some, List, [], ◌∷◌, arith, take,
  length, length-take, All, All-take, ltb, ok, >>=-eq-ok, or_fail, Bool-cases, Option-cases, inl,
  inr,
}
use uber_clone.Common.Int.{ℤ}
use uber_clone.Common.Float.{Float}
use uber_clone.Common.Text.{Text}
use uber_clone.Common.Table.{find, select, count_where, All-select, find-strengthen, find_sound}
use uber_clone.Common.Order.{sort_by, All-sort_by}
use uber_clone.Store.{Db, Ride, Opportunity, Location, TimingPolicy, Clock}
use uber_clone.Marketplace.Expiry.{expire, is_requested, is_ride, has_trip}
use uber_clone.Offer.{Market, proposal, market}
use uber_clone.Offer.Discovery.{
  DiscoveryItem, DiscoveryError, distance_to, is_visible_of, open_windows, is_listable, item_of,
  listed, scan_items, is_row_nearer, list_open, discover,
}
use uber_clone.Offer.Discovery.Windows.{open_windows-limit}

length-scan_items :
    (away : Location → Float) (t : List (Ride × Opportunity)) {items : List DiscoveryItem}
    → scan_items away t ≡ ok items
    → length items ≡ length t
unfolding scan_items
length-scan_items away [] h = ground arith
length-scan_items away ((r, o) ∷ t) h =
    let (fare, _, h₁) = >>=-eq-ok (or_fail (proposal r) DiscoveryError.null_fare) _ h in
    let (rest, e, h₂) = >>=-eq-ok (scan_items away t) _ h₁ in
    ground (arith, length-scan_items away t e)

discover-inv :
    (distance : Location → Location → Float) (c : Clock) (driver limit : ℕ) (db : Db)
    {items : List DiscoveryItem} {db' : Db}
    → discover distance c driver limit db ≡ ok (items, db')
    → (policy : TimingPolicy) × (db'
        ≡ open_windows distance (c.at 7) driver limit policy (expire c 0 db))
      × (list_open distance (c.at 8) driver limit db' ≡ ok items)
unfolding discover
discover-inv distance c driver limit db {items} {db'} h =
    let (policy, _, h₁) =
      >>=-eq-ok (or_fail (expire c 0 db).timing_policy DiscoveryError.no_policy) _ h in
    let (found_, e, h₂) =
      >>=-eq-ok
        (list_open distance (c.at 8) driver limit
          (open_windows distance (c.at 7) driver limit policy (expire c 0 db)))
        _ h₁ in
    let same : db' ≡ open_windows distance (c.at 7) driver limit policy (expire c 0 db) =
      ground arith in
    let answer : found_ ≡ items = ground arith in (policy, same, rw same (rw answer at e))

-- What holds of every row that is scanned holds, with its fare, of every item.
All-scan_items :
    (away : Location → Float) (P : Ride × Opportunity → Type 0) (Q : DiscoveryItem → Type 0)
    → ((r : Ride) (o : Opportunity) (fare : ℤ × Text)
        → proposal r ≡ some fare
        → P (r, o)
        → Q (item_of away r o fare))
    → (t : List (Ride × Opportunity)) {items : List DiscoveryItem} → scan_items away t ≡ ok items
    → All P t
    → All Q items
unfolding scan_items
All-scan_items away P Q keep [] {items} h a =
    let none_ : [] ≡ items = ground arith in subst (All Q) none_ tt
All-scan_items away P Q keep ((r, o) ∷ t) {items} h a =
    let (fare, known, h₁) = >>=-eq-ok (or_fail (proposal r) DiscoveryError.null_fare) _ h in
    let (rest, e, h₂) = >>=-eq-ok (scan_items away t) _ h₁ in
    let fare_is : proposal r ≡ some fare = ground arith in
    let same : item_of away r o fare ∷ rest ≡ items = ground arith in
    subst (All Q) same (keep r o fare fare_is a.0, All-scan_items away P Q keep t e a.1)

-- A listed row: the request of the opportunity, which is listable, and a window that is not over.
abbrev IsListed : ℕ → ℕ → Db → Ride × Opportunity → Type 0
IsListed now driver db x =
    (find (is_ride x.1.ride_request_id) db.rides ≡ some x.0)
    × (is_listable now driver db x.0 ≡ true)
    × (is_visible_of now driver x.1 ≡ true)

listed-IsListed :
    (now driver : ℕ) (db : Db) (t : List Opportunity)
    → All (λ o. is_visible_of now driver o ≡ true) t
    → All (IsListed now driver db) (listed now driver db t)
unfolding listed
listed-IsListed now driver db [] a = tt
listed-IsListed now driver db (o ∷ t) a =
    let rest = listed-IsListed now driver db t a.1 in
    elim (Option-cases (find (is_ride o.ride_request_id) db.rides)) [
      | inl e ↦ rw (e, listed) rest
      | inr (r, e) ↦ elim (Bool-cases (is_listable now driver db r)) [
        | inl f ↦ rw (e, f, listed) ((e, f, a.0), rest)
        | inr f ↦ rw (e, f, listed) rest
      ]
    ]

-- An item is open at the time `now`: neither deadline has passed, and the market that an offer for
-- it reads is open and has the fare that is shown.
pub record IsOpenItem (now : ℕ) (db : Db) (i : DiscoveryItem) : Type 0 where
  pub window : ltb now i.opportunity_expires_at ≡ true
  pub deadline : ltb now i.ride_expires_at ≡ true
  pub fare : market now i.ride_request_id db ≡ ok i.proposed_fare

is_listable-inv :
    (now driver : ℕ) (db : Db) (r : Ride)
    → is_listable now driver db r ≡ true
    → (is_requested r.status ≡ true)
      × (ltb now r.expires_at ≡ true)
      × (has_trip r.id db.trips ≡ false)
unfolding is_listable
is_listable-inv now driver db r h = (ground arith, ground arith, ground arith)

is_visible_of-inv :
    (now driver : ℕ) (o : Opportunity)
    → is_visible_of now driver o ≡ true
    → ltb now o.visible_until ≡ true
is_visible_of-inv now driver o h = ground arith

same_ride : (id : ℕ) (r : Ride) → is_ride id r ≡ true → id ≡ r.id
same_ride id r h = ground arith

listed-market :
    (now driver : ℕ) (db : Db) (away : Location → Float) (r : Ride) (o : Opportunity)
    (fare : ℤ × Text)
    → proposal r ≡ some fare
    → IsListed now driver db (r, o)
    → IsOpenItem now db (item_of away r o fare)
unfolding market
listed-market now driver db away r o fare known (row, listable, visible) =
    let (open_, early, free) = is_listable-inv now driver db r listable in
    let mine = find_sound (is_ride o.ride_request_id) db.rides row in
    let id = same_ride o.ride_request_id r mine in
    let q : Ride → Bool = λ x. is_ride o.ride_request_id x && ltb now x.expires_at in
    let narrow : find q db.rides ≡ some r =
      find-strengthen (is_ride o.ride_request_id) q db.rides
        (λ x m. and_left (is_ride o.ride_request_id x) (ltb now x.expires_at) m) row
        (rw (mine, early) refl) in
    let shown : Market = record {
      ride_request_id = r.id;
      proposed_amount_minor = fare.0;
      currency = fare.1;
    } in
    let free' : has_trip o.ride_request_id db.trips ≡ false = rw id free in
    let opened : market now o.ride_request_id db ≡ ok shown =
      rw (narrow, free', open_, known) refl in
    record {
      window = is_visible_of-inv now driver o visible;
      deadline = early;
      fare = subst (λ n. market now n db ≡ ok shown) id opened;
    }

-- Where Discover succeeds, it lists at most `limit` items, each of them open at the time of the
-- query: its window and its request are not over, and the market that an offer for it reads is open
-- and has the fare that is shown. A Driver who had at most `limit` windows open still has at most so
-- many after new ones are opened.
pub discover-IsOpenItem :
    (distance : Location → Location → Float) (c : Clock) (driver limit : ℕ) (db : Db)
    {items : List DiscoveryItem} {db' : Db}
    → discover distance c driver limit db ≡ ok (items, db')
    → (length items ≤ limit)
      × All (IsOpenItem (c.at 8) db') items
      × (count_where (is_visible_of (c.at 7) driver) (expire c 0 db).opportunities ≤ limit
          → count_where (is_visible_of (c.at 7) driver) db'.opportunities ≤ limit)
unfolding list_open
discover-IsOpenItem distance c driver limit db {items} {db'} h =
    let (policy, after, scanned) = discover-inv distance c driver limit db h in
    let away = distance_to distance driver db' in
    let visible = select (is_visible_of (c.at 8) driver) db'.opportunities in
    let rows = listed (c.at 8) driver db' visible in
    let sorted = sort_by (is_row_nearer away) rows in
    let open_rows = All-take (IsListed (c.at 8) driver db') limit sorted (
      All-sort_by (is_row_nearer away) (IsListed (c.at 8) driver db') rows (
        listed-IsListed (c.at 8) driver db' visible
          (All-select (is_visible_of (c.at 8) driver) db'.opportunities))) in
    let size = length-scan_items away (take limit sorted) scanned in
    let cut = length-take limit sorted in
    (
      omega (arith, size, cut),
      All-scan_items away (IsListed (c.at 8) driver db') (IsOpenItem (c.at 8) db')
          (listed-market (c.at 8) driver db' away) (take limit sorted) scanned open_rows,
      λ few.
          rw after (open_windows-limit distance (c.at 7) driver limit policy (expire c 0 db) few),
    )

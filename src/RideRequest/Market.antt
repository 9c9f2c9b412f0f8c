-- ===== src/RideRequest/Market.antt =====
-- A new ride request and the offers for it (RideRequest and Offer together).
use uber_clone.Common.{
  and_left, ℕ, ◌≤◌, ◌<◌, ◌≡◌, ◌≢◌, refl, ◌≢◌, Bool, true, false, ◌&&◌, Option, some, [], ◌∷◌, ◌++◌,
  ==_refl, arith, ok, err, inl, inr, ltb, lt→ltb,
}
use uber_clone.Common.Int.{ℤ, pos, negsuc, ltb_ℤ, leb_ℤ}
use uber_clone.Common.Text.{Text, Cases}
use uber_clone.Common.Table.{exists, find-append, exists-narrow}
use uber_clone.Store.{Db, Ride, PricingSnapshot, Clock}
use uber_clone.Marketplace.Expiry.{is_ride, has_trip}
use uber_clone.Offer.{Market, market_of, market, accept_proposed, amount_out_of_range}
use uber_clone.Offer.Once.{accept_proposed-in_range}
use uber_clone.Pricing.Calculate.{max_amount_minor}
use uber_clone.RideRequest.{CreateInput, Config, Money, currency_of, valid_money, create}
use uber_clone.RideRequest.Created.{IsStored, checked, create-IsStored}

-- The market that a request with the fare `m` opens.
abbrev pub market_for : Cases → ℕ → Money → Market
market_for u id m = record {
  ride_request_id = id;
  proposed_amount_minor = m.amount_minor;
  currency = currency_of u m;
}

-- What the two ways of storing have in common, as far as the market sees it.
record IsListed (u : Cases) (id : ℕ) (m : Money) (db : Db) (r : Ride) (db' : Db) : Type 0 where
  rides : db'.rides ≡ db.rides ++ r ∷ []
  trips : db'.trips ≡ db.trips
  row : (market_of r ≡ ok (market_for u id m)) × (r.id ≡ id)

IsStored-IsListed :
    (config : Config) (u : Cases) (parse_uuid : Text → Option ℕ) (seen : Db) (c : Clock)
    (at id user : ℕ) (input : CreateInput) (m : Money) (db : Db) {r : Ride}
    {s : Option PricingSnapshot} {db' : Db}
    → IsStored config parse_uuid seen c at id user (checked u input m) db r s db'
    → IsListed u id m db r db'
IsStored-IsListed config u parse_uuid seen c at id user input m db
      (inl (_, (t, _, row, _, _, after))) =
    record { rides = rw after refl; trips = rw after refl; row = rw row (refl, refl) }
IsStored-IsListed config u parse_uuid seen c at id user input m db (inr (_, _, p, priced)) =
    record {
      rides = rw priced.stored refl;
      trips = rw priced.stored refl;
      row = rw priced.row (refl, refl);
    }

listed-market :
    (u : Cases) (now id : ℕ) (m : Money) (db : Db) (r : Ride) (db' : Db)
    → exists (is_ride id) db.rides ≡ false
    → has_trip id db.trips ≡ false
    → now < r.expires_at
    → IsListed u id m db r db'
    → market now id db' ≡ ok (market_for u id m)
unfolding market
listed-market u now id m db r db' new free early l =
    let q : Ride → Bool = λ x. is_ride id x && ltb now x.expires_at in
    let fresh : exists q db.rides ≡ false =
      exists-narrow (is_ride id) q db.rides (λ x. and_left (is_ride id x) (ltb now x.expires_at))
        new in
    let mine : is_ride id r ≡ true = rw l.row.1 (==_refl id) in
    rw
      (
        l.rides,
        l.trips,
        free,
        find-append q db.rides (r ∷ []) fresh,
        mine,
        lt→ltb now r.expires_at early,
      )
      l.row.0

-- A request that Create has stored under a new identifier opens a market until its deadline: the
-- Drivers see the Rider's fare, which is positive and at most the largest amount, in the Rider's
-- currency.
pub create-market :
    (config : Config) (u : Cases) (parse_uuid : Text → Option ℕ) (seen : Db) (c : Clock)
    (at id user now : ℕ) (input : CreateInput) (db : Db) {r : Ride} {s : Option PricingSnapshot}
    {db' : Db}
    → exists (is_ride id) db.rides ≡ false
    → has_trip id db.trips ≡ false
    → create config u parse_uuid seen c at id user input db ≡ ok (r, s, db')
    → now < r.expires_at
    → (m : Money) × (input.proposed_fare ≡ some m)
      × (valid_money u m ≡ true)
      × (market now id db' ≡ ok (market_for u id m))
create-market config u parse_uuid seen c at id user now input db new free h early =
    let (m, valid, stored) = create-IsStored config u parse_uuid seen c at id user input db h in
    (
      m,
      valid.fare,
      valid.valid_fare,
      listed-market u now id m db _ _ new free early
          (IsStored-IsListed config u parse_uuid seen c at id user input m db stored),
    )

in_range :
    (a : ℤ)
    → leb_ℤ a (pos 0) ≡ false
    → ltb_ℤ (pos max_amount_minor) a ≡ false
    → (p : ℕ) × (a ≡ pos p) × (p ≤ max_amount_minor)
in_range (pos p) h k = (p, refl, ground arith)
in_range (negsuc p) h k = absurd (ground arith)

valid_amount :
    (u : Cases) (m : Money)
    → valid_money u m ≡ true
    → (p : ℕ) × (m.amount_minor ≡ pos p) × (p ≤ max_amount_minor)
unfolding valid_money
valid_amount u m h = in_range m.amount_minor (ground arith) (ground arith)

-- Where Create has stored a request under a new identifier, a Driver who accepts its fare before the
-- deadline is never told that the amount is out of range.
create-accept_in_range :
    (config : Config) (u : Cases) (parse_uuid : Text → Option ℕ) (seen : Db) (c : Clock)
    (at id user now : ℕ) (input : CreateInput) (db : Db) {r : Ride} {s : Option PricingSnapshot}
    {db' : Db}
    → exists (is_ride id) db.rides ≡ false
    → has_trip id db.trips ≡ false
    → create config u parse_uuid seen c at id user input db ≡ ok (r, s, db')
    → now < r.expires_at
    → (c' : Clock) (driver : ℕ) (later : Db)
    → accept_proposed now db' c' id driver later ≢ err amount_out_of_range
create-accept_in_range config u parse_uuid seen c at id user now input db {db'} new free h early c'
      driver later =
    let (m, fare, valid, open_) =
      create-market config u parse_uuid seen c at id user now input db new free h early in
    let (p, amount, small) = valid_amount u m valid in
    accept_proposed-in_range now db' c' id driver p later (λ x e. cc (e, open_, amount))
      (omega (arith, small))

-- ===== src/RideRequest/Created.antt =====
-- What a Rider's accepted request means and stores.
use uber_clone.Common.{
  ℕ, ◌+◌, ◌*◌, ◌≡◌, refl, true, false, not, Option, none, some, [], ◌∷◌, ◌++◌, arith, ok, >>=-eq-ok,
  fail_if, Bool-cases, Option-cases, Result-cases, inl, inr, ◌⊎◌,
}
use uber_clone.Common.Text.{Text, Cases, to_lower, trim_space, text_eq→eq}
use uber_clone.Common.Int.{pos_part}
use uber_clone.Store.{Db, Ride, Policy, PricingSnapshot, TimingPolicy, Clock}
use uber_clone.Pricing.Calculate.{unavailable, pkr}
use uber_clone.Pricing.Publication.{lock_current}
use uber_clone.RideRequest.{
  pricing, Money, CreateInput, Config, valid_location, valid_money, currency_of, checked_input,
  service_or_economy, new_ride, add_ride, create_unpriced, snapshot_of, is_pkr, create_priced_in_tx,
  create_priced, store_request, create, fare_currency,
}

-- The input that Service.Create passes on, for a valid fare `m`.
abbrev pub checked : Cases → CreateInput → Money → CreateInput
checked u input m = record input {
  service_code = service_or_economy (to_lower u (trim_space input.service_code));
  proposed_fare = some (record { amount_minor = m.amount_minor; currency = currency_of u m });
}

-- When Service.Create passes the input on.
pub record IsValidInput (u : Cases) (input : CreateInput) (m : Money) : Type 0 where
  pub pickup : valid_location input.pickup ≡ true
  pub destination : valid_location input.destination ≡ true
  pub fare : input.proposed_fare ≡ some m
  pub valid_fare : valid_money u m ≡ true

checked_input-inv :
    (u : Cases) (input : CreateInput) {input' : CreateInput}
    → checked_input u input ≡ ok input'
    → (m : Money) × IsValidInput u input m × (input' ≡ checked u input m)
unfolding checked_input
checked_input-inv u input h = elim (Option-cases input.proposed_fare) [
  | inl e ↦ absurd (ground arith)
  | inr (m, e) ↦ (m, ground arith, ground arith)
]

-- So many seconds after an instant, which counts microseconds.
abbrev pub deadline : ℕ → TimingPolicy → ℕ
deadline now timing = now + pos_part timing.ride_request_ttl_seconds * 1000000

-- A request that is stored with no policy, or with a snapshot of the current one.
abbrev pub IsUnpriced :
    Db → Clock → ℕ → ℕ → CreateInput → Db → Ride → Option PricingSnapshot → Db → Type 0
IsUnpriced seen c id user input db r s db' =
    (timing : TimingPolicy) × (seen.timing_policy ≡ some timing)
    × (r ≡ new_ride c 0 id user input timing)
    × (r.expires_at ≡ deadline (c.at 0) timing)
    × (s ≡ none)
    × (db' ≡ add_ride r db)

pub record IsPriced (parse_uuid : Text → Option ℕ) (c : Clock) (at id user : ℕ)
    (input : CreateInput) (db : Db) (p : Policy) (r : Ride) (s : Option PricingSnapshot) (db' : Db)
    : Type 0 where
  pub in_pkr : r.currency ≡ some pkr
  pub is_current : lock_current input.service_code pkr db ≡ ok p
  pub was_seen : parse_uuid input.pricing_policy_version ≡ some p.id
  pub timing : TimingPolicy
  pub current_timing : db.timing_policy ≡ some timing
  pub row : r ≡ new_ride c 4 id user input timing
  pub in_time : r.expires_at ≡ deadline (c.at 4) timing
  pub snapshot : s ≡ some (snapshot_of id at p)
  pub stored : db' ≡ record (add_ride r db) { snapshots = db.snapshots ++ snapshot_of id at p ∷ [] }

create_unpriced-inv :
    (seen : Db) (c : Clock) (id user : ℕ) (input : CreateInput) (db : Db) {r : Ride}
    {s : Option PricingSnapshot} {db' : Db}
    → create_unpriced seen c id user input db ≡ ok (r, s, db')
    → IsUnpriced seen c id user input db r s db'
unfolding create_unpriced
create_unpriced-inv seen c id user input db h = elim (Option-cases seen.timing_policy) [
  | inl e ↦ absurd (ground arith)
  | inr (timing, e) ↦ (timing, e, ground arith, ground arith, ground arith, ground arith)
]

same_currency : (f : Option Money) → is_pkr f ≡ true → fare_currency f ≡ some pkr
same_currency none h = cc
same_currency (some m) h = rw (text_eq→eq m.currency pkr h) refl

create_priced_in_tx-inv :
    (parse_uuid : Text → Option ℕ) (c : Clock) (at id user : ℕ) (input : CreateInput) (db : Db)
    {r : Ride} {s : Option PricingSnapshot} {db' : Db}
    → create_priced_in_tx parse_uuid c at id user input db ≡ ok (r, s, db')
    → (p : Policy) × IsPriced parse_uuid c at id user input db p r s db'
unfolding create_priced_in_tx
create_priced_in_tx-inv parse_uuid c at id user input db {r} {s} {db'} h =
    elim (Result-cases (lock_current input.service_code pkr db)) [
      | inr (e, f) ↦ absurd (ground arith)
      | inl (p, f) ↦ elim (Option-cases (parse_uuid input.pricing_policy_version)) [
        | inl e ↦ absurd (ground arith)
        | inr (expected, e) ↦ elim (Option-cases db.timing_policy) [
          | inl g ↦ absurd (ground arith)
          | inr (timing, g) ↦
              let in_rupees : is_pkr input.proposed_fare ≡ true = ground arith in
              let same : r ≡ new_ride c 4 id user input timing = ground arith in
              let currency = same_currency input.proposed_fare in_rupees in
              (
                p,
                record {
                  in_pkr = rw same currency;
                  is_current = f;
                  was_seen = ground arith;
                  timing = timing;
                  current_timing = g;
                  row = same;
                  in_time = ground arith;
                  snapshot = ground arith;
                  stored = ground arith;
                },
              )
        ]
      ]
    ]

-- What Create has stored, without pricing or with it.
abbrev pub IsStored :
    Config
    → (Text → Option ℕ)
    → Db
    → Clock
    → ℕ
    → ℕ
    → ℕ
    → CreateInput
    → Db
    → Ride
    → Option PricingSnapshot
    → Db
    → Type 0
IsStored config parse_uuid seen c at id user input db r s db' =
    ((config.pricing_required ≡ false) × IsUnpriced seen c id user input db r s db')
    ⊎ ((config.pricing_required ≡ true)
        × (config.pricing_configured ≡ true)
        × (p : Policy) × IsPriced parse_uuid c at id user input db p r s db')

store_request-IsStored :
    (config : Config) (parse_uuid : Text → Option ℕ) (seen : Db) (c : Clock) (at id user : ℕ)
    (input : CreateInput) (db : Db) {r : Ride} {s : Option PricingSnapshot} {db' : Db}
    → store_request config parse_uuid seen c at id user input db ≡ ok (r, s, db')
    → IsStored config parse_uuid seen c at id user input db r s db'
unfolding store_request create_priced
store_request-IsStored config parse_uuid seen c at id user input db h =
    elim (Bool-cases config.pricing_required) [
      | inl e ↦
          let (_, _, priced) =
            >>=-eq-ok (fail_if (not config.pricing_configured) (pricing unavailable)) _
              (rw e at h) in
          let (p, stored) = create_priced_in_tx-inv parse_uuid c at id user input db priced in
          inr (e, ground arith, p, stored)
      | inr e ↦ inl (e, create_unpriced-inv seen c id user input db (rw e at h))
    ]

-- Where Create succeeds, both places are on the globe and the fare is positive, at most the largest
-- amount and in a currency of three capital letters. The row that is added is the answered request;
-- it has the trimmed input, and its deadline is the time of the insertion plus the seconds that the
-- stored timing policy gives to a request, as read before the insertion. Where pricing is required,
-- the fare is in rupees, the Rider saw the policy that is current for the service, and the request
-- is stored with a snapshot of it.
pub create-IsStored :
    (config : Config) (u : Cases) (parse_uuid : Text → Option ℕ) (seen : Db) (c : Clock)
    (at id user : ℕ) (input : CreateInput) (db : Db) {r : Ride} {s : Option PricingSnapshot}
    {db' : Db}
    → create config u parse_uuid seen c at id user input db ≡ ok (r, s, db')
    → (m : Money) × IsValidInput u input m
      × IsStored config parse_uuid seen c at id user (checked u input m) db r s db'
unfolding create
create-IsStored config u parse_uuid seen c at id user input db h =
    let (input', e, stored) = >>=-eq-ok (checked_input u input) _ h in
    let (m, valid, same) = checked_input-inv u input e in
    (
      m,
      valid,
      store_request-IsStored config parse_uuid seen c at id user (checked u input m) db
          (rw same at stored),
    )

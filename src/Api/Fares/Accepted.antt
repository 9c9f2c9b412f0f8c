-- ===== src/Api/Fares/Accepted.antt =====
-- What is left of the check of a suggested fare for a request with the fare of a preview.
use uber_clone.Common.{
  ℕ, ◌≡◌, ◌≢◌, refl, true, false, not, ◌||◌, Option, some, ok, err, >>=-eq-ok, fail_if, arith,
  ==_refl,
}
use uber_clone.Common.Int.{ℤ, pos, leb_ℤ, ltb_ℤ}
use uber_clone.Common.Text.{Text, text_eq, trim_space, is_empty}
use uber_clone.Store.{Db, Policy}
use uber_clone.Pricing.Calculate.{
  invalid_policy, invalid_route, calculate, validate, draft_of, half_up_once, bounded_fare,
  max_amount_minor, pkr,
}
use uber_clone.Routing.{Route, Endpoint, preview}
use uber_clone.Routing
use uber_clone.RideRequest.{CreateInput, Money}
use uber_clone.Http.{Request}
use uber_clone.Api.Fares.{
  Services, current_pkr, validate_suggested_fare, validate_places, priced_route, same_fare,
  suggested_fare_changed,
}

minimum-positive :
    (p : Policy) → validate (draft_of p) ≡ ok tt → leb_ℤ p.minimum_fare_minor (pos 0) ≡ false
unfolding validate
minimum-positive p h = ground arith

validate-pkr : (p : Policy) → validate (draft_of p) ≡ ok tt → text_eq p.currency pkr ≡ true
unfolding validate
validate-pkr p h = ground arith

bounded-fit :
    (minimum rounded : ℤ) {amount : ℤ}
    → leb_ℤ minimum (pos 0) ≡ false
    → bounded_fare minimum rounded ≡ ok amount
    → (leb_ℤ amount (pos 0) ≡ false) × (ltb_ℤ (pos max_amount_minor) amount ≡ false)
unfolding bounded_fare
bounded-fit minimum rounded e h = (ground arith, ground arith)

calculate-fit :
    (p : Policy) (distance duration : ℤ) {amount : ℤ}
    → calculate p distance duration ≡ ok amount
    → (text_eq p.currency pkr ≡ true)
      × (leb_ℤ amount (pos 0) ≡ false)
      × (ltb_ℤ (pos max_amount_minor) amount ≡ false)
unfolding calculate
calculate-fit p distance duration h =
    let (t, e₁, h₁) = >>=-eq-ok (validate (draft_of p)) _ h in
    let (t', e₂, h₂) =
      >>=-eq-ok (fail_if (not (text_eq p.calculation_rule half_up_once)) invalid_policy) _ h₁ in
    let (t'', e₃, h₃) =
      >>=-eq-ok (fail_if (leb_ℤ distance (pos 0) || leb_ℤ duration (pos 0)) invalid_route) _ h₂ in
    let (positive, bounded) = bounded-fit p.minimum_fare_minor _ (minimum-positive p e₁) h₃ in
    (validate-pkr p e₁, positive, bounded)

is_same : (a : ℤ) → (ltb_ℤ a a || ltb_ℤ a a) ≡ false
is_same a = ground arith

is_other : (a b : ℤ) → a ≢ b → (ltb_ℤ a b || ltb_ℤ b a) ≡ true
is_other a b h = ground arith

-- The request has the fare of a preview, its policy and no place identifiers.
pub record IsPreviewed (parse_uuid : Text → Option ℕ) (a b : Text) (m : Money) (input : CreateInput)
    (p : Policy) (shown : Route) : Type 0 where
  pub fare : calculate p shown.distance_meters shown.duration_seconds ≡ ok m.amount_minor
  pub currency : m.currency ≡ p.currency
  pub seen : parse_uuid input.pricing_policy_version ≡ some p.id
  pub no_pickup_id : is_empty (trim_space a) ≡ true
  pub no_destination_id : is_empty (trim_space b) ≡ true

-- A request with the fare of the route that was shown: only the comparison with the fare of the route
-- that the provider answers now is left of its check.
pub only_same_fare :
    (s : Services) (parse_uuid : Text → Option ℕ) (user : ℕ) (r : Request) (a b : Text) (m : Money)
    (input : CreateInput) (p : Policy) (router : Option Routing.Provider) (shown route : Route)
    (amount : ℤ) (db : Db)
    → IsPreviewed parse_uuid a b m input p shown
    → current_pkr s input.service_code db ≡ (ok p, db)
    → s.routing ≡ some router
    → preview router r.now
        (record { point = input.pickup; place_id = a })
        (record { point = input.destination; place_id = b })
      ≡ ok route
    → calculate p route.distance_meters route.duration_seconds ≡ ok amount
    → validate_suggested_fare s parse_uuid user r a b m input db ≡ same_fare s amount m db
unfolding validate_suggested_fare validate_places priced_route
only_same_fare s parse_uuid user r a b m input p router shown route amount db x now has_router
      previewed fare =
    let (in_pkr, positive, bounded) =
      calculate-fit p shown.distance_meters shown.duration_seconds x.fare in
    let money : text_eq m.currency pkr ≡ true = rw x.currency in_pkr in
    rw
      (
        x.seen,
        money,
        positive,
        bounded,
        now,
        ==_refl p.id,
        x.no_pickup_id,
        x.no_destination_id,
        has_router,
        previewed,
        fare,
      )
      refl

module _ (s : Services) (amount : ℤ) (m : Money) (db : Db) where
  pub same_fare-same : m.amount_minor ≡ amount → same_fare s amount m db ≡ (ok tt, db)
  same_fare-same e = rw (e, is_same amount) refl

  pub same_fare-other :
      amount ≢ m.amount_minor → same_fare s amount m db ≡ (err suggested_fare_changed, db)
  same_fare-other h = rw (is_other amount m.amount_minor h) refl

-- ===== src/Api/Fares/Suggested.antt =====
-- A ride that is booked at a suggested fare has the fare that the current policy gives for the route.
use uber_clone.Common.{
  ℕ, ◌≡◌, ◌∙◌, ap, subst, false, ◌||◌, ◌&&◌, not, ◌==◌, Option, some, [], ok, arith, Bool-cases,
  inl, inr,
}
use uber_clone.Common.Int.{ℤ, ltb_ℤ}
use uber_clone.Common.Text.{Text, text_eq→eq, to_lower, trim_space, is_empty}
use uber_clone.Store.{Db, Policy, Location}
use uber_clone.Http.{Request, Handler, or_refuse}
use uber_clone.Http.Inversion.{
  >>=-inv, answer-inv, answer-same, or_refuse-inv, read-inv, refuse_if-inv,
}
use uber_clone.Pricing.Calculate.{calculate, pkr, invalid_policy}
use uber_clone.Pricing.Publication.{current}
use uber_clone.Routing.{Route, Endpoint, preview}
use uber_clone.Routing
use uber_clone.Places.{details}
use uber_clone.Places
use uber_clone.RideRequest.{CreateInput, Money}
use uber_clone.Api.Fares.{
  Services, is_unfit_fare, allow_location_search, current_pkr, validate_priced_place,
  validate_places, expected_policy, priced_route, validate_suggested_fare, searcher, within_limit,
  priced, place_details, router_of, asked_route, same_version, fit_fare, pricing_error,
  routing_error, search_error,
}

-- The policy of a suggested fare, and the route that it is for.
pub record IsSuggested (s : Services) (parse_uuid : Text → Option ℕ) (now : ℕ)
    (pickup_id destination_id : Text) (m : Money) (input : CreateInput) (db : Db) : Type 0 where
  pub policy : Policy
  pub router : Option Routing.Provider
  pub route : Route
  pub current_one : current (to_lower s.cases (trim_space input.service_code)) pkr db ≡ ok policy
  pub seen : parse_uuid input.pricing_policy_version ≡ some policy.id
  pub provided : s.routing ≡ some router
  pub previewed :
      preview router now
        (record { point = input.pickup; place_id = pickup_id })
        (record { point = input.destination; place_id = destination_id })
      ≡ ok route
  pub fare : calculate policy route.distance_meters route.duration_seconds ≡ ok m.amount_minor
  pub in_rupees : m.currency ≡ pkr

-- A check that changes nothing.
abbrev IsStill {ℓ} : {A : Type ℓ} → Handler A → Type ℓ
IsStill {A} h = (db : Db) (a : A) (db' : Db) → h db ≡ (ok a, db') → db' ≡ db

module _ (s : Services) where
  allow-IsStill : (user : ℕ) (r : Request) → IsStill (allow_location_search s user r)
  unfolding allow_location_search
  allow-IsStill user r db a db' h =
      let (x, d₁, e₁, h₁) = >>=-inv (searcher s) _ db h in
      let (t, d₂, e₂, h₂) = >>=-inv (within_limit s user r) _ d₁ h₁ in
      answer-inv x d₂ h₂ ∙ (refuse_if-inv _ _ d₁ e₂).1 ∙ (or_refuse-inv s.places _ db e₁).1

  place-IsStill :
      (search : Option Places.Provider) (id : Text) (place : Location)
      → IsStill (validate_priced_place s search id place)
  unfolding validate_priced_place
  place-IsStill search id place db a db' h = elim (Bool-cases (is_empty (trim_space id))) [
    | inl e ↦ answer-inv tt db (rw e at h)
    | inr e ↦
        let (x, d₁, e₁, h₁) = >>=-inv (place_details s search id) _ db (rw e at h) in
        (refuse_if-inv _ _ d₁ h₁).1
        ∙ (read-inv (λ d. details search (trim_space id) []) search_error db e₁).1
  ]

  places-IsStill :
      (user : ℕ) (r : Request) (a b : Text) (input : CreateInput)
      → IsStill (validate_places s user r a b input)
  unfolding validate_places
  places-IsStill user r a b input db x db' h =
      elim (Bool-cases (is_empty (trim_space a) && is_empty (trim_space b))) [
        | inl e ↦ answer-inv tt db (rw e at h)
        | inr e ↦
            let (search, d₁, e₁, h₁) = >>=-inv (allow_location_search s user r) _ db (rw e at h) in
            let (t, d₂, e₂, h₂) = >>=-inv (validate_priced_place s search a input.pickup) _ d₁ h₁ in
            place-IsStill search b input.destination d₂ x db' h₂
            ∙ place-IsStill search a input.pickup d₁ t d₂ e₂
            ∙ allow-IsStill user r db search d₁ e₁
      ]

  pub current_pkr-inv :
      (service : Text) (db : Db) {p : Policy} {db' : Db}
      → current_pkr s service db ≡ (ok p, db')
      → (current (to_lower s.cases (trim_space service)) pkr db ≡ ok p) × (db' ≡ db)
  unfolding current_pkr
  current_pkr-inv service db {p} h =
      let (t, d₁, e₁, h₁) = >>=-inv (priced s) _ db h in
      let (q, w) =
        read-inv (current (to_lower s.cases (trim_space service)) pkr) pricing_error d₁ h₁ in
      let same = (refuse_if-inv _ _ db e₁).1 in
      (subst (λ d. current (to_lower s.cases (trim_space service)) pkr d ≡ ok p) same q, w ∙ same)

  expected-inv :
      (parse_uuid : Text → Option ℕ) (m : Money) (input : CreateInput) (db : Db) {x : ℕ} {db' : Db}
      → expected_policy s parse_uuid m input db ≡ (ok x, db')
      → (parse_uuid input.pricing_policy_version ≡ some x)
        × (is_unfit_fare s m ≡ false)
        × (db' ≡ db)
  expected-inv parse_uuid m input db {x} h =
      let (y, d₁, e₁, h₁) =
        >>=-inv (or_refuse (parse_uuid input.pricing_policy_version) (pricing_error invalid_policy))
          _ db h in
      let (t, d₂, e₂, h₂) = >>=-inv (fit_fare s m) _ d₁ h₁ in
      let (p, q) = or_refuse-inv _ _ db e₁ in
      let (v, w) = refuse_if-inv _ _ d₁ e₂ in
      (p ∙ ap some (answer-same y d₂ h₂), v, answer-inv y d₂ h₂ ∙ w ∙ q)

  priced_route-inv :
      (now : ℕ) (p : Policy) (a b : Text) (input : CreateInput) (db : Db) {amount : ℤ} {db' : Db}
      → priced_route s now p a b input db ≡ (ok amount, db')
      → (router : Option Routing.Provider) × (route : Route) × (s.routing ≡ some router)
        × (preview router now
              (record { point = input.pickup; place_id = a })
              (record { point = input.destination; place_id = b })
            ≡ ok route)
        × (calculate p route.distance_meters route.duration_seconds ≡ ok amount)
        × (db' ≡ db)
  unfolding priced_route
  priced_route-inv now p a b input db h =
      let (router, d₁, e₁, h₁) = >>=-inv (router_of s) _ db h in
      let (route, d₂, e₂, h₂) = >>=-inv (asked_route s router now a b input) _ d₁ h₁ in
      let (provided, w₁) = or_refuse-inv s.routing _ db e₁ in
      let (previewed, w₂) =
        read-inv
          (λ d.
            preview router now (record { point = input.pickup; place_id = a })
              (record { point = input.destination; place_id = b }))
          routing_error d₁ e₂ in
      let (fare, w₃) =
        read-inv (λ d. calculate p route.distance_meters route.duration_seconds) pricing_error d₂
          h₂ in
      (router, route, provided, previewed, fare, w₃ ∙ w₂ ∙ w₁)

same_amount : (a b : ℤ) → (ltb_ℤ a b || ltb_ℤ b a) ≡ false → a ≡ b
same_amount a b h = ground arith

fit-pkr : (s : Services) (m : Money) → is_unfit_fare s m ≡ false → m.currency ≡ pkr
fit-pkr s m h = text_eq→eq m.currency pkr (ground arith)

same_id : (x y : ℕ) → not (x == y) ≡ false → x ≡ y
same_id x y h = ground arith

-- A fare that validateSuggestedFare lets through is the one that the service's current policy gives
-- for the provider's route between the places; the client saw this policy. Nothing is changed.
pub validate_suggested_fare-IsSuggested :
    (s : Services) (parse_uuid : Text → Option ℕ) (user : ℕ) (r : Request) (a b : Text) (m : Money)
    (input : CreateInput) (db : Db) {db' : Db}
    → validate_suggested_fare s parse_uuid user r a b m input db ≡ (ok tt, db')
    → IsSuggested s parse_uuid r.now a b m input db × (db' ≡ db)
unfolding validate_suggested_fare
validate_suggested_fare-IsSuggested s parse_uuid user r a b m input db h =
    let (x, d₁, e₁, h₁) = >>=-inv (expected_policy s parse_uuid m input) _ db h in
    let (p, d₂, e₂, h₂) = >>=-inv (current_pkr s input.service_code) _ d₁ h₁ in
    let (t, d₃, e₃, h₃) = >>=-inv (same_version s x p) _ d₂ h₂ in
    let (t', d₄, e₄, h₄) = >>=-inv (validate_places s user r a b input) _ d₃ h₃ in
    let (amount, d₅, e₅, h₅) = >>=-inv (priced_route s r.now p a b input) _ d₄ h₄ in
    let (seen, fit, same) = expected-inv s parse_uuid m input db e₁ in
    let (router, route, provided, previewed, fare, w₄) =
      priced_route-inv s r.now p a b input d₄ e₅ in
    let (current_one, w₁) = current_pkr-inv s input.service_code d₁ e₂ in
    let (equal_id, w₂) = refuse_if-inv _ _ d₂ e₃ in
    let (equal_fare, w₅) = refuse_if-inv _ _ d₅ h₅ in
    let w₃ = places-IsStill s user r a b input d₃ t' d₄ e₄ in
    (
      record {
        policy = p;
        router = router;
        route = route;
        current_one =
            subst (λ d. current (to_lower s.cases (trim_space input.service_code)) pkr d ≡ ok p)
              same current_one;
        seen = seen ∙ ap some (same_id x p.id equal_id);
        provided = provided;
        previewed = previewed;
        fare = fare ∙ ap ok (same_amount amount m.amount_minor equal_fare);
        in_rupees = fit-pkr s m fit;
      },
      w₅ ∙ w₄ ∙ w₃ ∙ w₂ ∙ w₁ ∙ same,
    )

-- ===== src/Api/Places/Accepted.antt =====
-- What a preview shows, and what the check of a request makes of its fare later.
use uber_clone.Common.{
  ℕ, ◌≡◌, ◌≢◌, sym, ◌∙◌, ap, subst, Bool, true, false, Option, some, List, ◌++◌, ok, err,
  if◌then◌else◌,
}
use uber_clone.Common.Int.{ℤ}
use uber_clone.Common.Text.{Text, trim_space, is_empty}
use uber_clone.Store.{Db, Policy}
use uber_clone.Pricing.Calculate.{calculate}
use uber_clone.Routing.{Route, Endpoint, preview}
use uber_clone.Routing
use uber_clone.RideRequest.{CreateInput, Money}
use uber_clone.Users.{rider}
use uber_clone.Http.{Request, Response, Handler, write_json, answer, or_refuse, refuse_if, read}
use uber_clone.Http.Values.{Json, object}
use uber_clone.Http.Access.{require_capability}
use uber_clone.Http.Inversion.{>>=-inv, answer-inv, answer-same, or_refuse-inv, read-inv}
use uber_clone.Api.{Library}
use uber_clone.Api.Fares.Suggested.{current_pkr-inv}
use uber_clone.Api.Places.{
  PlaceLibrary, PreviewBody, endpoint, route_fields, suggested_fields, suggestion, some_policy,
  policy_for, create_ride_preview, no_route, incomplete_preview,
}
use uber_clone.Api.Fares.{
  Services, current_pkr, pricing_error, routing_error, validate_suggested_fare,
  suggested_fare_changed,
}
use uber_clone.Api.Fares.Accepted.{only_same_fare, same_fare-same, same_fare-other}

-- The policy, the route and the fare of a preview, and what becomes of a request for it later: it is
-- let through if the route that the provider answers then has the same fare, and refused if not.
pub record IsSuggestion (s : Services) (now : ℕ) (b : PreviewBody) (answered : Response) (db : Db)
    : Type 0 where
  pub pickup : Endpoint
  pub destination : Endpoint
  pub policy : Policy
  pub router : Option Routing.Provider
  pub route : Route
  pub amount : ℤ
  pub is_pickup : endpoint b.pickup ≡ some pickup
  pub is_destination : endpoint b.destination ≡ some destination
  pub current_one : current_pkr s b.service_code db ≡ (ok policy, db)
  pub provided : s.routing ≡ some router
  pub previewed : preview router now pickup destination ≡ ok route
  pub fare : calculate policy route.distance_meters route.duration_seconds ≡ ok amount
  pub shown :
      answered ≡ write_json 200 (object (route_fields route ++ suggested_fields policy amount))
  pub checks :
      (parse_uuid : Text → Option ℕ) (user : ℕ) (r : Request) (m : Money) (input : CreateInput)
      (found : Route) (later : ℤ)
      → input.service_code ≡ b.service_code
      → input.pickup ≡ pickup.point
      → input.destination ≡ destination.point
      → m.amount_minor ≡ amount
      → m.currency ≡ policy.currency
      → parse_uuid input.pricing_policy_version ≡ some policy.id
      → is_empty (trim_space pickup.place_id) ≡ true
      → is_empty (trim_space destination.place_id) ≡ true
      → preview router r.now pickup destination ≡ ok found
      → calculate policy found.distance_meters found.duration_seconds ≡ ok later
      → (later ≡ amount
          → validate_suggested_fare s parse_uuid user r pickup.place_id destination.place_id m input
              db
            ≡ (ok tt, db))
        × (later ≢ amount
            → validate_suggested_fare s parse_uuid user r pickup.place_id destination.place_id m
                input db
              ≡ (err suggested_fare_changed, db))

still :
    (s : Services) (service : Text) (db d₁ d : Db) {p : Policy}
    → current_pkr s service db ≡ (ok p, d₁)
    → d₁ ≡ db
    → d ≡ d₁
    → current_pkr s service d ≡ (ok p, d)
still s service db d₁ d {p} e w v =
    subst (λ x. current_pkr s service x ≡ (ok p, x)) (sym v)
      (subst (λ x. current_pkr s service x ≡ (ok p, d₁)) (sym w) e)

if_on :
    (b : Bool) (ask skip : Handler (Option Policy)) (db : Db) {o : Option Policy} {db' : Db}
    → b ≡ true
    → (if b then ask else skip) db ≡ (ok o, db')
    → ask db ≡ (ok o, db')
if_on true ask skip db e h = h
if_on false ask skip db e h = cc

module _ (lib : Library) (pl : PlaceLibrary) (s : Services) where
  policy_for-inv :
      (service : Text) (db : Db) {o : Option Policy} {db' : Db}
      → s.suggested_fares_enabled ≡ true
      → policy_for lib pl s service db ≡ (ok o, db')
      → (p : Policy) × (o ≡ some p) × (current_pkr s service db' ≡ (ok p, db')) × (db' ≡ db)
  policy_for-inv service db {o} {db'} on h =
      let asked = if_on s.suggested_fares_enabled (some_policy lib pl s service) _ db on h in
      let (p, d₁, e₁, h₁) = >>=-inv (current_pkr s service) _ db asked in
      let w = (current_pkr-inv s service db e₁).1 in
      let v = answer-inv (some p) d₁ h₁ in
      (p, sym (answer-same (some p) d₁ h₁), still s service db d₁ db' e₁ w v, v ∙ w)

  suggestion-inv :
      (p : Policy) (route : Route) (db : Db) {l : List (Text × Json)} {db' : Db}
      → suggestion lib pl s (some p) route db ≡ (ok l, db')
      → (amount : ℤ) × (calculate p route.distance_meters route.duration_seconds ≡ ok amount)
        × (l ≡ suggested_fields p amount)
        × (db' ≡ db)
  suggestion-inv p route db h =
      let fare = λ (d : Db). calculate p route.distance_meters route.duration_seconds in
      let (amount, d₁, e₁, h₁) = >>=-inv (read fare pricing_error) _ db h in
      let (found, w) = read-inv fare pricing_error db e₁ in
      (
        amount,
        found,
        sym (answer-same (suggested_fields p amount) d₁ h₁),
        answer-inv (suggested_fields p amount) d₁ h₁ ∙ w,
      )

  suggests-IsSuggestion :
      (now : ℕ) (b : PreviewBody) (pickup destination : Endpoint) (router : Option Routing.Provider)
      (o : Option Policy) (route : Route) (l : List (Text × Json)) (d d₁ d₂ : Db) {d₃ db' : Db}
      {answered : Response}
      → s.suggested_fares_enabled ≡ true
      → endpoint b.pickup ≡ some pickup
      → endpoint b.destination ≡ some destination
      → s.routing ≡ some router
      → policy_for lib pl s b.service_code d ≡ (ok o, d₁)
      → read (λ db. preview router now pickup destination) routing_error d₁ ≡ (ok route, d₂)
      → suggestion lib pl s o route d₂ ≡ (ok l, d₃)
      → answer {E = Response} (write_json 200 (object (route_fields route ++ l))) d₃
        ≡ (ok answered, db')
      → IsSuggestion s now b answered db'
  suggests-IsSuggestion now b pickup destination router o route l d d₁ d₂ {d₃} {db'} on is_pickup
        is_destination has e₁ e₂ e₃ h =
      let (p, same, kept, w₁) = policy_for-inv b.service_code d on e₁ in
      let (previewed, w₂) =
        read-inv (λ db. preview router now pickup destination) routing_error d₁ e₂ in
      let (amount, fare, shape, w₃) =
        suggestion-inv p route d₂
          (subst (λ x. suggestion lib pl s x route d₂ ≡ (ok l, d₃)) same e₃) in
      let v : db' ≡ d₁ = answer-inv _ d₃ h ∙ w₃ ∙ w₂ in
      let then_now = subst (λ x. current_pkr s b.service_code x ≡ (ok p, x)) (sym v) kept in
      record {
        pickup = pickup;
        destination = destination;
        policy = p;
        router = router;
        route = route;
        amount = amount;
        is_pickup = is_pickup;
        is_destination = is_destination;
        current_one = then_now;
        provided = has;
        previewed = previewed;
        fare = fare;
        shown =
            sym (answer-same _ d₃ h)
            ∙ ap (λ x. write_json 200 (object (route_fields route ++ x))) shape;
        checks =
            λ parse_uuid user r m input found later service from to money currency seen none_a
                none_b asked priced.
              let left =
                only_same_fare s parse_uuid user r pickup.place_id destination.place_id m input p
                  router route found later db'
                  (record {
                    fare = fare ∙ ap ok (sym money);
                    currency = currency;
                    seen = seen;
                    no_pickup_id = none_a;
                    no_destination_id = none_b;
                  })
                  (subst (λ x. current_pkr s x db' ≡ (ok p, db')) (sym service) then_now) has
                  (rw (from, to) asked) priced in
              (
                λ same. left ∙ same_fare-same s later m db' (money ∙ sym same),
                λ other. left ∙ same_fare-other s later m db' (λ e. other (e ∙ money)),
              );
      }

-- Where suggested fares are on, a preview that is answered shows the route that the provider answers
-- for its places at that instant, and the fare of this route under the service's current policy. A
-- later request asks the provider again. If it is for these places, service, fare and policy, has no
-- place identifiers and comes to the store that the preview left, then its check lets it through
-- where the route that it gets has the same fare, and answers 409 suggested_fare_changed where that
-- route has another fare. Neither changes the store.
pub create_ride_preview-IsSuggestion :
    (lib : Library) (pl : PlaceLibrary) (s : Services) (r : Request) (db : Db) {answered : Response}
    {db' : Db}
    → s.suggested_fares_enabled ≡ true
    → create_ride_preview lib pl s r db ≡ (ok answered, db')
    → (b : PreviewBody) × (pl.preview_body r.body ≡ some b) × IsSuggestion s r.now b answered db'
unfolding create_ride_preview
create_ride_preview-IsSuggestion lib pl s r db on h =
    let (u, d₁, e₁, h₁) = >>=-inv (require_capability rider r) _ db h in
    let (router, d₂, e₂, h₂) = >>=-inv (or_refuse s.routing no_route) _ d₁ h₁ in
    let (b, d₃, e₃, h₃) = >>=-inv (or_refuse (pl.preview_body r.body) incomplete_preview) _ d₂ h₂ in
    let (from, d₄, e₄, h₄) = >>=-inv (or_refuse (endpoint b.pickup) incomplete_preview) _ d₃ h₃ in
    let (to, d₅, e₅, h₅) =
      >>=-inv (or_refuse (endpoint b.destination) incomplete_preview) _ d₄ h₄ in
    let (t, d₆, e₆, h₆) =
      >>=-inv (refuse_if (is_empty (trim_space b.service_code)) incomplete_preview) _ d₅ h₅ in
    let (o, d₇, e₇, h₇) = >>=-inv (policy_for lib pl s b.service_code) _ d₆ h₆ in
    let (route, d₈, e₈, h₈) =
      >>=-inv (read (λ db. preview router r.now from to) routing_error) _ d₇ h₇ in
    let (l, d₉, e₉, h₉) = >>=-inv (suggestion lib pl s o route) _ d₈ h₈ in
    (
      b,
      (or_refuse-inv _ _ d₂ e₃).0,
      suggests-IsSuggestion lib pl s r.now b from to router o route l d₆ d₇ d₈ on
          (or_refuse-inv _ _ d₃ e₄).0 (or_refuse-inv _ _ d₄ e₅).0 (or_refuse-inv _ _ d₁ e₂).0 e₇ e₈
          e₉ h₉,
    )

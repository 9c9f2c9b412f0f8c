-- ===== src/Api/Rides/Booked.antt =====
-- What a ride request that the handler answers with 201 has passed, and what it has stored.
use uber_clone.Common.{
  ℕ, ◌≡◌, refl, sym, ◌∙◌, ap, subst, Bool, true, false, Option, some, Result, ok, err, arith,
  if◌then◌else◌, Bool-cases, inl, inr,
}
use uber_clone.Common.Text.{Text}
use uber_clone.Store.{Db, Ride, PricingSnapshot, Clock}
use uber_clone.Users.{User, rider}
use uber_clone.Http.{Response, Request, Handler, write_json, answer, or_refuse, call}
use uber_clone.Http.Access.{require_capability}
use uber_clone.Http.Inversion.{>>=-inv, answer-inv, answer-same, or_refuse-inv, call-inv}
use uber_clone.RideRequest.{CreateInput, Money, Config, RideError, create}
use uber_clone.RideRequest.Created.{IsStored, IsValidInput, checked, create-IsStored}
use uber_clone.Api.{Library}
use uber_clone.Api.Fares.{Services}
use uber_clone.Api.Fares.Suggested.{IsSuggested, validate_suggested_fare-IsSuggested}
use uber_clone.Api.Rides.{
  RideBody, body_fare, body_point, body_place_id, body_input, stored_ride, ride_error,
  ride_response, checked_fare, create_ride_request, incomplete,
}

body_input-inv :
    (b : RideBody) (db : Db) {x : CreateInput × Money} {db' : Db}
    → body_input b db ≡ (ok x, db')
    → (x.0.proposed_fare ≡ some x.1) × (body_fare b.proposed_fare ≡ some x.1) × (db' ≡ db)
unfolding body_input
body_input-inv b db {x} h =
    let (p, d₁, e₁, h₁) = >>=-inv (or_refuse (body_point b.pickup) incomplete) _ db h in
    let (q, d₂, e₂, h₂) = >>=-inv (or_refuse (body_point b.destination) incomplete) _ d₁ h₁ in
    let (m, d₃, e₃, h₃) = >>=-inv (or_refuse (body_fare b.proposed_fare) incomplete) _ d₂ h₂ in
    let same = answer-same _ d₃ h₃ in
    let (given, w₃) = or_refuse-inv _ _ d₂ e₃ in
    (
      subst (λ (y : CreateInput × Money). y.0.proposed_fare ≡ some y.1) same refl,
      given ∙ ap (λ (y : CreateInput × Money). some y.1) same,
      answer-inv _ d₃ h₃ ∙ w₃ ∙ (or_refuse-inv _ _ d₁ e₂).1 ∙ (or_refuse-inv _ _ db e₁).1,
    )

-- The parts of the request, and what was stored for it.
pub record IsBooked (lib : Library) (s : Services) (config : Config) (id : ℕ) (r : Request)
    (body : RideBody) (db : Db) (answered : Response) (db' : Db) : Type 0 where
  pub user : User
  pub signed_in : Db
  pub input : CreateInput
  pub fare : Money
  pub ride : Ride
  pub snapshot : Option PricingSnapshot
  pub is_rider : require_capability rider r db ≡ (ok user, signed_in)
  pub asked_fare : body_fare body.proposed_fare ≡ some fare
  pub suggested :
      s.suggested_fares_enabled ≡ true
      → IsSuggested s lib.parse_uuid r.now
          (body_place_id body.pickup)
          (body_place_id body.destination)
          fare
          input
          signed_in
  pub valid : IsValidInput s.cases input fare
  pub stored :
      IsStored config lib.parse_uuid signed_in r.clock
        (r.clock.at 5)
        id
        user.id
        (checked s.cases input fare)
        signed_in
        ride
        snapshot
        db'
  pub shown : answered ≡ write_json 201 (ride_response ride)

stored_ride-inv :
    (x : Result RideError (Ride × Option PricingSnapshot × Db)) {ride : Ride} {db' : Db}
    → stored_ride x ≡ ok (ride, db')
    → (p : Option PricingSnapshot) × (x ≡ ok (ride, p, db'))
stored_ride-inv (ok (a, p, d)) h = (p, ground arith)
stored_ride-inv (err e) h = cc

same_money : (o : Option Money) {m m' : Money} → o ≡ some m → o ≡ some m' → m' ≡ m
same_money o e f = ground arith

-- What a call of Create has stored for the fare `m` of its input.
placed :
    (lib : Library) (s : Services) (config : Config) (id user : ℕ) (c : Clock) (input : CreateInput)
    (m : Money) (db : Db) {ride : Ride} {db' : Db}
    → input.proposed_fare ≡ some m
    → stored_ride (create config s.cases lib.parse_uuid db c (c.at 5) id user input db)
      ≡ ok (ride, db')
    → IsValidInput s.cases input m
      × (p : Option PricingSnapshot) × IsStored config lib.parse_uuid db c
          (c.at 5)
          id
          user
          (checked s.cases input m)
          db
          ride
          p
          db'
placed lib s config id user c input m db {ride} {db'} e h =
    let (p, created) = stored_ride-inv _ h in
    let (m', valid, stored) =
      create-IsStored config s.cases lib.parse_uuid db c (c.at 5) id user input db created in
    let same : m' ≡ m = same_money input.proposed_fare e valid.fare in
    (
      subst (IsValidInput s.cases input) same valid,
      p,
      subst
          (λ f.
            IsStored config lib.parse_uuid db c (c.at 5) id user (checked s.cases input f) db ride p
              db')
          same stored,
    )

if_true :
    (b : Bool) (check : Handler (Unit {0})) (db : Db) {t : Unit {0}} {db' : Db}
    → b ≡ true
    → (if b then check else answer tt) db ≡ (ok t, db')
    → check db ≡ (ok t, db')
if_true true check db e h = h
if_true false check db e h = cc

if_false :
    (b : Bool) (check : Handler (Unit {0})) (db : Db) {t : Unit {0}} {db' : Db}
    → b ≡ false
    → (if b then check else answer tt) db ≡ (ok t, db')
    → db' ≡ db
if_false true check db e h = cc
if_false false check db e h = answer-inv tt db h

module _ (lib : Library) (s : Services) (config : Config) (ride_body : Text → Option RideBody) where
  checked_fare-inv :
      (user : ℕ) (r : Request) (body : RideBody) (m : Money) (input : CreateInput) (db : Db)
      {t : Unit {0}} {db' : Db}
      → checked_fare lib s config ride_body user r body m input db ≡ (ok t, db')
      → (s.suggested_fares_enabled ≡ true
          → IsSuggested s lib.parse_uuid r.now
              (body_place_id body.pickup)
              (body_place_id body.destination)
              m
              input
              db)
        × (db' ≡ db)
  checked_fare-inv user r body m input db h = elim (Bool-cases s.suggested_fares_enabled) [
    | inl e ↦
        let (suggested, w) =
          validate_suggested_fare-IsSuggested s lib.parse_uuid user r (body_place_id body.pickup)
            (body_place_id body.destination) m input db
            (if_true s.suggested_fares_enabled _ db e h) in
        (λ on. suggested, w)
    | inr e ↦ (λ on. absurd (ground arith), if_false s.suggested_fares_enabled _ db e h)
  ]

  abbrev stores : ℕ → ℕ → Request → CreateInput → Db → Result RideError (Ride × Db)
  stores id user r input db =
      stored_ride (create config s.cases lib.parse_uuid db r.clock (r.clock.at 5) id user input db)

  booked :
      (id : ℕ) (r : Request) (u : User) (body : RideBody) (x : CreateInput × Money) (ride : Ride)
      (db d₁ : Db) {d₃ d₄ d₅ db' : Db} {t : Unit {0}} {answered : Response}
      → require_capability rider r db ≡ (ok u, d₁)
      → body_input body d₁ ≡ (ok x, d₃)
      → checked_fare lib s config ride_body u.id r body x.1 x.0 d₃ ≡ (ok t, d₄)
      → call (stores id u.id r x.0) ride_error d₄ ≡ (ok ride, d₅)
      → answer {E = Response} (write_json 201 (ride_response ride)) d₅ ≡ (ok answered, db')
      → IsBooked lib s config id r body db answered db'
  booked id r u body x ride db d₁ {d₃} {d₄} {d₅} {db'} e₁ e₃ e₄ e₅ e₆ =
      let (proposed, asked, w₃) = body_input-inv body d₁ e₃ in
      let (suggested, w₄) = checked_fare-inv u.id r body x.1 x.0 d₃ e₄ in
      let called =
        subst (λ d. stores id u.id r x.0 d ≡ ok (ride, db')) (w₄ ∙ w₃)
          (call-inv (stores id u.id r x.0) ride_error d₄
            (e₅ ∙ ap (λ d. (ok ride, d)) (sym (answer-inv _ d₅ e₆)))) in
      let (valid, p, stored) =
        placed lib s config id u.id r.clock x.0 x.1 d₁ {ride = ride} {db' = db'} proposed called in
      record {
        user = u;
        signed_in = d₁;
        input = x.0;
        fare = x.1;
        ride = ride;
        snapshot = p;
        is_rider = e₁;
        asked_fare = asked;
        suggested = λ on.
            subst
              (IsSuggested s lib.parse_uuid r.now (body_place_id body.pickup)
                (body_place_id body.destination) x.1 x.0)
              w₃ (suggested on);
        valid = valid;
        stored = stored;
        shown = sym (answer-same _ d₅ e₆);
      }

-- A request that is answered rather than refused came from a Rider, in a body with a fare. Where
-- suggested fares are on, this fare is the one that the current policy gives for the route. The
-- ride is stored with the fare of the body, with the snapshot that pricing asks for, and the
-- answer is 201 with the ride that was stored.
pub create_ride_request-IsBooked :
    (lib : Library) (s : Services) (config : Config) (ride_body : Text → Option RideBody) (id : ℕ)
    (r : Request) (db : Db) {answered : Response} {db' : Db}
    → create_ride_request lib s config ride_body id r db ≡ (ok answered, db')
    → (body : RideBody) × (ride_body r.body ≡ some body)
      × IsBooked lib s config id r body db answered db'
unfolding create_ride_request
create_ride_request-IsBooked lib s config ride_body id r db h =
    let (u, d₁, e₁, h₁) = >>=-inv (require_capability rider r) _ db h in
    let (body, d₂, e₂, h₂) = >>=-inv (or_refuse (ride_body r.body) _) _ d₁ h₁ in
    let (x, d₃, e₃, h₃) = >>=-inv (body_input body) _ d₂ h₂ in
    let (t, d₄, e₄, h₄) =
      >>=-inv (checked_fare lib s config ride_body u.id r body x.1 x.0) _ d₃ h₃ in
    let (ride, d₅, e₅, h₅) =
      >>=-inv (call (stores lib s config ride_body id u.id r x.0) ride_error) _ d₄ h₄ in
    let (given, w₂) = or_refuse-inv (ride_body r.body) _ d₁ e₂ in
    let input = subst (λ d. body_input body d ≡ (ok x, d₃)) w₂ e₃ in
    (body, given, booked lib s config ride_body id r u body x ride db d₁ e₁ input e₄ e₅ h₅)

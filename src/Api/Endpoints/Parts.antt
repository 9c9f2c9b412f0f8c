-- ===== src/Api/Endpoints/Parts.antt =====
-- What the handlers of several endpoints have in common.
use uber_clone.Common.{ℕ, ◌≤◌, ◌<◌, ◌≡◌, Result, ok, err, arith}
use uber_clone.Store.{Db}
use uber_clone.Users.{User}
use uber_clone.Http.{Request, Response, Handler, ◌>>=◌, answer, refuse, call, write_json}
use uber_clone.Http.Values.{Json}
use uber_clone.Http.Careful.{
  IsCheck, IsCareful, SameTables, KeepsFrame, Frame-refl, bad_request-IsCheck, answer-IsCheck,
  answer-IsCareful, >>=-IsCheck, >>=-IsCareful, call-IsCareful,
}
use uber_clone.Driver.Presence.{DriverError}
use uber_clone.Driver.Presence.Frame.{KeepsProfiles}
use uber_clone.RideRequest.{Config, create, CreateInput}
use uber_clone.Api.{Library, ride_id}
use uber_clone.Api.Fares.{Services}
use uber_clone.Api.Offers.{parse_offer_path}
use uber_clone.Api.Rides.{ride_error, stored_ride, ride_response}
use uber_clone.Api.Endpoints.Refusals.{ride_error_status}

pub ride_id-IsCheck : (lib : Library) (r : Request) → IsCheck (ride_id lib r)
ride_id-IsCheck lib r = bad_request-IsCheck _ _

pub parse_offer_path-IsCheck : (lib : Library) (r : Request) → IsCheck (parse_offer_path lib r)
unfolding parse_offer_path
parse_offer_path-IsCheck lib r =
    >>=-IsCheck (ride_id lib r) _ (ride_id-IsCheck lib r)
      (λ ride. >>=-IsCheck _ _ (bad_request-IsCheck _ _) (λ d. answer-IsCheck (ride, d)))

-- A request for a ride: its identifier, one transaction, and the answer.
module _ {ℓ κ} {E : Type ℓ} {A : Type κ} (lib : Library)
    (service : Request → User → ℕ → Db → Result E (A × Db)) (f : E → Response) (show : A → Response)
    (refused : (e : E) → 299 < (f e).status) (shown : (a : A) → (show a).status ≤ 299) where
  pub on_ride-IsCareful :
      (r : Request) (u : User)
      → IsCareful (ride_id lib r >>= λ ride. call (service r u ride) f >>= λ a. answer (show a))
  on_ride-IsCareful r u =
      >>=-IsCareful (ride_id lib r) _ (ride_id-IsCheck lib r)
        (λ ride. call-IsCareful (service r u ride) f show refused shown)

pub create-IsCareful :
    (lib : Library) (s : Services) (config : Config) (id : ℕ) (r : Request) (u : User)
    (input : CreateInput)
    → IsCareful (
        call
          (λ db.
            stored_ride
              (create config s.cases lib.parse_uuid db r.clock (r.clock.at 5) id u.id input db))
          ride_error
        >>= λ ride. answer (write_json 201 (ride_response ride)))
create-IsCareful lib s config id r u input =
    call-IsCareful _ ride_error (λ ride. write_json 201 (ride_response ride)) ride_error_status
      (λ a. omega arith)

pub KeepsProfiles-KeepsFrame {ℓ} :
    {A : Type ℓ} (db : Db) (x : Result DriverError A × Db) → KeepsProfiles db x → KeepsFrame db x
KeepsProfiles-KeepsFrame db (ok a, db') h = tt
KeepsProfiles-KeepsFrame db (err e, db') h = (widened db db' h.0, h.1)
  where
    widened : (db db' : Db) → db' ≡ record db { profiles = db'.profiles } → SameTables db db'
    widened db db' h = ground arith

module _ {ℓ} {A : Type ℓ} where
  -- A question to the store that is always answered.
  pub query-IsCheck : (f : Db → A) → IsCheck (λ db. (ok (f db), db))
  query-IsCheck f = record { passes = λ db. Frame-refl db }

  pub refuse-IsCheck : (r : Response) → 299 < r.status → IsCheck {A = A} (refuse r)
  refuse-IsCheck r h = record { passes = λ db. (h, Frame-refl db) }

  -- A handler that shows what a check has read.
  pub shown-IsCareful :
      (m : Handler A) (show : A → Json)
      → IsCheck m
      → IsCareful (m >>= λ a. answer (write_json 200 (show a)))
  shown-IsCareful m show check =
      >>=-IsCareful m _ check (λ a. answer-IsCareful (write_json 200 (show a)) (omega arith))

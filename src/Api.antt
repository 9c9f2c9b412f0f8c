-- ===== src/Api.antt =====
-- The HTTP handlers (httpapi): each checks who asks, reads the request, calls a service and writes its
-- answer. Between the transactions of one request no other commits.
pub mod Rendering
pub mod Offers
pub mod Trips
pub mod Drivers
pub mod Fares
pub mod Rides
pub mod Places
pub mod RideServices
pub mod Onboarding
pub mod Endpoints
pub mod Sample
pub mod Tests
use uber_clone.Common.{Bool, ℕ, Option, some}
use uber_clone.Common.Int.{ℤ}
use uber_clone.Common.Float.{Float}
use uber_clone.Common.Text.{Text, codes}
use uber_clone.Store.{Location}
use uber_clone.Http.{Request, Handler, refusal, or_refuse}

-- What the handlers use of other code: uuid.Parse, json.Decoder on the bodies, the distance and the
-- collation of the database. A decoder answers nothing where the body cannot be decoded; a field
-- that is absent or null is `none`, and so is the zero time.
pub record Library : Type 0 where
  pub parse_uuid : Text → Option ℕ
  pub amount_body : Text → Option (Option ℤ)
  pub version_body : Text → Option (Option ℕ)
  pub availability_body : Text → Option Bool
  pub vehicle_body : Text → Option ℕ
  pub location_body : Text → Option (Option Float × Option Float)
  pub distance : Location → Location → Float
  pub collation : Text → Text → Bool

-- `uuid.Parse(r.PathValue(name))`, or 400
abbrev pub path_id : Library → Text → Text → Request → Handler ℕ
path_id lib name message r = or_refuse (lib.parse_uuid (r.path_value name)) (refusal 400 message)

abbrev pub ride_id : Library → Request → Handler ℕ
ride_id lib = path_id lib (codes "ride_request_id") (codes "invalid ride_request_id")

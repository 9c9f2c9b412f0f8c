-- ===== src/Api/RideServices.antt =====
-- rideservice/postgres_repository.go (List) and httpapi/ride_services.go: the services that a Rider can
-- book.
use uber_clone.Common.{
  Bool, false, ◌&&◌, ◌||◌, not, ◌==◌, Option, none, some, ℕ, List, [], ◌∷◌, map, ok,
}
use uber_clone.Common.Int.{pos}
use uber_clone.Common.Text.{Text, codes, text_eq}
use uber_clone.Common.Table.{exists, select}
use uber_clone.Common.Order.{sort_by}
use uber_clone.Store.{Db, CatalogService, Policy}
use uber_clone.Users.{rider}
use uber_clone.Http.{Response, Request, Handler, write_json, ◌>>=◌, answer}
use uber_clone.Http.Values.{Json, object, array, text, bool, int}
use uber_clone.Http.Access.{require_capability}
use uber_clone.Pricing.Calculate.{pkr}
use uber_clone.Onboarding.{is_listed_before}
use uber_clone.Api.{Library}

-- The JOIN on the versions.
abbrev is_version : Option ℕ → List Policy → Bool
is_version none l = false
is_version (some id) l = exists (λ p. p.id == id) l

-- A current policy in rupees.
abbrev is_priced : Text → Db → Bool
is_priced code db =
    exists
      (λ c.
        text_eq c.service_code code
        && text_eq c.currency pkr
        && is_version c.current_policy_id db.policies)
      db.current_policies

-- List, where `required` is pricingRequired; `before` is the strict order of the database's collation.
unfoldable pub list_bookable : Bool → (Text → Text → Bool) → Db → List CatalogService
list_bookable required before db = sort_by (is_listed_before before) (
    select (λ s. s.is_active && s.rider_visible && (not required || is_priced s.code db))
      db.catalog)

-- One item of rideServicesResponse
unfoldable pub ride_service_response : Bool → CatalogService → Json
ride_service_response required s = object (
    (codes "pricing_required", bool required)
    ∷ (codes "code", text s.code)
    ∷ (codes "display_name", text s.display_name)
    ∷ (codes "description", text s.description)
    ∷ (codes "display_order", int (pos s.sort_order))
    ∷ (codes "presentation_token", text s.presentation_token)
    ∷ [])

-- listRideServices
unfoldable pub list_ride_services : Library → Bool → Request → Handler Response
list_ride_services lib required r = do
  u ← require_capability rider r
  l ← λ db. (ok (list_bookable required lib.collation db), db)
  answer (
      write_json 200
        (object ((codes "services", array (map (ride_service_response required) l)) ∷ [])))

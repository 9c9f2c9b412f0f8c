-- ===== src/Onboarding.antt =====
-- Driver onboarding (backend/internal/driveronboarding): what onboarding.go and
-- postgres_repository.go read. A Driver's application becomes a vehicle when a reviewer approves it.
pub mod Submission
pub mod Review
pub mod Queue
pub mod Decided
pub mod Steps
pub mod Approved
pub mod Tests
use uber_clone.Common.{
  ℕ, Bool, true, false, ◌&&◌, ◌||◌, not, Option, none, some, List, [], ◌∷◌, ◌==◌, leb, ltb, Result,
  ok, err, ◌>>=◌, ◌>>◌, or_fail, fail_if, if◌then◌else◌,
}
use uber_clone.Common.Text.{Text, Cases, to_lower, trim_space, text_eq}
use uber_clone.Common.Table.{find, exists, select}
use uber_clone.Common.Order.{sort_by}
use uber_clone.Store.{Db, CatalogService, Profile, ApplicationRow, ApplicationStatus, VehicleInput}

-- user_missing is the sql.ErrNoRows of lockDriverReviewScope.
pub data OnboardingError : Type 0 where
  invalid_application service_not_found pending_application vehicle_already_registered not_found :
      OnboardingError
  ineligible invalid_review_decision application_not_pending user_missing : OnboardingError

pub data ApplicationType : Type 0 where
  initial_onboarding additional_vehicle_service : ApplicationType

pub record ServiceOption : Type 0 where
  pub code : Text
  pub display_name : Text
  pub description : Text
  pub minimum_model_year : Option ℕ
  pub implied_service_code : Option Text

pub record Application : Type 0 where
  pub id : ℕ
  pub driver_user_id : ℕ
  pub application_type : ApplicationType
  pub display_name : Text
  pub service : ServiceOption
  pub vehicle : VehicleInput
  pub status : ApplicationStatus
  pub rejection_reason : Text
  pub submitted_at : ℕ
  pub decided_at : Option ℕ
  pub decided_by : Text

-- scanService
abbrev pub scan_service : CatalogService → ServiceOption
scan_service s = record {
  code = s.code;
  display_name = s.display_name;
  description = s.description;
  minimum_model_year = s.minimum_model_year;
  implied_service_code = s.implied_service_code;
}

abbrev pub services_of : List CatalogService → List ServiceOption
services_of [] = []
services_of (s ∷ t) = scan_service s ∷ services_of t

-- ORDER BY sort_order, display_name, code; `before` is the strict order of the database's collation.
abbrev pub is_listed_before : (Text → Text → Bool) → CatalogService → CatalogService → Bool
is_listed_before before s t =
    ltb s.sort_order t.sort_order
    || (s.sort_order == t.sort_order
        && (before s.display_name t.display_name
            || text_eq s.display_name t.display_name && before s.code t.code))

unfoldable pub list_services : (Text → Text → Bool) → Db → List ServiceOption
list_services before db =
    services_of (sort_by (is_listed_before before) (select (λ s. s.is_active) db.catalog))

unfoldable pub find_service : Cases → Text → Db → Result OnboardingError ServiceOption
find_service u code db = do
  s ←
      or_fail (find (λ s. text_eq s.code (to_lower u (trim_space code)) && s.is_active) db.catalog)
        service_not_found
  ok (scan_service s)

abbrev pub is_pending : ApplicationStatus → Bool
is_pending ApplicationStatus.pending = true
is_pending ApplicationStatus.approved = false
is_pending ApplicationStatus.rejected = false

abbrev pub is_approved : ApplicationStatus → Bool
is_approved ApplicationStatus.pending = false
is_approved ApplicationStatus.approved = true
is_approved ApplicationStatus.rejected = false

abbrev pub is_application : ℕ → ApplicationRow → Bool
is_application id a = a.id == id

abbrev pub decided_by_then : Option ℕ → ℕ → Bool
decided_by_then none t = false
decided_by_then (some d) t = leb d t

-- The CASE of the queries.
unfoldable pub application_type_of : Db → ApplicationRow → ApplicationType
application_type_of db a =
    if exists
        (λ p.
          p.driver_user_id == a.driver_user_id
          && not (p.id == a.id)
          && is_approved p.status
          && decided_by_then p.decided_at a.submitted_at)
        db.applications
      || exists (λ p. p.user_id == a.driver_user_id && leb p.created_at a.submitted_at) db.profiles
    then additional_vehicle_service
    else initial_onboarding

-- COALESCE(…, '')
abbrev pub or_empty : Option Text → Text
or_empty none = []
or_empty (some s) = s

-- scanApplication of a row that is joined with its service.
abbrev pub scan_application : Db → ApplicationRow → CatalogService → Application
scan_application db a s = record {
  id = a.id;
  driver_user_id = a.driver_user_id;
  application_type = application_type_of db a;
  display_name = a.display_name;
  service = scan_service s;
  vehicle = a.vehicle;
  status = a.status;
  rejection_reason = or_empty a.rejection_reason;
  submitted_at = a.submitted_at;
  decided_at = a.decided_at;
  decided_by = or_empty a.decided_by;
}

-- The JOIN with the catalog, on its primary key.
abbrev pub service_of : Db → ApplicationRow → Option CatalogService
service_of db a = find (λ s. text_eq s.code a.service_code) db.catalog

unfoldable pub joined : Db → List ApplicationRow → List Application
joined db [] = []
joined db (a ∷ t) = elim (service_of db a) [
  | none ↦ joined db t
  | some s ↦ scan_application db a s ∷ joined db t
]

-- ORDER BY submitted_at, id: identifiers are compared as the numbers that they are.
abbrev pub is_earlier : Application → Application → Bool
is_earlier a b =
    ltb a.submitted_at b.submitted_at || a.submitted_at == b.submitted_at && ltb a.id b.id

abbrev pub is_later : Application → Application → Bool
is_later a b = is_earlier b a

abbrev pub first_of : List Application → Option Application
first_of [] = none
first_of (a ∷ t) = some a

unfoldable pub latest_application : ℕ → Db → Result OnboardingError Application
latest_application user db =
    or_fail
      (first_of
        (sort_by is_later (joined db (select (λ a. a.driver_user_id == user) db.applications))))
      not_found

unfoldable pub list_pending_applications : Db → List Application
list_pending_applications db =
    sort_by is_earlier (joined db (select (λ a. is_pending a.status) db.applications))

unfoldable pub find_application_by_id : ℕ → Db → Result OnboardingError Application
find_application_by_id id db = do
  a ← or_fail (find (is_application id) db.applications) not_found
  s ← or_fail (service_of db a) not_found
  ok (scan_application db a s)

-- uuid.Nil
abbrev pub nil_uuid : ℕ
nil_uuid = 0

-- ReviewService.Get
unfoldable pub get : ℕ → Db → Result OnboardingError Application
get id db = if id == nil_uuid then err not_found else find_application_by_id id db

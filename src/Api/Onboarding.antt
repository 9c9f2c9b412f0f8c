-- ===== src/Api/Onboarding.antt =====
-- httpapi/driver_onboarding.go and admin_driver_onboarding.go: a Driver's application and its review.
-- The pages of the review, and the operator's sign-in, are left out.
use uber_clone.Common.{ℕ, Option, List, [], ◌∷◌, ◌++◌, ok, map}
use uber_clone.Common.Int.{pos}
use uber_clone.Common.Text.{Text, codes, Cases}
use uber_clone.Store.{ApplicationStatus}
use uber_clone.Users.{driver}
use uber_clone.Http.{
  Response, Request, Handler, refusal, write_json, ◌>>=◌, answer, or_refuse, call, read,
}
use uber_clone.Http.Values.{Json, object, array, text, uuid, int, bool, instant, or_null}
use uber_clone.Http.Access.{require_capability}
use uber_clone.Onboarding.{
  OnboardingError, invalid_application, service_not_found, pending_application,
  vehicle_already_registered, not_found, ineligible, invalid_review_decision,
  application_not_pending, user_missing, ApplicationType, initial_onboarding,
  additional_vehicle_service, ServiceOption, Application, list_services, latest_application,
  list_pending_applications, get,
}
use uber_clone.Onboarding.Submission.{ApplicationInput, precheck, submit}
use uber_clone.Onboarding.Review.{approve, reject}
use uber_clone.Api.{Library, path_id}

abbrev application_type_text : ApplicationType → Text
application_type_text initial_onboarding = codes "initial_onboarding"
application_type_text additional_vehicle_service = codes "additional_vehicle_service"

abbrev application_status_text : ApplicationStatus → Text
application_status_text ApplicationStatus.pending = codes "pending"
application_status_text ApplicationStatus.approved = codes "approved"
application_status_text ApplicationStatus.rejected = codes "rejected"

-- driverServiceResponse
unfoldable pub driver_service_response : ServiceOption → Json
driver_service_response s = object (
    (codes "code", text s.code)
    ∷ (codes "display_name", text s.display_name)
    ∷ (codes "description", text s.description)
    ∷ (codes "minimum_model_year", or_null (λ n. int (pos n)) s.minimum_model_year)
    ∷ (codes "implied_service_code", or_null text s.implied_service_code)
    ∷ [])

abbrev application_fields : Application → List (Text × Json)
application_fields a =
    (codes "id", uuid a.id)
    ∷ (codes "application_type", text (application_type_text a.application_type))
    ∷ (codes "display_name", text a.display_name)
    ∷ (codes "status", text (application_status_text a.status))
    ∷ (codes "service", driver_service_response a.service)
    ∷ (
      codes "vehicle",
      object (
          (codes "make", text a.vehicle.make)
          ∷ (codes "model", text a.vehicle.model)
          ∷ (codes "model_year", int a.vehicle.model_year)
          ∷ (codes "color", text a.vehicle.color)
          ∷ (codes "license_plate", text a.vehicle.license_plate)
          ∷ []),
    )
    ∷ (codes "rejection_reason", text a.rejection_reason)
    ∷ (codes "submitted_at", instant a.submitted_at)
    ∷ (codes "decided_at", or_null instant a.decided_at)
    ∷ (codes "decided_by", text a.decided_by)
    ∷ []

unfoldable pub driver_onboarding_response : Application → Json
driver_onboarding_response a = object (application_fields a)

unfoldable pub admin_driver_onboarding_response : Application → Json
admin_driver_onboarding_response a =
    object (application_fields a ++ (codes "driver_user_id", uuid a.driver_user_id) ∷ [])

abbrev incomplete_details : Response
incomplete_details =
    refusal 400 (codes "complete Driver, service, and vehicle details are required")

abbrev unavailable_service : Response
unavailable_service = refusal 400 (codes "selected service is unavailable")

abbrev unchecked : Response
unchecked = refusal 500 (codes "unable to check service eligibility")

unfoldable pub precheck_error : OnboardingError → Response
precheck_error invalid_application = incomplete_details
precheck_error service_not_found = unavailable_service
precheck_error pending_application = unchecked
precheck_error vehicle_already_registered = unchecked
precheck_error not_found = unchecked
precheck_error ineligible = unchecked
precheck_error invalid_review_decision = unchecked
precheck_error application_not_pending = unchecked
precheck_error user_missing = unchecked

abbrev unsubmitted : Response
unsubmitted = refusal 500 (codes "unable to submit Driver onboarding application")

-- The switch of submitDriverOnboarding.
unfoldable pub submission_error : OnboardingError → Response
submission_error invalid_application = incomplete_details
submission_error service_not_found = unavailable_service
submission_error ineligible = refusal 422 (codes "vehicle is not eligible for selected service")
submission_error pending_application =
    refusal 409 (codes "a Driver onboarding application is already under review")
submission_error vehicle_already_registered =
    refusal 409 (codes "vehicle is already registered for this Driver")
submission_error not_found = unsubmitted
submission_error invalid_review_decision = unsubmitted
submission_error application_not_pending = unsubmitted
submission_error user_missing = unsubmitted

abbrev unreviewed : Response
unreviewed = refusal 500 (codes "unable to review Driver onboarding application")

-- writeDriverReviewError, with driverReviewStatus and driverReviewErrorMessage
unfoldable pub review_error : OnboardingError → Response
review_error not_found = refusal 404 (codes "Driver onboarding application not found")
review_error invalid_review_decision =
    refusal 400 (codes "reviewer and rejection reason are required")
review_error application_not_pending =
    refusal 409 (codes "Driver onboarding application is no longer pending")
review_error invalid_application = unreviewed
review_error service_not_found = unreviewed
review_error pending_application = unreviewed
review_error vehicle_already_registered = unreviewed
review_error ineligible = unreviewed
review_error user_missing = unreviewed

abbrev pub no_application : OnboardingError → Response
no_application e = refusal 404 (codes "driver onboarding application not found")

-- The decoders of the bodies; `year` is the current year.
module _ (lib : Library) (u : Cases) (year : ℕ) (application_body : Text → Option ApplicationInput)
    (reason_body : Text → Option Text) where
  unfoldable pub list_driver_services : Request → Handler Response
  list_driver_services r = do
    user ← require_capability driver r
    l ← λ db. (ok (list_services lib.collation db), db)
    answer
        (write_json 200 (object ((codes "services", array (map driver_service_response l)) ∷ [])))

  unfoldable pub get_driver_onboarding : Request → Handler Response
  get_driver_onboarding r = do
    user ← require_capability driver r
    a ← read (latest_application user.id) no_application
    answer (write_json 200 (driver_onboarding_response a))

  unfoldable pub precheck_driver_onboarding : Request → Handler Response
  precheck_driver_onboarding r = do
    user ← require_capability driver r
    b ← or_refuse (application_body r.body) (refusal 400 (codes "invalid request"))
    x ← read (precheck u year b) precheck_error
    answer (
        write_json 200 (
          object (
            (codes "eligible", bool x.eligible)
            ∷ (codes "reasons", array (map text x.reasons))
            ∷ (codes "service", driver_service_response x.service)
            ∷ [])))

  -- `id` is the identifier of a new application.
  unfoldable pub submit_driver_onboarding : ℕ → Request → Handler Response
  submit_driver_onboarding id r = do
    user ← require_capability driver r
    b ← or_refuse (application_body r.body) (refusal 400 (codes "invalid request"))
    a ← call (λ db. submit u year db id r.now user.id b db) submission_error
    answer (write_json 201 (driver_onboarding_response a))

  abbrev application_id : Request → Handler ℕ
  application_id = path_id lib (codes "application_id") (codes "invalid Driver application id")

  unfoldable pub list_admin_applications : Request → Handler Response
  list_admin_applications r = do
    l ← λ db. (ok (list_pending_applications db), db)
    answer (
        write_json 200
          (object ((codes "applications", array (map admin_driver_onboarding_response l)) ∷ [])))

  unfoldable pub get_admin_application : Request → Handler Response
  get_admin_application r = do
    id ← application_id r
    a ← read (get id) review_error
    answer (write_json 200 (admin_driver_onboarding_response a))

  -- `vehicle` is the identifier of the approved vehicle.
  unfoldable pub approve_admin_application : Text → ℕ → Request → Handler Response
  approve_admin_application reviewer vehicle r = do
    id ← application_id r
    a ← call (approve id vehicle r.now reviewer) review_error
    answer (write_json 200 (admin_driver_onboarding_response a))

  unfoldable pub reject_admin_application : Text → Request → Handler Response
  reject_admin_application reviewer r = do
    id ← application_id r
    reason ← or_refuse (reason_body r.body) (refusal 400 (codes "invalid request"))
    a ← call (reject id r.now reviewer reason) review_error
    answer (write_json 200 (admin_driver_onboarding_response a))

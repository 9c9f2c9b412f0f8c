-- ===== src/Onboarding/Submission.antt =====
-- An application is prechecked and submitted: Service.Precheck, Service.Submit and
-- PostgresRepository.CreateApplication. `year` is the year of time.Now().UTC().
use uber_clone.Common.{
  ℕ, ◌+◌, Bool, false, ◌&&◌, ◌||◌, not, Option, none, some, List, [], ◌∷◌, ◌++◌, ◌==◌, Result, ok,
  ◌>>=◌, ◌>>◌, fail_if, if◌then◌else◌,
}
use uber_clone.Common.Int.{ℤ, pos, ltb_ℤ}
use uber_clone.Common.Text.{Text, Cases, codes, to_lower, to_upper, trim_space, is_empty, text_eq}
use uber_clone.Common.Table.{exists}
use uber_clone.Store.{Db, Vehicle, ApplicationRow, ApplicationStatus, VehicleInput}
use uber_clone.Onboarding.{
  OnboardingError, invalid_application, pending_application, vehicle_already_registered, ineligible,
  user_missing, ApplicationType, initial_onboarding, additional_vehicle_service, ServiceOption,
  Application, find_service, is_pending,
}

pub record ApplicationInput : Type 0 where
  pub display_name : Text
  pub service_code : Text
  pub vehicle : VehicleInput

pub record PrecheckResult : Type 0 where
  pub eligible : Bool
  pub reasons : List Text
  pub service : ServiceOption

unfoldable pub normalize : Cases → ApplicationInput → ApplicationInput
normalize u input = record {
  display_name = trim_space input.display_name;
  service_code = to_lower u (trim_space input.service_code);
  vehicle = record {
    make = trim_space input.vehicle.make;
    model = trim_space input.vehicle.model;
    model_year = input.vehicle.model_year;
    color = trim_space input.vehicle.color;
    license_plate = to_upper u (trim_space input.vehicle.license_plate);
  };
}

unfoldable pub validate_input : ℕ → ApplicationInput → Result OnboardingError (Unit {0})
validate_input year input =
    fail_if
      (is_empty input.display_name
        || is_empty input.service_code
        || is_empty input.vehicle.make
        || is_empty input.vehicle.model
        || is_empty input.vehicle.color
        || is_empty input.vehicle.license_plate
        || ltb_ℤ input.vehicle.model_year (pos 1886)
        || ltb_ℤ (pos (year + 1)) input.vehicle.model_year)
      invalid_application

abbrev pub is_too_old : ℤ → Option ℕ → Bool
is_too_old y none = false
is_too_old y (some least) = ltb_ℤ y (pos least)

abbrev pub too_old : Text
too_old = codes "vehicle model year does not meet the selected service requirement"

unfoldable pub precheck : Cases → ℕ → ApplicationInput → Db → Result OnboardingError PrecheckResult
precheck u year input db = do
  let input' = normalize u input
  validate_input year input'
  s ← find_service u input'.service_code db
  let old = is_too_old input'.vehicle.model_year s.minimum_model_year
  ok (record { eligible = not old; reasons = if old then too_old ∷ [] else []; service = s })

-- lockDriverReviewScope
abbrev pub lock_driver : ℕ → Db → Result OnboardingError (Unit {0})
lock_driver user db = fail_if (not (exists (λ x. x.id == user) db.users)) user_missing

-- applicationTypeForSubmission
unfoldable pub type_for_submission : ℕ → Db → ApplicationType
type_for_submission user db =
    if exists (λ p. p.user_id == user) db.profiles
    then additional_vehicle_service
    else initial_onboarding

abbrev pub has_plate : ℕ → Text → Vehicle → Bool
has_plate user plate v = v.driver_user_id == user && text_eq v.license_plate plate

-- The rows of the unique index driver_onboarding_one_pending_per_driver
abbrev pub is_pending_of : ℕ → ApplicationRow → Bool
is_pending_of user a = a.driver_user_id == user && is_pending a.status

abbrev pub new_application : ℕ → ℕ → ℕ → ApplicationInput → ServiceOption → ApplicationRow
new_application id now user input s = record {
  id = id;
  driver_user_id = user;
  display_name = input.display_name;
  service_code = s.code;
  vehicle = input.vehicle;
  status = ApplicationStatus.pending;
  rejection_reason = none;
  submitted_at = now;
  decided_at = none;
  decided_by = none;
}

abbrev pub submitted : ℕ → ℕ → ℕ → ApplicationInput → ServiceOption → ApplicationType → Application
submitted id now user input s kind = record {
  id = id;
  driver_user_id = user;
  application_type = kind;
  display_name = input.display_name;
  service = s;
  vehicle = input.vehicle;
  status = ApplicationStatus.pending;
  rejection_reason = [];
  submitted_at = now;
  decided_at = none;
  decided_by = [];
}

-- `now` is time.Now() and `id` uuid.New().
unfoldable pub create_application :
    ℕ → ℕ → ℕ → ApplicationInput → ServiceOption → Db → Result OnboardingError (Application × Db)
create_application id now user input s db = do
  lock_driver user db
  let kind = type_for_submission user db
  fail_if (exists (has_plate user input.vehicle.license_plate) db.vehicles)
      vehicle_already_registered
  fail_if (exists (is_pending_of user) db.applications) pending_application
  let a = new_application id now user input s
  ok (submitted id now user input s kind, record db { applications = db.applications ++ a ∷ [] })

-- Precheck reads the catalog in the store `seen`, before the transaction.
unfoldable pub submit :
    Cases → ℕ → Db → ℕ → ℕ → ℕ → ApplicationInput → Db → Result OnboardingError (Application × Db)
submit u year seen id now user input db = do
  let input' = normalize u input
  validate_input year input'
  p ← precheck u year input' seen
  fail_if (not p.eligible) ineligible
  create_application id now user input' p.service db

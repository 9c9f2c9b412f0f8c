-- ===== src/Onboarding/Review.antt =====
-- A reviewer decides an application: ReviewService.Approve and Reject, and ApproveApplication and
-- RejectApplication of the repository.
use uber_clone.Common.{
  ℕ, false, ◌||◌, not, none, some, [], ◌∷◌, ◌++◌, ◌==◌, Result, ok, ◌>>=◌, ◌>>◌, or_fail, fail_if,
  if◌then◌else◌,
}
use uber_clone.Common.Int.{pos_part}
use uber_clone.Common.Text.{Text, trim_space, is_empty}
use uber_clone.Common.Table.{find, exists, update_where}
use uber_clone.Store.{
  Db, Profile, DriverStatus, Vehicle, Enrollment, ApplicationRow, ApplicationStatus,
}
use uber_clone.Onboarding.{
  OnboardingError, not_found, vehicle_already_registered, invalid_review_decision,
  application_not_pending, Application, is_application, is_pending, find_application_by_id,
  nil_uuid,
}
use uber_clone.Onboarding.Submission.{lock_driver, has_plate}

-- loadApplicationDriverUserID
abbrev pub driver_of : ℕ → Db → Result OnboardingError ℕ
driver_of id db = do
  a ← or_fail (find (is_application id) db.applications) not_found
  ok a.driver_user_id

-- What both decisions begin with: the locks, the application as it is now and its status. The query
-- of loadApplicationForUpdate is that of FindApplicationByID, with a lock.
unfoldable pub load_pending : ℕ → Db → Result OnboardingError Application
load_pending id db = do
  driver ← driver_of id db
  lock_driver driver db
  a ← find_application_by_id id db
  fail_if (not (is_pending a.status)) application_not_pending
  ok a

abbrev pub new_profile : Application → ℕ → Profile
new_profile a now = record {
  user_id = a.driver_user_id;
  display_name = some a.display_name;
  status = DriverStatus.approved;
  is_online = false;
  created_at = now;
  updated_at = now;
}

unfoldable pub ensure_driver_profile : Application → ℕ → Db → Db
ensure_driver_profile a now db =
    if exists (λ p. p.user_id == a.driver_user_id) db.profiles
    then db
    else record db { profiles = db.profiles ++ new_profile a now ∷ [] }

-- The column model_year is a natural number in the model; the check of the table has it at least 1886.
abbrev pub new_vehicle : ℕ → Application → ℕ → Vehicle
new_vehicle id a now = record {
  id = id;
  driver_user_id = a.driver_user_id;
  make = a.vehicle.make;
  model = a.vehicle.model;
  model_year = some (pos_part a.vehicle.model_year);
  color = a.vehicle.color;
  license_plate = a.vehicle.license_plate;
  created_at = now;
}

abbrev pub new_enrollment : ℕ → Application → ℕ → Text → Enrollment
new_enrollment vehicle a now reviewer = record {
  vehicle_id = vehicle;
  service_code = a.service.code;
  approved_at = now;
  approved_by = reviewer;
}

abbrev pub set_approved : ℕ → Text → ApplicationRow → ApplicationRow
set_approved now reviewer a = record a {
  status = ApplicationStatus.approved;
  rejection_reason = none;
  decided_at = some now;
  decided_by = some reviewer;
}

abbrev pub set_rejected : ℕ → Text → Text → ApplicationRow → ApplicationRow
set_rejected now reviewer reason a = record a {
  status = ApplicationStatus.rejected;
  rejection_reason = some reason;
  decided_at = some now;
  decided_by = some reviewer;
}

-- The three statements of an approval after the profile's.
abbrev pub with_approval : ℕ → ℕ → Text → Application → Db → Db
with_approval vehicle now reviewer a db = record db {
  vehicles = db.vehicles ++ new_vehicle vehicle a now ∷ [];
  enrollments = db.enrollments ++ new_enrollment vehicle a now reviewer ∷ [];
  applications = update_where (is_application a.id) (set_approved now reviewer) db.applications;
}

abbrev pub approved : ℕ → Text → Application → Application
approved now reviewer a = record a {
  status = ApplicationStatus.approved;
  rejection_reason = [];
  decided_at = some now;
  decided_by = reviewer;
}

abbrev pub rejected : ℕ → Text → Text → Application → Application
rejected now reviewer reason a = record a {
  status = ApplicationStatus.rejected;
  rejection_reason = reason;
  decided_at = some now;
  decided_by = reviewer;
}

-- `vehicle` is uuid.New(), the new vehicle's identifier.
unfoldable pub approve_application :
    ℕ → ℕ → ℕ → Text → Db → Result OnboardingError (Application × Db)
approve_application id vehicle now reviewer db = do
  a ← load_pending id db
  let db₁ = ensure_driver_profile a now db
  fail_if (exists (has_plate a.driver_user_id a.vehicle.license_plate) db₁.vehicles)
      vehicle_already_registered
  ok (approved now reviewer a, with_approval vehicle now reviewer a db₁)

unfoldable pub reject_application :
    ℕ → ℕ → Text → Text → Db → Result OnboardingError (Application × Db)
reject_application id now reviewer reason db = do
  a ← load_pending id db
  ok (
    rejected now reviewer reason a,
    record db {
      applications =
          update_where (is_application a.id) (set_rejected now reviewer reason) db.applications;
    },
  )

unfoldable pub approve : ℕ → ℕ → ℕ → Text → Db → Result OnboardingError (Application × Db)
approve id vehicle now reviewer db = do
  let reviewer' = trim_space reviewer
  fail_if (id == nil_uuid || is_empty reviewer') invalid_review_decision
  approve_application id vehicle now reviewer' db

unfoldable pub reject : ℕ → ℕ → Text → Text → Db → Result OnboardingError (Application × Db)
reject id now reviewer reason db = do
  let reviewer' = trim_space reviewer
  let reason' = trim_space reason
  fail_if (id == nil_uuid || is_empty reviewer' || is_empty reason') invalid_review_decision
  reject_application id now reviewer' reason' db

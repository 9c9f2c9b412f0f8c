-- ===== src/Onboarding/Tests.antt =====
-- Tests of the onboarding of Drivers.
use uber_clone.Common.{ℕ, ◌≡◌, refl, false, none, [], ◌∷◌, ◌++◌, ok, err}
use uber_clone.Common.Int.{pos}
use uber_clone.Common.Text.{
  Text, ascii, codes, text_eq, trim_space, trim_left, trim_right, is_space, is_empty,
}
use uber_clone.Store.{Db}
use uber_clone.Onboarding.{
  ServiceOption, application_not_pending, Application, initial_onboarding, find_service,
  find_application_by_id, application_type_of,
}
use uber_clone.Onboarding.Submission.{
  ApplicationInput, normalize, validate_input, precheck, submit, create_application,
  type_for_submission, new_application, submitted,
}
use uber_clone.Onboarding.Review.{
  load_pending, approve, approve_application, reject, ensure_driver_profile, new_profile, approved,
  with_approval,
}
use uber_clone.Onboarding.Decided.{decided_once, by_approval}
use uber_clone.Onboarding.Steps.{IsReviewable, start, next, submits, Reaches-IsReviewable}
use uber_clone.Onboarding.Approved.{IsApproved, approve-IsApproved, submit-approve}
use uber_clone.Sample.{sample}

abbrev an_input : ApplicationInput
an_input = record {
  display_name = codes " Ann";
  service_code = codes "CAR";
  vehicle = record {
    make = codes "Suzuki";
    model = codes "Alto";
    model_year = pos 2020;
    color = codes "white ";
    license_plate = codes "abc";
  };
}

abbrev tidy_input : ApplicationInput
tidy_input = record {
  display_name = codes "Ann";
  service_code = codes "car";
  vehicle = record {
    make = codes "Suzuki";
    model = codes "Alto";
    model_year = pos 2020;
    color = codes "white";
    license_plate = codes "ABC";
  };
}

abbrev the_service : ServiceOption
the_service = record {
  code = codes "car";
  display_name = codes "Car";
  description = [];
  minimum_model_year = none;
  implied_service_code = none;
}

abbrev an_application : Application
an_application = submitted 3 50 10 tidy_input the_service initial_onboarding

abbrev with_application : Db
with_application = record sample {
  applications = new_application 3 50 10 tidy_input the_service ∷ [];
}

submits_one :
    submit ascii 2024 sample 3 50 10 an_input sample ≡ ok (an_application, with_application)
unfolding submit normalize validate_input precheck find_service create_application
    type_for_submission text_eq trim_space trim_left trim_right is_space
submits_one = refl

abbrev with_vehicle : Db
with_vehicle = with_approval 90 60 (codes "ops") an_application (record with_application {
  profiles = with_application.profiles ++ new_profile an_application 60 ∷ [];
})

approves_one :
    approve 3 90 60 (codes "ops ") with_application
    ≡ ok (approved 60 (codes "ops") an_application, with_vehicle)
unfolding approve approve_application load_pending find_application_by_id application_type_of
    ensure_driver_profile text_eq trim_space trim_left trim_right is_space
approves_one = refl

approve-IsApproved_example :
    IsApproved 90 60
      (trim_space (codes "ops "))
      with_application
      (approved 60 (codes "ops") an_application)
      with_vehicle
approve-IsApproved_example = approve-IsApproved 3 90 60 (codes "ops ") with_application approves_one

submit-approve_example :
    (a : Application) × (db : Db) × (approve 3 90 60 (codes "ops") with_application ≡ ok (a, db))
unfolding trim_space trim_left trim_right is_space
submit-approve_example =
    submit-approve ascii 2024 3 50 10 an_input sample 90 60 (codes "ops") refl refl refl submits_one

decided_once_example :
    ((vehicle : ℕ) → approve 3 vehicle 70 (codes "ops") with_vehicle ≡ err application_not_pending)
    × ((reason : Text)
        → is_empty (trim_space reason) ≡ false
        → reject 3 70 (codes "ops") reason with_vehicle ≡ err application_not_pending)
unfolding trim_space trim_left trim_right is_space
decided_once_example =
    decided_once 3 with_application with_vehicle
      (by_approval 90 60 (codes "ops ") (approved 60 (codes "ops") an_application) approves_one) 70
      (codes "ops") refl refl

Reaches-IsReviewable_example : IsReviewable with_application.applications
Reaches-IsReviewable_example =
    Reaches-IsReviewable sample with_application
      (next sample with_application start
        (submits ascii 2024 sample 3 50 10 an_input an_application submits_one))
      (record { one_pending = tt; sound = tt })

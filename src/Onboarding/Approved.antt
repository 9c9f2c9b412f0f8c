-- ===== src/Onboarding/Approved.antt =====
-- What an approval makes of an application: the Driver's profile, a vehicle and its service.
use uber_clone.Common.{
  ℕ, ◌≡◌, refl, Bool, true, false, ◌&&◌, ◌||◌, not, some, [], ◌∷◌, ◌++◌, ◌==◌, ==_refl, arith, ok,
  >>=-eq-ok, fail_if, Bool-cases, Option-cases, inl, inr,
}
use uber_clone.Common.Text.{Text, Cases, to_lower, trim_space, is_empty, text_eq, text_eq_refl}
use uber_clone.Common.Table.{find, exists, exists-append, find-append, find-exists_too, exists-find}
use uber_clone.Store.{Db, Profile, ApplicationStatus, CatalogService}
use uber_clone.Onboarding.{
  ineligible, ServiceOption, Application, is_application, scan_application, find_application_by_id,
  find_service, nil_uuid,
}
use uber_clone.Onboarding.Submission.{
  ApplicationInput, normalize, validate_input, PrecheckResult, precheck, submit, create_application,
  new_application, has_plate,
}
use uber_clone.Onboarding.Review.{
  load_pending, approve, approve_application, with_approval, ensure_driver_profile, approved,
  new_profile, new_vehicle, new_enrollment,
}
use uber_clone.Onboarding.Decided.{approve-inv, approve_application-inv, ensure_driver_profile-inv}

-- What an approval of the application `a` does.
pub record IsApproved (vehicle now : ℕ) (reviewer : Text) (db : Db) (a : Application) (db' : Db)
    : Type 0 where
  pub decided :
      (a.status ≡ ApplicationStatus.approved)
      × (a.decided_at ≡ some now)
      × (a.decided_by ≡ reviewer)
  pub has_profile : exists (λ p. p.user_id == a.driver_user_id) db'.profiles ≡ true
  pub new_plate : exists (has_plate a.driver_user_id a.vehicle.license_plate) db.vehicles ≡ false
  pub vehicles : db'.vehicles ≡ db.vehicles ++ new_vehicle vehicle a now ∷ []
  pub enrollments : db'.enrollments ≡ db.enrollments ++ new_enrollment vehicle a now reviewer ∷ []

or_true : (a : Bool) → (a || true) ≡ true
or_true a = ground arith

profile-ensured :
    (a : Application) (now : ℕ) (db : Db)
    → exists (λ p. p.user_id == a.driver_user_id) (ensure_driver_profile a now db).profiles ≡ true
unfolding ensure_driver_profile
profile-ensured a now db =
    let q : Profile → Bool = λ p. p.user_id == a.driver_user_id in
    elim (Bool-cases (exists q db.profiles)) [
      | inl e ↦ rw e e
      | inr e ↦
          rw (e, exists-append q db.profiles (new_profile a now ∷ []), ==_refl a.driver_user_id)
            (ground arith)
    ]

plate-free :
    (id vehicle now : ℕ) (reviewer : Text) (db : Db) {a a₀ : Application} {db' : Db}
    → approve_application id vehicle now reviewer db ≡ ok (a, db')
    → load_pending id db ≡ ok a₀
    → exists
        (has_plate a₀.driver_user_id a₀.vehicle.license_plate)
        (ensure_driver_profile a₀ now db).vehicles
      ≡ false
unfolding approve_application
plate-free id vehicle now reviewer db h e = ground arith

-- Where Approve succeeds, the answered application is approved, now and by the reviewer; its Driver
-- has a profile; the plate was not yet one of the Driver's vehicles; and one vehicle is added, the
-- application's, with one enrollment, in the application's service only.
pub approve-IsApproved :
    (id vehicle now : ℕ) (reviewer : Text) (db : Db) {a : Application} {db' : Db}
    → approve id vehicle now reviewer db ≡ ok (a, db')
    → IsApproved vehicle now (trim_space reviewer) db a db'
approve-IsApproved id vehicle now reviewer db {a} {db'} h =
    let who = trim_space reviewer in
    let done = approve-inv id vehicle now reviewer db h in
    let (a₀, loaded, answer, after) = approve_application-inv id vehicle now who db done in
    let (ps, e) = ensure_driver_profile-inv a₀ now db in
    let profile = profile-ensured a₀ now db in
    let free = plate-free id vehicle now who db done loaded in
    record {
      decided = (rw answer refl, rw answer refl, rw answer refl);
      has_profile = rw (answer, after) profile;
      new_plate = rw answer (rw e at free);
      vehicles = rw (answer, after, e) refl;
      enrollments = rw (answer, after, e) refl;
    }

precheck-inv :
    (u : Cases) (year : ℕ) (input : ApplicationInput) (db : Db) {p : PrecheckResult}
    → precheck u year input db ≡ ok p
    → find_service u (normalize u input).service_code db ≡ ok p.service
unfolding precheck
precheck-inv u year input db h =
    let (_, _, h₁) = >>=-eq-ok (validate_input year (normalize u input)) _ h in
    let (s, e, h₂) = >>=-eq-ok (find_service u (normalize u input).service_code db) _ h₁ in
    cc (e, h₂)

-- What a submission leaves for the review.
submit-inv :
    (u : Cases) (year id now user : ℕ) (input : ApplicationInput) (db : Db) {a : Application}
    {db' : Db}
    → submit u year db id now user input db ≡ ok (a, db')
    → (s : ServiceOption) × (find_service u (normalize u (normalize u input)).service_code db
        ≡ ok s)
      × (create_application id now user (normalize u input) s db ≡ ok (a, db'))
unfolding submit precheck
submit-inv u year id now user input db h =
    let (_, _, h₁) = >>=-eq-ok (validate_input year (normalize u input)) _ h in
    let (p, e, h₂) = >>=-eq-ok (precheck u year (normalize u input) db) _ h₁ in
    let (_, _, h₃) = >>=-eq-ok (fail_if (not p.eligible) ineligible) _ h₂ in
    (p.service, precheck-inv u year (normalize u input) db e, h₃)

found_service :
    (u : Cases) (code : Text) (db : Db) {s : ServiceOption}
    → find_service u code db ≡ ok s
    → exists (λ x. text_eq x.code s.code) db.catalog ≡ true
unfolding find_service
found_service u code db {s} h =
    let q : CatalogService → Bool =
      λ x. text_eq x.code (to_lower u (trim_space code)) && x.is_active in
    elim (Option-cases (find q db.catalog)) [
      | inl e ↦ absurd (ground arith)
      | inr (c, e) ↦
          let same : s.code ≡ c.code = ground arith in
          find-exists_too q (λ x. text_eq x.code s.code) db.catalog e
            (rw same (text_eq_refl c.code))
    ]

create-inv :
    (id now user : ℕ) (input : ApplicationInput) (s : ServiceOption) (db : Db) {a : Application}
    {db' : Db}
    → create_application id now user input s db ≡ ok (a, db')
    → (exists (λ x. x.id == user) db.users ≡ true)
      × (exists (has_plate user input.vehicle.license_plate) db.vehicles ≡ false)
      × (db' ≡ record db {
        applications = db.applications ++ new_application id now user input s ∷ [];
      })
unfolding create_application
create-inv id now user input s db h = (ground arith, ground arith, ground arith)

loaded-approve :
    (id vehicle now : ℕ) (reviewer : Text) (db : Db) (a : Application)
    → (id == nil_uuid) ≡ false
    → is_empty (trim_space reviewer) ≡ false
    → load_pending id db ≡ ok a
    → exists (has_plate a.driver_user_id a.vehicle.license_plate) db.vehicles ≡ false
    → (a' : Application) × (db' : Db) × (approve id vehicle now reviewer db ≡ ok (a', db'))
unfolding approve approve_application
loaded-approve id vehicle now reviewer db a real named loaded free =
    let (ps, e) = ensure_driver_profile-inv a now db in
    let plate : exists (has_plate a.driver_user_id a.vehicle.license_plate)
          (ensure_driver_profile a now db).vehicles
        ≡ false =
      rw e free in
    (
      approved now (trim_space reviewer) a,
      with_approval vehicle now (trim_space reviewer) a (ensure_driver_profile a now db),
      rw (real, named, loaded, plate) refl,
    )

-- Where a submission under a new identifier succeeds, the application is in the store, and a reviewer
-- with a name can approve it: Approve succeeds.
pub submit-approve :
    (u : Cases) (year id now user : ℕ) (input : ApplicationInput) (db : Db) {a : Application}
    {db' : Db} (vehicle later : ℕ) (reviewer : Text)
    → exists (is_application id) db.applications ≡ false
    → (id == nil_uuid) ≡ false
    → is_empty (trim_space reviewer) ≡ false
    → submit u year db id now user input db ≡ ok (a, db')
    → (a' : Application) × (db'' : Db) × (approve id vehicle later reviewer db' ≡ ok (a', db''))
unfolding load_pending find_application_by_id
submit-approve u year id now user input db {db'} vehicle later reviewer new real named h =
    let (s, found_, created) = submit-inv u year id now user input db h in
    let (known, free, after) = create-inv id now user (normalize u input) s db created in
    let (c, there) =
      exists-find (λ x. text_eq x.code s.code) db.catalog
        (found_service u (normalize u (normalize u input)).service_code db found_) in
    let r = new_application id now user (normalize u input) s in
    let row : find (is_application id) (db.applications ++ r ∷ []) ≡ some r =
      rw (find-append (is_application id) db.applications (r ∷ []) new, ==_refl id) refl in
    let loaded : load_pending id db' ≡ ok (scan_application db' r c) =
      rw (after, row, there, known) refl in
    loaded-approve id vehicle later reviewer db' (scan_application db' r c) real named loaded
      (rw after free)

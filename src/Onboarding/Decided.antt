-- ===== src/Onboarding/Decided.antt =====
-- An application is decided once, and its columns fit its status.
use uber_clone.Common.{
  ℕ, ◌≡◌, refl, true, false, ◌||◌, some, List, [], ◌∷◌, ◌++◌, ◌==◌, arith, ok, err, >>=-eq-ok,
  fail_if, Bool-cases, Option-cases, Result-cases, inl, inr,
}
use uber_clone.Common.Text.{Text, trim_space, is_empty}
use uber_clone.Common.Table.{find, exists, update_where, find-update_self, find_sound}
use uber_clone.Store.{Db, Profile, ApplicationRow, CatalogService}
use uber_clone.Onboarding.{
  application_not_pending, invalid_review_decision, nil_uuid, Application, is_application,
  is_pending, service_of, scan_application, find_application_by_id,
}
use uber_clone.Onboarding.Review.{
  load_pending, approve, approve_application, reject, reject_application, set_approved,
  set_rejected, with_approval, ensure_driver_profile, approved, rejected, new_profile,
}

-- The row of a pending application, as load_pending reads it.
pub record IsPendingRow (id : ℕ) (db : Db) (r : ApplicationRow) (a : Application) : Type 0 where
  pub row : find (is_application id) db.applications ≡ some r
  pub service : (s : CatalogService) × (service_of db r ≡ some s) × (a ≡ scan_application db r s)
  pub pending : is_pending r.status ≡ true
  pub same_id : r.id ≡ id
  pub user : exists (λ x. x.id == r.driver_user_id) db.users ≡ true

same_number : (a b : ℕ) → (a == b) ≡ true → a ≡ b
same_number a b h = ground arith

pub load_pending-inv :
    (id : ℕ) (db : Db) {a : Application}
    → load_pending id db ≡ ok a
    → (r : ApplicationRow) × IsPendingRow id db r a
unfolding load_pending find_application_by_id
load_pending-inv id db h = elim (Option-cases (find (is_application id) db.applications)) [
  | inl e ↦ absurd (ground arith)
  | inr (r, e) ↦ elim (Option-cases (service_of db r)) [
    | inl f ↦ absurd (ground arith)
    | inr (s, f) ↦ (
      r,
      record {
        row = e;
        service = (s, f, ground arith);
        pending = ground arith;
        same_id = same_number r.id id (find_sound (is_application id) db.applications e);
        user = ground arith;
      },
    )
  ]
]

-- The columns of the store after an approval and after a rejection.
pub approve_application-inv :
    (id vehicle now : ℕ) (reviewer : Text) (db : Db) {a : Application} {db' : Db}
    → approve_application id vehicle now reviewer db ≡ ok (a, db')
    → (a₀ : Application) × (load_pending id db ≡ ok a₀)
      × (a ≡ approved now reviewer a₀)
      × (db' ≡ with_approval vehicle now reviewer a₀ (ensure_driver_profile a₀ now db))
unfolding approve_application
approve_application-inv id vehicle now reviewer db h = elim (Result-cases (load_pending id db)) [
  | inl (a, e) ↦ (a, e, ground arith, ground arith)
  | inr (x, e) ↦ absurd (ground arith)
]

pub reject_application-inv :
    (id now : ℕ) (reviewer reason : Text) (db : Db) {a : Application} {db' : Db}
    → reject_application id now reviewer reason db ≡ ok (a, db')
    → (a₀ : Application) × (load_pending id db ≡ ok a₀)
      × (a ≡ rejected now reviewer reason a₀)
      × (db' ≡ record db {
        applications =
            update_where (is_application a₀.id) (set_rejected now reviewer reason) db.applications;
      })
unfolding reject_application
reject_application-inv id now reviewer reason db h = elim (Result-cases (load_pending id db)) [
  | inl (a, e) ↦ (a, e, ground arith, ground arith)
  | inr (x, e) ↦ absurd (ground arith)
]

-- The profile is all that the first statement of an approval adds.
pub ensure_driver_profile-inv :
    (a : Application) (now : ℕ) (db : Db)
    → (ps : List Profile) × (ensure_driver_profile a now db ≡ record db { profiles = ps })
unfolding ensure_driver_profile
ensure_driver_profile-inv a now db =
    elim (Bool-cases (exists (λ p. p.user_id == a.driver_user_id) db.profiles)) [
      | inl e ↦ (db.profiles, rw e refl)
      | inr e ↦ (db.profiles ++ new_profile a now ∷ [], rw e refl)
    ]

-- An application of the store whose status is no longer pending is not loaded.
not_pending :
    (id : ℕ) (db : Db) (r : ApplicationRow) (s : CatalogService)
    → find (is_application id) db.applications ≡ some r
    → service_of db r ≡ some s
    → exists (λ x. x.id == r.driver_user_id) db.users ≡ true
    → is_pending r.status ≡ false
    → load_pending id db ≡ err application_not_pending
unfolding load_pending find_application_by_id
not_pending id db r s row service user decided = rw (row, user, service, decided) refl

-- After a decision that keeps the rows' identifiers, Drivers and services, the application is not
-- loaded again.
decided_row :
    (id : ℕ) (db : Db) (f : ApplicationRow → ApplicationRow) (r : ApplicationRow) (a : Application)
    (db' : Db)
    → IsPendingRow id db r a
    → ((x : ApplicationRow) → is_application id (f x) ≡ is_application id x)
    → (f r).driver_user_id ≡ r.driver_user_id
    → (f r).service_code ≡ r.service_code
    → is_pending (f r).status ≡ false
    → db'.applications ≡ update_where (is_application a.id) f db.applications
    → db'.catalog ≡ db.catalog
    → db'.users ≡ db.users
    → load_pending id db' ≡ err application_not_pending
decided_row id db f r a db' p keep driver code decided apps catalog users =
    let (s, e, same) = p.service in
    let a_id : a.id ≡ id = rw same p.same_id in
    let found_row = find-update_self (is_application id) f db.applications keep p.row in
    not_pending id db' (f r) s (rw (apps, a_id) found_row) (rw (catalog, code) e)
      (rw (users, driver) p.user) decided

-- A decision of an application: what is answered, and the store before and after.
pub data IsDecision (id : ℕ) (db db' : Db) : Type 0 where
  by_approval :
      (vehicle now : ℕ) (reviewer : Text) (a : Application)
      → approve id vehicle now reviewer db ≡ ok (a, db')
      → IsDecision id db db'
  by_rejection :
      (now : ℕ) (reviewer reason : Text) (a : Application)
      → reject id now reviewer reason db ≡ ok (a, db')
      → IsDecision id db db'

pub approve-inv :
    (id vehicle now : ℕ) (reviewer : Text) (db : Db) {a : Application} {db' : Db}
    → approve id vehicle now reviewer db ≡ ok (a, db')
    → approve_application id vehicle now (trim_space reviewer) db ≡ ok (a, db')
unfolding approve
approve-inv id vehicle now reviewer db h =
    let unnamed = id == nil_uuid || is_empty (trim_space reviewer) in
    (>>=-eq-ok (fail_if unnamed invalid_review_decision) _ h).2

pub reject-inv :
    (id now : ℕ) (reviewer reason : Text) (db : Db) {a : Application} {db' : Db}
    → reject id now reviewer reason db ≡ ok (a, db')
    → (is_empty (trim_space reason) ≡ false)
      × (reject_application id now (trim_space reviewer) (trim_space reason) db ≡ ok (a, db'))
unfolding reject
reject-inv id now reviewer reason db h =
    let unnamed =
      id == nil_uuid || is_empty (trim_space reviewer) || is_empty (trim_space reason) in
    let (_, passed, done) = >>=-eq-ok (fail_if unnamed invalid_review_decision) _ h in
    (ground arith, done)

decision-not_pending :
    (id : ℕ) (db db' : Db)
    → IsDecision id db db'
    → load_pending id db' ≡ err application_not_pending
unfolding approve reject
decision-not_pending id db db' (by_approval vehicle now reviewer a h) =
    let done = approve-inv id vehicle now reviewer db h in
    let (a₀, loaded, _, after) =
      approve_application-inv id vehicle now (trim_space reviewer) db done in
    let (r, p) = load_pending-inv id db loaded in
    let (ps, e) = ensure_driver_profile-inv a₀ now db in
    decided_row id db (set_approved now (trim_space reviewer)) r a₀ db' p (λ x. refl) refl refl refl
      (rw (after, e) refl) (rw (after, e) refl) (rw (after, e) refl)
decision-not_pending id db db' (by_rejection now reviewer reason a h) =
    let (_, done) = reject-inv id now reviewer reason db h in
    let (a₀, loaded, _, after) =
      reject_application-inv id now (trim_space reviewer) (trim_space reason) db done in
    let (r, p) = load_pending-inv id db loaded in
    decided_row id db (set_rejected now (trim_space reviewer) (trim_space reason)) r a₀ db' p
      (λ x. refl) refl refl refl (rw after refl) (rw after refl) (rw after refl)

-- An application that was approved or rejected is decided: any later approval or rejection of it, by
-- a reviewer with a name and, for a rejection, with a reason, answers that it is not pending.
pub decided_once :
    (id : ℕ) (db db' : Db)
    → IsDecision id db db'
    → (now : ℕ) (reviewer : Text) → (id == nil_uuid) ≡ false
    → is_empty (trim_space reviewer) ≡ false
    → ((vehicle : ℕ) → approve id vehicle now reviewer db' ≡ err application_not_pending)
      × ((reason : Text)
          → is_empty (trim_space reason) ≡ false
          → reject id now reviewer reason db' ≡ err application_not_pending)
unfolding approve reject approve_application reject_application
decided_once id db db' d now reviewer real named =
    let stopped = decision-not_pending id db db' d in
    (λ vehicle. rw (real, named, stopped) refl, λ reason why. rw (real, named, why, stopped) refl)

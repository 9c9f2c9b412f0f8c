-- ===== src/Driver/Vehicles.antt =====
-- driver/postgres_repository.go: ListVehicles, a Driver's vehicles with their enrollments.
use uber_clone.Common.{
  ℕ, ◌≡◌, ◌≢◌, refl, Bool, true, false, ◌&&◌, ◌||◌, Option, none, some, List, [], ◌∷◌, ◌++◌, ◌==◌,
  ltb, arith, All-map, if◌then◌else◌, Bool-cases, inl, inr,
}
use uber_clone.Common.Text.{Text, text_eq}
use uber_clone.Common.Table.{find, exists, select, update_where, exists-All-false}
use uber_clone.Common.Keys.{IsKeyed, append-IsKeyed, update_where-IsKeyed}
use uber_clone.Common.Order.{sort_by}
use uber_clone.Store.{Db, Vehicle, Enrollment, CatalogService}

pub record ServiceEnrollment : Type 0 where
  pub service_code : Text
  pub display_name : Text
  pub approved_at : ℕ
  pub service_active : Bool

-- driver.Vehicle
pub record VehicleView : Type 0 where
  pub enrollments : List ServiceEnrollment
  pub id : ℕ
  pub make : Text
  pub model : Text
  pub model_year : ℕ
  pub color : Text
  pub license_plate : Text

-- A row of the query; the foreign key of an enrollment says that it has its service.
pub record VehicleRow : Type 0 where
  pub vehicle : Vehicle
  pub enrollment : Option (Enrollment × CatalogService)

abbrev pub enrolled_rows : Db → Vehicle → List Enrollment → List VehicleRow
enrolled_rows db v [] = []
enrolled_rows db v (e ∷ t) =
    let rest = enrolled_rows db v t in
    elim (find (λ c. text_eq c.code e.service_code) db.catalog) [
      | none ↦ rest
      | some c ↦ record { vehicle = v; enrollment = some (e, c) } ∷ rest
    ]

-- The LEFT JOIN: a vehicle without an enrollment has one row.
abbrev pub or_alone : Vehicle → List VehicleRow → List VehicleRow
or_alone v [] = record { vehicle = v; enrollment = none } ∷ []
or_alone v (r ∷ t) = r ∷ t

unfoldable pub vehicle_rows : Db → List Vehicle → List VehicleRow
vehicle_rows db [] = []
vehicle_rows db (v ∷ t) =
    or_alone v (enrolled_rows db v (select (λ e. e.vehicle_id == v.id) db.enrollments))
    ++ vehicle_rows db t

-- ORDER BY the sort order and the code of the service; `before` is the order of the collation.
abbrev pub is_service_before :
    (Text → Text → Bool)
    → Option (Enrollment × CatalogService)
    → Option (Enrollment × CatalogService)
    → Bool
is_service_before before none y = false
is_service_before before (some x) none = true
is_service_before before (some (e, c)) (some (e', c')) =
    ltb c.sort_order c'.sort_order
    || c.sort_order == c'.sort_order && before e.service_code e'.service_code

abbrev pub is_row_before : (Text → Text → Bool) → VehicleRow → VehicleRow → Bool
is_row_before before r s =
    ltb r.vehicle.created_at s.vehicle.created_at
    || r.vehicle.created_at == s.vehicle.created_at
      && (ltb r.vehicle.id s.vehicle.id
          || r.vehicle.id == s.vehicle.id && is_service_before before r.enrollment s.enrollment)

-- COALESCE(v.model_year, 0)
abbrev pub year_or_zero : Option ℕ → ℕ
year_or_zero none = 0
year_or_zero (some y) = y

abbrev pub vehicle_view : Vehicle → VehicleView
vehicle_view v = record {
  enrollments = [];
  id = v.id;
  make = v.make;
  model = v.model;
  model_year = year_or_zero v.model_year;
  color = v.color;
  license_plate = v.license_plate;
}

abbrev pub enrollment_view : Enrollment × CatalogService → ServiceEnrollment
enrollment_view x = record {
  service_code = x.0.service_code;
  display_name = x.1.display_name;
  approved_at = x.0.approved_at;
  service_active = x.1.is_active;
}

abbrev pub is_view : ℕ → VehicleView → Bool
is_view id v = v.id == id

abbrev pub add_enrollment : Enrollment × CatalogService → VehicleView → VehicleView
add_enrollment x v = record v { enrollments = v.enrollments ++ enrollment_view x ∷ [] }

-- The map of indices finds the vehicle that is already listed.
unfoldable pub list_vehicle : Vehicle → List VehicleView → List VehicleView
list_vehicle v vs = if exists (is_view v.id) vs then vs else vs ++ vehicle_view v ∷ []

abbrev pub list_enrollment :
    ℕ → Option (Enrollment × CatalogService) → List VehicleView → List VehicleView
list_enrollment id none vs = vs
list_enrollment id (some x) vs = update_where (is_view id) (add_enrollment x) vs

-- The loop over the rows.
unfoldable pub collect : List VehicleRow → List VehicleView → List VehicleView
collect [] vs = vs
collect (r ∷ t) vs =
    collect t (list_enrollment r.vehicle.id r.enrollment (list_vehicle r.vehicle vs))

unfoldable pub list_vehicles : (Text → Text → Bool) → ℕ → Db → List VehicleView
list_vehicles before user db =
    collect
      (sort_by (is_row_before before)
        (vehicle_rows db (select (λ v. v.driver_user_id == user) db.vehicles)))
      []

abbrev pub view_key : VehicleView → ℕ
view_key v = v.id

other_view : (id : ℕ) (v : VehicleView) → is_view id v ≡ false → v.id ≢ id
other_view id v h e = ground arith

list_vehicle-IsKeyed :
    (v : Vehicle) (vs : List VehicleView)
    → IsKeyed view_key vs
    → IsKeyed view_key (list_vehicle v vs)
unfolding list_vehicle
list_vehicle-IsKeyed v vs h = elim (Bool-cases (exists (is_view v.id) vs)) [
  | inl e ↦ rw e h
  | inr e ↦ rw e (
      append-IsKeyed view_key (vehicle_view v) vs
        (All-map (λ x. is_view v.id x ≡ false) (λ x. view_key x ≢ v.id) vs (other_view v.id)
          (exists-All-false (is_view v.id) vs e))
        h)
]

list_enrollment-IsKeyed :
    (id : ℕ) (x : Option (Enrollment × CatalogService)) (vs : List VehicleView)
    → IsKeyed view_key vs
    → IsKeyed view_key (list_enrollment id x vs)
list_enrollment-IsKeyed id none vs h = h
list_enrollment-IsKeyed id (some x) vs h =
    update_where-IsKeyed view_key (is_view id) (add_enrollment x) vs (λ v. refl) h

-- Each vehicle is listed once, however its rows are ordered.
pub collect-IsKeyed :
    (rows : List VehicleRow) (vs : List VehicleView)
    → IsKeyed view_key vs
    → IsKeyed view_key (collect rows vs)
unfolding collect
collect-IsKeyed [] vs h = h
collect-IsKeyed (r ∷ t) vs h =
    collect-IsKeyed t (list_enrollment r.vehicle.id r.enrollment (list_vehicle r.vehicle vs)) (
      list_enrollment-IsKeyed r.vehicle.id r.enrollment (list_vehicle r.vehicle vs)
        (list_vehicle-IsKeyed r.vehicle vs h))

-- ===== src/Driver/Eligibility.antt =====
-- marketplace.go and marketplace_postgres.go: which Drivers may offer and be assigned. A JOIN is a
-- nest of EXISTS tests over its tables.
use uber_clone.Common.{ℕ, ◌+◌, Bool, true, false, ◌&&◌, not, List, ◌==◌, leb}
use uber_clone.Common.Table.{exists}
use uber_clone.Common.Text.{Text, text_eq}
use uber_clone.Store.{Db, Trip, TripStatus, DriverStatus, Clock}

-- MarketplaceLocationMaxAge, 2 * time.Minute, in PostgreSQL's microseconds.
abbrev pub location_max_age : ℕ
location_max_age = 120000000

-- l.updated_at BETWEEN now - max age AND now
abbrev pub is_fresh : ℕ → ℕ → Bool
is_fresh now updated = leb now (updated + location_max_age) && leb updated now

-- status IN ('assigned', 'in_progress')
abbrev pub is_active_status : TripStatus → Bool
is_active_status TripStatus.assigned = true
is_active_status TripStatus.in_progress = true
is_active_status _ = false

abbrev pub is_active_trip_of : ℕ → Trip → Bool
is_active_trip_of driver t = (t.driver_user_id == driver) && is_active_status t.status

abbrev pub has_active_trip : ℕ → List Trip → Bool
has_active_trip driver = exists (is_active_trip_of driver)

abbrev pub is_active_driver : DriverStatus → Bool
is_active_driver DriverStatus.active = true
is_active_driver DriverStatus.approved = false

-- JOIN driver_service_catalog sc ON sc.code = e.service_code AND sc.is_active
abbrev pub is_offered_service : Text → Db → Bool
is_offered_service code db = exists (λ sc. text_eq sc.code code && sc.is_active) db.catalog

-- JOIN driver_vehicle_service_enrollments e ON e.vehicle_id = … AND e.service_code = …
abbrev pub is_enrolled : ℕ → Text → Db → Bool
is_enrolled vehicle service db =
    exists
      (λ e.
        (e.vehicle_id == vehicle)
        && text_eq e.service_code service
        && is_offered_service e.service_code db)
      db.enrollments

-- The Driver's selected vehicle is the Driver's own and is enrolled in the service.
abbrev pub operates : ℕ → Text → Db → Bool
operates driver service db =
    exists
      (λ s.
        (s.driver_user_id == driver)
        && exists
            (λ v.
              (v.id == s.vehicle_id) && (v.driver_user_id == driver) && is_enrolled v.id service db)
            db.vehicles)
      db.selections

abbrev pub has_capability : ℕ → Db → Bool
has_capability driver db = exists (λ u. u == driver) db.drivers

-- The first statement locks the rows that it joins.
unfoldable pub has_operation : ℕ → Text → Db → Bool
has_operation driver service db =
    exists (λ p. p.user_id == driver) db.profiles
    && operates driver service db
    && has_capability driver db
    && exists (λ l. l.driver_user_id == driver) db.locations

-- The second statement decides.
unfoldable pub is_available : ℕ → ℕ → Text → Db → Bool
is_available now driver service db =
    exists (λ p. (p.user_id == driver) && is_active_driver p.status && p.is_online) db.profiles
    && operates driver service db
    && has_capability driver db
    && exists (λ l. (l.driver_user_id == driver) && is_fresh now l.updated_at) db.locations
    && not (has_active_trip driver db.trips)

-- LockMarketplaceEligible, whose statements are number `k` and the next.
unfoldable pub lock_marketplace_eligible : Clock → ℕ → ℕ → Text → Db → Bool
unfolding has_operation is_available
lock_marketplace_eligible c k driver service db =
    has_operation driver service db && is_available (c.at (k + 1)) driver service db

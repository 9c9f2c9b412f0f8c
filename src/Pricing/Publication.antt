-- ===== src/Pricing/Publication.antt =====
-- pricing/postgres_repository.go: policies are published as versions that never change, and a pointer
-- for each service and currency names the current one.
pub mod Current
pub mod Disabled
pub mod Tests
use uber_clone.Common.{
  ℕ, Bool, true, false, ◌&&◌, ◌||◌, not, Option, none, some, List, [], ◌∷◌, ◌++◌, ◌==◌, Result, ok,
  err, ◌>>=◌, ◌>>◌, or_fail, fail_if, if◌then◌else◌,
}
use uber_clone.Common.Int.{ℤ, pos, ◌+ℤ◌, ltb_ℤ}
use uber_clone.Common.Text.{Text, Cases, to_lower, to_upper, trim_space, is_empty, text_eq}
use uber_clone.Common.Table.{find, exists, update_where, count_where}
use uber_clone.Common.Order.{sort_by}
use uber_clone.Store.{Db, Policy, CurrentPolicy, CatalogService}
use uber_clone.Pricing.Calculate.{
  PricingError, invalid_policy, unavailable, policy_changed, invalid_service, Draft, validate,
  half_up_once,
}

abbrev pub is_service : Text → CatalogService → Bool
is_service code s = text_eq s.code code

abbrev pub is_bookable : CatalogService → Bool
is_bookable s = s.is_active && s.rider_visible

abbrev pub points : Text → Text → CurrentPolicy → Bool
points service currency c = text_eq c.service_code service && text_eq c.currency currency

abbrev pub is_policy : ℕ → Policy → Bool
is_policy id p = p.id == id

-- The current_policy_id of the service and currency: there may be no row, or a NULL in it.
unfoldable pub current_id : Text → Text → List CurrentPolicy → Option ℕ
current_id service currency t = elim (find (points service currency) t) [
  | none ↦ none
  | some c ↦ c.current_policy_id
]

-- The pointer joined with the versions. The foreign key says that a pointer has its version.
unfoldable pub current_policy : Text → Text → Db → Result PricingError Policy
current_policy service currency db = do
  id ← or_fail (current_id service currency db.current_policies) unavailable
  or_fail (find (is_policy id) db.policies) unavailable

unfoldable pub current : Text → Text → Db → Result PricingError Policy
current service currency db = do
  fail_if (not (exists (λ s. is_service service s && is_bookable s) db.catalog)) invalid_service
  current_policy service currency db

unfoldable pub lock_service : Text → Bool → Db → Result PricingError (Unit {0})
lock_service service require_active db = do
  s ← or_fail (find (is_service service) db.catalog) invalid_service
  fail_if (require_active && not (is_bookable s)) invalid_service

unfoldable pub lock_current : Text → Text → Db → Result PricingError Policy
lock_current service currency db = do
  lock_service service true db
  current_policy service currency db

abbrev pub max_ℤ : ℤ → ℤ → ℤ
max_ℤ a b = if ltb_ℤ a b then b else a

-- COALESCE(MAX(version), 0) over the service and currency
unfoldable pub max_version : Text → Text → List Policy → ℤ
max_version service currency [] = pos 0
max_version service currency (p ∷ ps) =
    let rest = max_version service currency ps in
    if text_eq p.service_code service && text_eq p.currency currency
    then max_ℤ p.version rest
    else rest

abbrev pub normalize : Cases → Draft → Draft
normalize u d = record d {
  service_code = to_lower u (trim_space d.service_code);
  currency = to_upper u (trim_space d.currency);
}

-- The inserted row: `at` is the reading of clock_timestamp(), the default of two columns.
abbrev pub new_policy : ℕ → ℤ → Draft → Text → ℕ → Policy
new_policy id version d reviewer at = record {
  id = id;
  service_code = d.service_code;
  currency = d.currency;
  version = version;
  base_fare_minor = d.base_fare_minor;
  rate_minor_per_km = d.rate_minor_per_km;
  rate_minor_per_minute = d.rate_minor_per_minute;
  minimum_fare_minor = d.minimum_fare_minor;
  rounding_increment_minor = d.rounding_increment_minor;
  calculation_rule = half_up_once;
  effective_from = at;
  published_at = at;
  published_by = reviewer;
}

-- INSERT … ON CONFLICT (service_code, currency) DO UPDATE
unfoldable pub point_to : Text → Text → ℕ → Text → List CurrentPolicy → List CurrentPolicy
point_to service currency id reviewer t =
    if exists (points service currency) t
    then update_where (points service currency)
        (λ c. record c { current_policy_id = some id; updated_by = reviewer }) t
    else t
      ++ record {
        service_code = service;
        currency = currency;
        current_policy_id = some id;
        updated_by = reviewer;
      }
        ∷ []

unfoldable pub store_policy : Policy → Db → Db
store_policy p db = record db {
  policies = db.policies ++ p ∷ [];
  current_policies = point_to p.service_code p.currency p.id p.published_by db.current_policies;
}

-- The transaction, after the texts are trimmed; `id` is uuid.New().
unfoldable pub publish_normal : ℕ → ℕ → Draft → Text → Db → Result PricingError (Policy × Db)
publish_normal id at d reviewer db = do
  validate d
  fail_if (is_empty reviewer) invalid_policy
  lock_service d.service_code true db
  let version = max_version d.service_code d.currency db.policies +ℤ pos 1
  let p = new_policy id version d reviewer at
  ok (p, store_policy p db)

unfoldable pub publish : Cases → ℕ → ℕ → Draft → Text → Db → Result PricingError (Policy × Db)
publish u id at d reviewer db = publish_normal id at (normalize u d) (trim_space reviewer) db

abbrev pub points_to : Text → Text → ℕ → CurrentPolicy → Bool
points_to service currency id c =
    points service currency c
    && elim c.current_policy_id [ none ↦ false | some current ↦ current == id ]

abbrev pub set_none : Text → CurrentPolicy → CurrentPolicy
set_none reviewer c = record c { current_policy_id = none; updated_by = reviewer }

unfoldable pub disable : Text → Text → ℕ → Text → Db → Result PricingError (Unit {0} × Db)
disable service currency expected reviewer db = do
  fail_if (is_empty (trim_space reviewer)) invalid_policy
  lock_service service false db
  fail_if (not (count_where (points_to service currency expected) db.current_policies == 1))
      policy_changed
  ok (
    tt,
    record db {
      current_policies =
          update_where (points_to service currency expected) (set_none reviewer)
            db.current_policies;
    },
  )

-- ORDER BY service_code, currency, version DESC; `before` is the strict order of the database's
-- collation.
abbrev pub is_policy_before : (Text → Text → Bool) → Policy → Policy → Bool
is_policy_before before p q =
    before p.service_code q.service_code
    || text_eq p.service_code q.service_code
      && (before p.currency q.currency
          || text_eq p.currency q.currency && ltb_ℤ q.version p.version)

unfoldable pub list_policies : (Text → Text → Bool) → Db → List Policy
list_policies before db = sort_by (is_policy_before before) db.policies

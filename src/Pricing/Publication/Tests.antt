-- ===== src/Pricing/Publication/Tests.antt =====
-- Tests of the publication of pricing policies.
use uber_clone.Common.{◌≡◌, refl, none, some, [], ◌∷◌, ok}
use uber_clone.Common.Int.{pos, ◌+ℤ◌}
use uber_clone.Common.Text.{ascii, codes, text_eq, trim_space, trim_left, trim_right, is_space}
use uber_clone.Store.{Db, Policy}
use uber_clone.Pricing.Calculate.{Draft, validate}
use uber_clone.Pricing.Publication.{
  publish, publish_normal, lock_service, max_version, store_policy, point_to, normalize, disable,
  new_policy,
}
use uber_clone.Pricing.Publication.Current.{IsPublished, publish-IsPublished}
use uber_clone.Sample.{sample}

abbrev a_draft : Draft
a_draft = record {
  service_code = codes " Car";
  currency = codes "pkr ";
  base_fare_minor = pos 10000;
  rate_minor_per_km = pos 5000;
  rate_minor_per_minute = pos 300;
  minimum_fare_minor = pos 15000;
  rounding_increment_minor = pos 500;
}

abbrev tidy_draft : Draft
tidy_draft = record a_draft { service_code = codes "car"; currency = codes "PKR" }

abbrev first_version : Policy
first_version = new_policy 7 (pos 1) tidy_draft (codes "ops") 100

abbrev with_policy : Db
with_policy = record sample {
  policies = first_version ∷ [];
  current_policies =
      record {
        service_code = codes "car";
        currency = codes "PKR";
        current_policy_id = some 7;
        updated_by = codes "ops";
      }
      ∷ [];
}

publishes : publish ascii 7 100 a_draft (codes " ops") sample ≡ ok (first_version, with_policy)
unfolding publish publish_normal lock_service max_version store_policy point_to validate text_eq
    trim_space trim_left trim_right is_space ◌+ℤ◌
publishes = refl

publish-IsPublished_example :
    IsPublished
      (normalize ascii a_draft)
      (trim_space (codes " ops"))
      first_version
      sample
      with_policy
publish-IsPublished_example =
    publish-IsPublished ascii 7 100 a_draft (codes " ops") sample refl publishes

disables :
    disable (codes "car") (codes "PKR") 7 (codes "ops") with_policy
    ≡ ok (
      tt,
      record with_policy {
        current_policies =
            record {
              service_code = codes "car";
              currency = codes "PKR";
              current_policy_id = none;
              updated_by = codes "ops";
            }
            ∷ [];
      },
    )
unfolding disable lock_service text_eq trim_space trim_left trim_right is_space
disables = refl

-- ===== src/Users/Tests.antt =====
-- Tests of sign-in: Rita is Rider 10 of the sample, and Nora is new.
use uber_clone.Common.{ℕ, ◌≡◌, refl, true, [], ◌∷◌, ok}
use uber_clone.Common.Text.{codes, text_eq}
use uber_clone.Store.{Db}
use uber_clone.Users.{
  rider, driver, ExternalIdentity, User, holds, with_user, insert_user, insert_capability,
  find_user, create_with_default_rider, add_capability, enable_capability,
}
use uber_clone.Users.Identified.{Known}
use uber_clone.Users.Signed.{IsSignedIn, create-IsSignedIn, enable_capability-create}
use uber_clone.Sample.{sample}

abbrev rita : ExternalIdentity
rita = record { issuer = codes "issuer"; subject = codes "rita" }

abbrev nora : ExternalIdentity
nora = record { issuer = codes "issuer"; subject = codes "nora" }

abbrev user_nora : User
user_nora = record { id = 7; capabilities = rider ∷ []; created_at = 100 }

abbrev with_nora : Db
with_nora = record (with_user 100 7 nora sample) { riders = 10 ∷ 11 ∷ 7 ∷ [] }

signs_in : create_with_default_rider 100 7 nora sample ≡ ok (user_nora, with_nora)
unfolding create_with_default_rider insert_user insert_capability find_user text_eq
signs_in = refl

create-IsSignedIn_example : IsSignedIn 7 nora user_nora sample with_nora
create-IsSignedIn_example = create-IsSignedIn 100 7 nora sample signs_in

abbrev driving_rita : User
driving_rita = record { id = 10; capabilities = driver ∷ rider ∷ []; created_at = 0 }

abbrev with_driver : Db
with_driver = record sample { drivers = 20 ∷ 23 ∷ 10 ∷ [] }

enables : enable_capability 100 7 rita driver sample ≡ ok (driving_rita, with_driver)
unfolding enable_capability add_capability create_with_default_rider insert_capability find_user
    text_eq
enables = refl

enable_capability-create_example :
    (holds driver driving_rita ≡ true)
    × (holds rider driving_rita ≡ true)
    × ((user : ℕ) → Known rita user sample → 10 ≡ user)
    × ((now' fresh' : ℕ)
        → create_with_default_rider now' fresh' rita with_driver ≡ ok (driving_rita, with_driver))
enable_capability-create_example = enable_capability-create 100 7 rita driver sample enables

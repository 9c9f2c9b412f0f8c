-- ===== src/Lib.antt =====
-- Verification of the ride marketplace backend of uber-clone (backend/, Go over PostgreSQL).
--
-- A Rider publishes a ride request with a proposed fare. Drivers whose opportunity for it is open
-- make one offer each, within 90% and 130% of the fare. The Rider rejects offers or selects one, and
-- the selection assigns a Trip, which the Driver starts, completes and settles in cash. Rider and
-- Driver may cancel before it is completed. Deadlines of requests, opportunities and offers are
-- brought into the stored statuses by one routine, which the marketplace's transactions run
-- first. Suggested fares come from a published pricing policy.
--
-- All parts keep their state in one database and interact through it. Its model is the record `Db`
-- (Store): a list of rows per table, with the columns that the repositories use. The operations are
-- functions from a store to a result: an error, or an answer and the next store. A transaction is
-- one atomic step, an error leaves the store as it was (the deferred Rollback), and two transactions
-- that run at the same time are taken one after the other, which the row locks (FOR UPDATE) are
-- there for. Constraints of the schema that can refuse a write are errors of the model. Lost
-- connections and cancelled contexts are not modelled, nor are branches for column values that a
-- CHECK constraint excludes.
--
-- Time: a `Clock` gives NOW() and the time of each statement of a transaction, numbered from 0 in
-- the order of the code. Times are microseconds (nanoseconds in Limiter). Identifiers are natural
-- numbers, compared and, where a query orders rows by them, ordered as such; uuid.Nil is 0. int64
-- values are integers and wrap where the code computes on them; floating-point values are exact
-- multiples of 2^-1074. Nothing runs on fuel but the printing of a decimal number, which is given
-- the number itself plus one. The provider of Google's routes counts its two attempts.
--
-- Files, with the code that they model (paths below backend/internal):
--   Common/    tests, lists, results of calls, tables and keys, integers, text
--   Store/     the tables: the structs of trip, ride, offer, driver, driverlocation, marketplace,
--              pricing and driveronboarding
--   Sample     a small store for the tests; Api/Sample has the requests of the tests
--   Marketplace/Expiry      marketplace/lifecycle.go (Expire), marketplace/expiry_service.go (Sweep)
--   Marketplace/Assignment  marketplace/assignment_postgres.go (SelectOffer and its helpers)
--   Driver/Eligibility      driver/marketplace_postgres.go (LockMarketplaceEligible)
--   Offer/     offer/offer.go (Bounds, Submit, AcceptProposed), offer/postgres_repository.go
--   Offer/Discovery         offer/discovery_postgres.go (what a Driver is shown)
--   Offer/RiderList         offer/rider_postgres.go (what a Rider is shown)
--   Cancellation/           cancellation/postgres_repository.go
--   Trip/      trip/postgres_repository.go (Start, Complete, ConfirmCashCollected)
--   Pricing/Calculate       pricing/calculate.go, pricing/pricing.go
--   Pricing/Amount          pricing/amount.go, formatPKR of httpapi/admin_pricing_policy.go
--   Driver/Location         driverlocation/location.go, driverlocation/postgres_repository.go
--   Limiter                 httpapi/location_search_limiter.go
--   Marketplace/Timing      marketplace/policy.go (the policy of the deadlines)
--   Pricing/Publication     pricing/postgres_repository.go (publication of pricing policies)
--   RideRequest             ride/ride.go, ride/postgres_repository.go, ride/postgres_pricing.go
--   Views/     ridestatus, drivertrip, riderlocation: status.go, current.go, location.go and the
--              postgres_repository.go of each
--   System/    the operations on the table of Trips as one step relation
--   Routing    routing/routing.go (the checks around the route provider)
--   Places     locationsearch/locationsearch.go, locationsearch/search_policy.go
--   Onboarding/             driveronboarding/onboarding.go, driveronboarding/postgres_repository.go
--   Driver/Presence         driver/presence.go, driver/selection.go, driver/postgres_repository.go
--   Driver/Vehicles         driver/postgres_repository.go (ListVehicles)
--   Users      user/user.go, user/postgres_repository.go
--   Auth       auth/service.go, auth/http.go
--   Auth/Kratos             auth/kratos, identity/kratos/verified.go, identity/oidc/verified.go
--   Google/    routing/google/provider.go, locationsearch/google/provider.go
--   Http       requests, answers and handlers: httpapi/response.go, identity/http.go, httpapi/user.go
--   Api/Offers, Trips, Drivers, Rides, Fares
--              httpapi: marketplace.go, trip.go, cancellation.go, driver.go, driver_selection.go,
--              driver_vehicles.go, driver_location.go, ride.go, rider_location.go, pricing_errors.go
--   Api/Places               httpapi: places.go, ride_previews.go, driver_route_preview.go
--   Api/Onboarding           httpapi: driver_onboarding.go, admin_driver_onboarding.go
--   Api/Rendering           the JSON answers of these files
--   Api/RideServices        rideservice/postgres_repository.go, httpapi: ride_services.go
--   Api/Endpoints           httpapi/routes.go (the endpoints of signed-in users)
--
-- What other code decides is a parameter: the providers of routes and places, the parser of UUIDs,
-- Go's tables of upper and lower case, the collation of the database and its floating-point
-- distance, the decoders of JSON bodies, the Kratos server and Google's services. The provider of
-- routes may answer something else at each instant. A handler of the API goes from a store to an
-- answer and a store, and no other request comes between its transactions.
--
-- The definitions keep the names of the code in snake_case: `select_offer` is SelectOffer,
-- `lock_marketplace_eligible` is LockMarketplaceEligible.
--
-- Not modelled: the pages of the operators and how they sign in, their endpoints but those of the
-- review of applications, and the health checks.
-- What the limiter has counted is not kept from one request to the next.
pub mod Api
pub mod Auth
pub mod Cancellation
pub mod Common
pub mod Driver
pub mod Google
pub mod Http
pub mod Limiter
pub mod Marketplace
pub mod Offer
pub mod Onboarding
pub mod Places
pub mod Pricing
pub mod RideRequest
pub mod Routing
pub mod Sample
pub mod Store
pub mod System
pub mod Trip
pub mod Users
pub mod Views

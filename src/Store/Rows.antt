-- ===== src/Store/Rows.antt =====
-- The rows, with the Go structs and string types that they are scanned into.
use uber_clone.Common.{ℕ, Option}
use uber_clone.Common.Int.{ℤ}
use uber_clone.Common.Text.{Text}
use uber_clone.Common.Float.{Float}

pub data RideStatus : Type 0 where
  requested accepted cancelled expired : RideStatus

pub data CancellationActor : Type 0 where
  rider driver : CancellationActor

pub data TripStatus : Type 0 where
  assigned in_progress completed cancelled : TripStatus

pub data SettlementStatus : Type 0 where
  unsettled cash_collected : SettlementStatus

pub data OfferStatus : Type 0 where
  pending accepted rejected expired closed : OfferStatus

pub data OpportunityStatus : Type 0 where
  open_ driver_skipped window_expired offered rider_rejected offer_expired accepted closed :
      OpportunityStatus

pub record Location : Type 0 where
  pub latitude : Float
  pub longitude : Float

pub record Fare : Type 0 where
  pub amount_minor : ℤ
  pub currency : Text

pub record OperationContext : Type 0 where
  pub driver_name : Option Text
  pub vehicle_id : ℕ
  pub make : Text
  pub model : Text
  pub model_year : Option ℕ
  pub color : Text
  pub license_plate : Text
  pub service_code : Text
  pub service_name : Text
  pub fare : Fare

pub record Settlement : Type 0 where
  pub status : SettlementStatus
  pub method : Option Text
  pub cash_collected_at : Option ℕ

-- trips; the column cash_collected_by is not scanned.
pub record Trip : Type 0 where
  pub operation_context : Option OperationContext
  pub ride_request_id : ℕ
  pub rider_user_id : ℕ
  pub driver_user_id : ℕ
  pub status : TripStatus
  pub assigned_at : ℕ
  pub started_at : Option ℕ
  pub completed_at : Option ℕ
  pub cancelled_at : Option ℕ
  pub settlement : Settlement
  pub cash_collected_by : Option ℕ

-- ride_requests, scanned into ride.Request: the fare is two columns, and the pricing snapshot is a
-- row of a table of its own.
pub record Ride : Type 0 where
  pub id : ℕ
  pub rider_user_id : ℕ
  pub pickup : Location
  pub destination : Location
  pub proposed_fare_minor : Option ℤ
  pub currency : Option Text
  pub service_code : Text
  pub status : RideStatus
  pub created_at : ℕ
  pub expires_at : ℕ
  pub cancelled_at : Option ℕ
  pub cancelled_by : Option CancellationActor

-- ride_offers
pub record Offer : Type 0 where
  pub ride_request_id : ℕ
  pub driver_user_id : ℕ
  pub amount_minor : ℤ
  pub currency : Text
  pub status : OfferStatus
  pub created_at : ℕ
  pub updated_at : ℕ
  pub expires_at : ℕ
  pub decided_at : Option ℕ
  pub operation_context : Option OperationContext

-- driver_ride_request_opportunities
pub record Opportunity : Type 0 where
  pub ride_request_id : ℕ
  pub driver_user_id : ℕ
  pub status : OpportunityStatus
  pub opened_at : ℕ
  pub visible_until : ℕ
  pub responded_at : Option ℕ

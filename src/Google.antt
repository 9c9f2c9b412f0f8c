-- ===== src/Google.antt =====
-- The providers of routes and places (routing/google, locationsearch/google): what is asked of
-- Google's services and what is made of their replies. Time-outs and cancelled contexts are left out.
pub mod Routes
pub mod Suggestions
pub mod Tests
use uber_clone.Common.{ℕ, Option, List}
use uber_clone.Common.Text.{Text}
use uber_clone.Http.Values.{Json}

pub record Call : Type 0 where
  pub method : Text
  pub path : Text
  pub query : List (Text × Text)
  pub field_mask : Text
  pub body : Option Json

pub record Reply : Type 0 where
  pub status : ℕ
  pub body : Text

-- http.Client on a service: no reply where the call fails.
abbrev pub Client : Type 0 → Type 0
Client S = Call → S → Option Reply × S

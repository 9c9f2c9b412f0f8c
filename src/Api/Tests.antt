-- ===== src/Api/Tests.antt =====
-- Tests of the handlers: Rita, Rider 10 of the sample, asks for a ride at its suggested fare.
use uber_clone.Api.Sample.{
  store, lib, services, priced_config, a_body, some_body, rita_asks, the_ride, booked, as_dave,
  preview_body, place_lib, server, previewed,
}
use uber_clone.Common.{◌≡◌, refl, some, ok}
use uber_clone.Common.Int.{◌-ℤ◌, ◌+ℤ◌, ◌*ℤ◌, quot, rem}
use uber_clone.Common.Float.{leb_float, minus_degrees, degrees}
use uber_clone.Common.Text.{text_eq, trim_space, trim_left, trim_right, is_space}
use uber_clone.Store.{Db}
use uber_clone.Pricing.Calculate.{calculate, validate, raw_fare, round_units, bounded_fare}
use uber_clone.Pricing.Publication.{current, current_id, current_policy, lock_current, lock_service}
use uber_clone.Api.Places.{PreviewBody, create_ride_preview}
use uber_clone.Api.Places.Accepted.{IsSuggestion, create_ride_preview-IsSuggestion}
use uber_clone.Routing.{preview}
use uber_clone.Driver.Location.{valid_coordinate}
use uber_clone.Users.{insert_capability, find_user, create_with_default_rider}
use uber_clone.RideRequest.{
  create, checked_input, valid_location, valid_money, byte_length, all_upper, store_request,
  create_priced, create_priced_in_tx,
}
use uber_clone.Http.{Response, write_json, serve}
use uber_clone.Http.Access.{require_capability, current_user}
use uber_clone.Http.Allowed.{Guarded}
use uber_clone.Api.Fares.{validate_suggested_fare, current_pkr, validate_places, priced_route}
use uber_clone.Api.Rides.{RideBody, body_input, ride_response, create_ride_request}
use uber_clone.Api.Rides.Booked.{IsBooked, create_ride_request-IsBooked}
use uber_clone.Api.Endpoints.{of_drivers, post_cash, authenticated}

books :
    create_ride_request lib services priced_config some_body 5 rita_asks store
    ≡ (ok (write_json 201 (ride_response the_ride)), booked)
unfolding create_ride_request require_capability current_user create_with_default_rider
    insert_capability find_user text_eq body_input validate_suggested_fare current_pkr current
    current_policy current_id validate_places trim_space trim_left trim_right is_space priced_route
    preview valid_coordinate leb_float degrees minus_degrees ◌-ℤ◌ calculate validate raw_fare
    round_units bounded_fare ◌+ℤ◌ ◌*ℤ◌ quot rem create checked_input valid_location valid_money
    byte_length all_upper store_request create_priced create_priced_in_tx lock_current lock_service
books = refl

create_ride_request-IsBooked_example :
    (body : RideBody) × (some a_body ≡ some body)
    × IsBooked lib services priced_config 5 rita_asks body store
        (write_json 201 (ride_response the_ride))
        booked
create_ride_request-IsBooked_example =
    create_ride_request-IsBooked lib services priced_config some_body 5 rita_asks store books

abbrev cash_answer : Response × Db
cash_answer = serve (authenticated server as_dave (of_drivers post_cash) rita_asks) store

previews : create_ride_preview lib place_lib services rita_asks store ≡ (ok previewed, store)
unfolding create_ride_preview require_capability current_user create_with_default_rider
    insert_capability find_user text_eq current_pkr current current_policy current_id trim_space
    trim_left trim_right is_space preview valid_coordinate leb_float degrees minus_degrees ◌-ℤ◌
    calculate validate raw_fare round_units bounded_fare ◌+ℤ◌ ◌*ℤ◌ quot rem
previews = refl

create_ride_preview-IsSuggestion_example :
    (b : PreviewBody) × (some preview_body ≡ some b)
    × IsSuggestion services 9000000 b previewed store
create_ride_preview-IsSuggestion_example =
    create_ride_preview-IsSuggestion lib place_lib services rita_asks store refl previews

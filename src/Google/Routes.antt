-- ===== src/Google/Routes.antt =====
-- routing/google/provider.go: a route is asked for at most twice, and its reply is checked.
pub mod Attempts
use uber_clone.Common.{
  ℕ, zero, suc, ◌+◌, ◌/◌, Bool, true, false, ◌&&◌, ◌||◌, not, Option, none, some, List, [], ◌∷◌,
  ◌==◌, ltb, leb, Result, ok, err, ◌>>=◌, ◌>>◌, fail_if, or_fail, if◌then◌else◌,
}
use uber_clone.Common.Int.{ℤ, pos, leb_ℤ}
use uber_clone.Common.Text.{Text, codes, trim_space, is_empty}
use uber_clone.Common.Exchange.{Exchange}
use uber_clone.Http.Values.{Json, bool, number, text, object}
use uber_clone.Routing.{
  RouteError, no_provider, invalid_input, not_found, provider_failed, Endpoint, Route, valid_route,
}
use uber_clone.Google.{Call, Reply, Client}

pub record Candidate : Type 0 where
  pub distance_meters : ℤ
  pub duration : Text
  pub encoded_polyline : Text

-- The provider with its key; the decoder of the body, and time.ParseDuration in nanoseconds, are of
-- other code.
pub record Provider (S : Type 0) : Type 0 where
  pub api_key : Text
  pub send : Client S
  pub routes_body : Text → Option (List Candidate)
  pub parse_duration : Text → Option ℤ

abbrev pub max_attempts : ℕ
max_attempts = 2

abbrev waypoint : Endpoint → Json
waypoint e =
    if is_empty (trim_space e.place_id)
    then object (
        (
          codes "location",
          object (
              (
                codes "latLng",
                object (
                    (codes "latitude", number e.point.latitude)
                    ∷ (codes "longitude", number e.point.longitude)
                    ∷ []),
              )
              ∷ []),
        )
        ∷ [])
    else object ((codes "placeId", text (trim_space e.place_id)) ∷ [])

abbrev pub route_call : Endpoint → Endpoint → Call
route_call pickup destination = record {
  method = codes "POST";
  path = codes "/directions/v2:computeRoutes";
  query = [];
  field_mask = codes "routes.distanceMeters,routes.duration,routes.polyline.encodedPolyline";
  body = some (
      object (
        (codes "origin", waypoint pickup)
        ∷ (codes "destination", waypoint destination)
        ∷ (codes "travelMode", text (codes "DRIVE"))
        ∷ (codes "routingPreference", text (codes "TRAFFIC_AWARE_OPTIMAL"))
        ∷ (codes "trafficModel", text (codes "BEST_GUESS"))
        ∷ (codes "computeAlternativeRoutes", bool false)
        ∷ (codes "polylineQuality", text (codes "OVERVIEW"))
        ∷ (codes "polylineEncoding", text (codes "ENCODED_POLYLINE"))
        ∷ []));
}

abbrev pub retryable_status : ℕ → Bool
retryable_status status = status == 429 || leb 500 status

-- providerStatus: the error of a status that is no success.
unfoldable pub status_error : ℕ → RouteError
status_error status =
    if status == 400
    then invalid_input
    else if status == 404
    then not_found
    else if status == 401 || status == 403
    then no_provider
    else provider_failed

abbrev pub is_success : ℕ → Bool
is_success status = leb 200 status && ltb status 300

abbrev pub first : List Candidate → Option Candidate
first [] = none
first (c ∷ l) = some c

-- int64(math.Ceil(d.Seconds())) of a positive duration; exact below 2^22 seconds.
abbrev ceil_seconds : ℤ → ℤ
ceil_seconds (pos ns) = pos ((ns + 999999999) / 1000000000)
ceil_seconds d = d

abbrev pub route_of : Candidate → ℤ → Route
route_of c d = record {
  distance_meters = c.distance_meters;
  duration_seconds = ceil_seconds d;
  encoded_polyline = trim_space c.encoded_polyline;
}

module _ {S : Type 0} (p : Provider S) where
  -- A reply that is final ends the loop, and anything else is followed by the next attempt.
  abbrev pub or_again : Option Reply × S → Exchange S RouteError Reply → Result RouteError Reply × S
  or_again (none, s) again = again s
  or_again (some r, s) again = if retryable_status r.status then again s else (ok r, s)

  -- The loop with so many attempts left.
  unfoldable pub attempts : ℕ → Call → Exchange S RouteError Reply
  attempts zero c s = (err provider_failed, s)
  attempts (suc n) c s = or_again (p.send c s) (attempts n c)

  -- What Preview makes of the reply.
  unfoldable pub route_in : Reply → Result RouteError Route
  route_in r = do
    fail_if (not (is_success r.status)) (status_error r.status)
    l ← or_fail (p.routes_body r.body) provider_failed
    c ← or_fail (first l) not_found
    d ← or_fail (p.parse_duration (trim_space c.duration)) provider_failed
    fail_if (leb_ℤ d (pos 0)) provider_failed
    fail_if (not (valid_route (route_of c d))) provider_failed
    ok (route_of c d)

  abbrev pub concluded : Result RouteError Reply × S → Result RouteError Route × S
  concluded (ok r, s) = (route_in r, s)
  concluded (err e, s) = (err e, s)

  unfoldable pub preview : Endpoint → Endpoint → Exchange S RouteError Route
  preview pickup destination s =
      if is_empty p.api_key
      then (err no_provider, s)
      else concluded (attempts max_attempts (route_call pickup destination) s)

-- ===== src/Routing/Priced.antt =====
-- The fare of a route that is previewed (Routing and Pricing/Calculate together).
use Prim.Native.Nat.{max}
use uber_clone.Common.{
  fail_if-not-eq-ok, ℕ, ◌*◌, ◌<◌, ◌≡◌, refl, Bool, true, ◌&&◌, ◌||◌, not, Option, arith, ok, ◌>>◌,
  subst, >>=-eq-ok, or_fail, fail_if,
}
use uber_clone.Common.Int.{ℤ, pos, pos_part, negsuc, ltb_ℤ}
use uber_clone.Common.Text.{text_eq, trim_space, is_empty}
use uber_clone.Store.{Policy}
use uber_clone.Pricing.Calculate.{draft_of, validate, calculate, half_up_once}
use uber_clone.Pricing.Calculate.HalfUp.{
  IsHalfUp, route_fare, increment_of, fare_answer, calculate-IsHalfUp,
}
use uber_clone.Routing.{
  no_provider, invalid_input, provider_failed, Endpoint, Route, Provider, valid_point, same_point,
  valid_route, trimmed, preview,
}

checked_route :
    (found r : Route)
    → (fail_if (not (valid_route found)) provider_failed >> ok found) ≡ ok r
    → valid_route r ≡ true
checked_route found r h =
    let (_, passed, h') = >>=-eq-ok (fail_if (not (valid_route found)) provider_failed) _ h in
    let same : found ≡ r = cc h' in
    subst (λ x. valid_route x ≡ true) same
      (fail_if-not-eq-ok (valid_route found) provider_failed passed)

preview-valid :
    (provider : Option Provider) (now : ℕ) (pickup destination : Endpoint) {r : Route}
    → preview provider now pickup destination ≡ ok r
    → valid_route r ≡ true
unfolding preview
preview-valid provider now pickup destination {r} h =
    let (ask, _, h₁) = >>=-eq-ok (or_fail provider no_provider) _ h in
    let a = trimmed pickup in
    let b = trimmed destination in
    let unfit =
      not (valid_point a.point) || not (valid_point b.point) || same_point a.point b.point in
    let (_, _, h₂) = >>=-eq-ok (fail_if unfit invalid_input) _ h₁ in
    let (found, _, h₃) = >>=-eq-ok (ask now a b) _ h₂ in
    checked_route (record found { encoded_polyline = trim_space found.encoded_polyline }) r h₃

positive : (x : ℤ) → ltb_ℤ (pos 0) x ≡ true → (n : ℕ) × (x ≡ pos n) × (0 < n)
positive (pos n) h = (n, refl, ground arith)
positive (negsuc n) h = absurd (ground arith)

sizes :
    (r : Route)
    → valid_route r ≡ true
    → (ltb_ℤ (pos 0) r.distance_meters ≡ true) × (ltb_ℤ (pos 0) r.duration_seconds ≡ true)
sizes r h =
    let x = ltb_ℤ (pos 0) r.distance_meters in
    let y = ltb_ℤ (pos 0) r.duration_seconds in
    let z = not (is_empty (trim_space r.encoded_polyline)) in three x y z h
  where
    three : (x y z : Bool) → (x && y && z) ≡ true → (x ≡ true) × (y ≡ true)
    three x y z h = (ground arith, ground arith)

-- Whatever the provider answers: a route that Preview passes on has a positive length and duration.
-- On a valid policy with the rule half_up_once_v1 its fare is the exact one rounded once, or the
-- minimum if that is more; the calculation answers this fare where it is at most the largest amount,
-- and otherwise refuses it with fare_out_of_range and no other error.
pub preview-fare :
    (provider : Option Provider) (now : ℕ) (pickup destination : Endpoint) (p : Policy) {r : Route}
    {x : Unit {0}}
    → preview provider now pickup destination ≡ ok r
    → validate (draft_of p) ≡ ok x
    → text_eq p.calculation_rule half_up_once ≡ true
    → (d : ℕ) × (s : ℕ) × (r.distance_meters ≡ pos d)
      × (r.duration_seconds ≡ pos s)
      × (units : ℕ) × IsHalfUp (route_fare p d s) (increment_of p * 3000) units
      × (calculate p r.distance_meters r.duration_seconds
          ≡ fare_answer (max (pos_part p.minimum_fare_minor) (units * increment_of p)))
preview-fare provider now pickup destination p {r} h valid rule =
    let (far, long) = sizes r (preview-valid provider now pickup destination h) in
    let (d, ed, hd) = positive r.distance_meters far in
    let (s, es, hs) = positive r.duration_seconds long in
    let (units, half, fare) = calculate-IsHalfUp p d s valid rule hd hs in
    (d, s, ed, es, units, half, rw (ed, es) fare)

-- ===== src/Google/Routes/Attempts.antt =====
-- How often the provider of routes asks, and what it answers.
use uber_clone.Common.{
  ℕ, zero, suc, ◌+◌, ◌≡◌, ◌≤◌, refl, ap, true, not, Option, none, some, Result, ok, err, >>=-eq-ok,
  fail_if, or_fail, arith, Bool-cases, inl, inr,
}
use uber_clone.Common.Exchange.{Exchange}
use uber_clone.Common.Text.{is_empty, trim_space}
use uber_clone.Common.Int.{pos, leb_ℤ}
use uber_clone.Routing.{RouteError, provider_failed, not_found, Endpoint, Route, valid_route}
use uber_clone.Google.{Call, Reply}
use uber_clone.Google.Routes.{
  Provider, retryable_status, or_again, attempts, route_in, concluded, preview, max_attempts,
  route_call, status_error, is_success, first,
}

-- The provider on a service that counts the calls.
abbrev pub counted : {S : Type 0} → Provider S → Provider (ℕ × S)
counted p = record {
  api_key = p.api_key;
  send = λ c x. ((p.send c x.1).0, (suc x.0, (p.send c x.1).1));
  routes_body = p.routes_body;
  parse_duration = p.parse_duration;
}

module _ {S : Type 0} (p : Provider S) where
  or_again-few :
      (o : Option Reply) (n k : ℕ) (s : S) (rest : Exchange (ℕ × S) RouteError Reply)
      → (rest (suc k, s)).1.0 ≤ suc k + n
      → (or_again (counted p) (o, (suc k, s)) rest).1.0 ≤ k + suc n
  or_again-few none n k s rest h = omega (arith, h)
  or_again-few (some r) n k s rest h = elim (Bool-cases (retryable_status r.status)) [
    | inl e ↦ rw e (omega (arith, h))
    | inr e ↦ rw e (omega arith)
  ]

  attempts-few : (n : ℕ) (c : Call) (k : ℕ) (s : S) → (attempts (counted p) n c (k, s)).1.0 ≤ k + n
  unfolding attempts
  attempts-few zero c k s = omega arith
  attempts-few (suc n) c k s =
      or_again-few (p.send c s).0 n k (p.send c s).1 (attempts (counted p) n c)
        (attempts-few n c (suc k) (p.send c s).1)

module _ {S : Type 0} (p : Provider S) where
  concluded-state : (x : Result RouteError Reply × S) → (concluded p x).1 ≡ x.1
  concluded-state (ok r, s) = refl
  concluded-state (err e, s) = refl

  route_in-valid : (r : Reply) {route : Route} → route_in p r ≡ ok route → valid_route route ≡ true
  unfolding route_in
  route_in-valid r h =
      let (t, e₁, h₁) =
        >>=-eq-ok (fail_if (not (is_success r.status)) (status_error r.status)) _ h in
      let (l, e₂, h₂) = >>=-eq-ok (or_fail (p.routes_body r.body) provider_failed) _ h₁ in
      let (c, e₃, h₃) = >>=-eq-ok (or_fail (first l) not_found) _ h₂ in
      let (d, e₄, h₄) =
        >>=-eq-ok (or_fail (p.parse_duration (trim_space c.duration)) provider_failed) _ h₃ in
      let (t', e₅, h₅) = >>=-eq-ok (fail_if (leb_ℤ d (pos 0)) provider_failed) _ h₄ in ground arith

  concluded-valid :
      (x : Result RouteError Reply × S) {route : Route} {s' : S}
      → concluded p x ≡ (ok route, s')
      → valid_route route ≡ true
  concluded-valid (ok r, s) h = route_in-valid r (ap (λ (y : Result RouteError Route × S). y.0) h)
  concluded-valid (err e, s) h = cc

  preview-valid :
      (a b : Endpoint) (s : S) {route : Route} {s' : S}
      → preview p a b s ≡ (ok route, s')
      → valid_route route ≡ true
  unfolding preview
  preview-valid a b s {route} {s'} h = elim (Bool-cases (is_empty p.api_key)) [
    | inl e ↦ absurd (ground arith)
    | inr e ↦ concluded-valid (attempts p max_attempts (route_call a b) s) (rw e at h)
  ]

preview-few :
    {S : Type 0} (p : Provider S) (a b : Endpoint) (k : ℕ) (s : S)
    → (preview (counted p) a b (k, s)).1.0 ≤ k + max_attempts
unfolding preview
preview-few p a b k s = elim (Bool-cases (is_empty p.api_key)) [
  | inl e ↦ rw e (omega arith)
  | inr e ↦
      rw
        (e, concluded-state (counted p) (attempts (counted p) max_attempts (route_call a b) (k, s)))
        (attempts-few p max_attempts (route_call a b) k s)
]

-- The provider asks the service at most twice for one preview, whatever it replies, and then has its
-- answer. A route that it answers is valid: it has a positive distance, a positive duration and a
-- line.
pub preview-attempts :
    {S : Type 0} (p : Provider S) (a b : Endpoint) (s : S)
    → ((preview (counted p) a b (0, s)).1.0 ≤ 2)
      × ((route : Route) (s' : S) → preview p a b s ≡ (ok route, s') → valid_route route ≡ true)
preview-attempts p a b s = (preview-few p a b 0 s, λ route s' h. preview-valid p a b s h)

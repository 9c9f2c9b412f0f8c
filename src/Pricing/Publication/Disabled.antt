-- ===== src/Pricing/Publication/Disabled.antt =====
-- Disabling a policy takes the pointer away, if it still is the expected one.
use uber_clone.Common.{
  ℕ, ◌≡◌, refl, sym, subst, true, false, some, List, arith, All-map, ok, err, Bool-cases,
  Option-cases, inl, inr,
}
use uber_clone.Common.Text.{Text, text_eq→eq}
use uber_clone.Common.Table.{
  find, update_where, count_where, count_where-none, All-find-none, find-update_where,
}
use uber_clone.Common.Keys.{IsKeyed, find-only}
use uber_clone.Store.{Db, CurrentPolicy}
use uber_clone.Pricing.Calculate.{unavailable}
use uber_clone.Pricing.Publication.{
  points, points_to, set_none, current_id, current_policy, disable,
}

-- The primary key of ride_pricing_policy_current.
abbrev pub current_key : CurrentPolicy → Text × Text
current_key c = (c.service_code, c.currency)

points-key : (s c : Text) (x : CurrentPolicy) → points s c x ≡ true → current_key x ≡ (s, c)
points-key s c x h =
    let e : x.service_code ≡ s = text_eq→eq x.service_code s (ground arith) in
    let e' : x.currency ≡ c = text_eq→eq x.currency c (ground arith) in cc

points_not :
    (s c : Text) (id : ℕ) (x : CurrentPolicy) → points s c x ≡ false → points_to s c id x ≡ false
points_not s c id x h = ground arith

unpoints :
    (s c : Text) (id : ℕ) (r x : CurrentPolicy)
    → points_to s c id r ≡ false
    → (points s c x ≡ true → x ≡ r)
    → points_to s c id x ≡ false
unpoints s c id r x e only = elim (Bool-cases (points s c x)) [
  | inl m ↦ subst (λ y. points_to s c id y ≡ false) (sym (only m)) e
  | inr m ↦ points_not s c id x m
]

-- If one row points to the policy, it is the row that is found.
pointed :
    (s c : Text) (id : ℕ) (t : List CurrentPolicy)
    → IsKeyed current_key t
    → count_where (points_to s c id) t ≡ 1
    → (r : CurrentPolicy) × (find (points s c) t ≡ some r) × (points_to s c id r ≡ true)
pointed s c id t keyed one = elim (Option-cases (find (points s c) t)) [
  | inl e ↦
      let zero_rows = count_where-none (points_to s c id) t (
        All-map (λ x. points s c x ≡ false) (λ x. points_to s c id x ≡ false) t (points_not s c id)
          (All-find-none (points s c) t e)) in
      absurd (omega (arith, one, zero_rows))
  | inr (r, e) ↦ elim (Bool-cases (points_to s c id r)) [
    | inl m ↦ (r, e, m)
    | inr m ↦
        let zero_rows = count_where-none (points_to s c id) t (
          All-map (λ x. points s c x ≡ true → x ≡ r) (λ x. points_to s c id x ≡ false) t
            (λ x. unpoints s c id r x m)
            (find-only current_key (points s c) (s, c) t (points-key s c) keyed e)) in
        absurd (omega (arith, one, zero_rows))
  ]
]

disable-inv :
    (s c : Text) (id : ℕ) (reviewer : Text) (db : Db) {db' : Db}
    → disable s c id reviewer db ≡ ok (tt, db')
    → (count_where (points_to s c id) db.current_policies ≡ 1)
      × (db' ≡ record db {
        current_policies = update_where (points_to s c id) (set_none reviewer) db.current_policies;
      })
unfolding disable
disable-inv s c id reviewer db h = (ground arith, ground arith)

-- Where Disable succeeds, the expected policy was the current one of the service and currency; now
-- there is none, so that fares are unavailable; and every version is still there.
disable-unavailable :
    (s c : Text) (id : ℕ) (reviewer : Text) (db : Db) {db' : Db}
    → IsKeyed current_key db.current_policies
    → disable s c id reviewer db ≡ ok (tt, db')
    → (current_id s c db.current_policies ≡ some id)
      × (current_policy s c db' ≡ err unavailable)
      × (db'.policies ≡ db.policies)
unfolding current_policy current_id
disable-unavailable s c id reviewer db {db'} keyed h =
    let (one, after) = disable-inv s c id reviewer db h in
    let (r, e, m) = pointed s c id db.current_policies keyed one in
    let changed =
      find-update_where (points s c) (points_to s c id) (set_none reviewer) db.current_policies
        (λ x. refl) in
    (rw (current_id, e) (ground arith), rw (after, current_id, changed, e, m) refl, rw after refl)

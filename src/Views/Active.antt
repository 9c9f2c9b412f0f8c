-- ===== src/Views/Active.antt =====
-- A Driver's current Trip (drivertrip) and the test that keeps a Driver from a second one.
use uber_clone.Common.{
  ℕ, ◌≡◌, refl, Bool, true, some, List, [], ◌∷◌, arith, All, ok, Bool-cases, inl, inr,
}
use uber_clone.Common.Table.{exists, select, exists-find}
use uber_clone.Common.Order.{sort_by, insert_by, All-sort_by}
use uber_clone.Store.{Db, Trip}
use uber_clone.Marketplace.Expiry.{is_ride}
use uber_clone.Driver.Eligibility.{has_active_trip, is_active_trip_of}
use uber_clone.Views.DriverTrip.{
  DriverView, is_current_of, is_recent, current_view, joined_trips, first_view, get_current,
}

-- The foreign key of trips: each has its ride.
abbrev pub HasRides : Db → List Trip → Type 0
HasRides db = All (λ t. exists (is_ride t.ride_request_id) db.rides ≡ true)

abbrev IsNonempty {ℓ} : {A : Type ℓ} → List A → Type 0
IsNonempty [] = ⊥
IsNonempty (x ∷ t) = Unit

insert_by-IsNonempty {ℓ} :
    {R : Type ℓ} (before : R → R → Bool) (x : R) (t : List R) → IsNonempty (insert_by before x t)
unfolding insert_by
insert_by-IsNonempty before x [] = tt
insert_by-IsNonempty before x (y ∷ t) = elim (Bool-cases (before x y)) [
  | inl e ↦ rw (e, insert_by) tt
  | inr e ↦ rw (e, insert_by) tt
]

sort_by-IsNonempty {ℓ} :
    {R : Type ℓ} (before : R → R → Bool) (t : List R) → IsNonempty t → IsNonempty (sort_by before t)
unfolding sort_by
sort_by-IsNonempty before [] h = h
sort_by-IsNonempty before (x ∷ t) h = insert_by-IsNonempty before x (sort_by before t)

current_too :
    (driver : ℕ) (t : Trip) → is_active_trip_of driver t ≡ true → is_current_of driver t ≡ true
current_too driver t h = ground arith

select-IsNonempty :
    (driver : ℕ) (ts : List Trip)
    → has_active_trip driver ts ≡ true
    → IsNonempty (select (is_current_of driver) ts)
select-IsNonempty driver [] h = cc h
select-IsNonempty driver (t ∷ ts) h = elim (Bool-cases (is_active_trip_of driver t)) [
  | inl e ↦ rw (current_too driver t e) tt
  | inr e ↦ elim (Bool-cases (is_current_of driver t)) [
    | inl f ↦ rw f tt
    | inr f ↦ rw f (select-IsNonempty driver ts (rw e at h))
  ]
]

select-All {ℓ} :
    (P : Trip → Type ℓ) (p : Trip → Bool) (t : List Trip) → All P t → All P (select p t)
select-All P p [] h = tt
select-All P p (x ∷ t) h = elim (Bool-cases (p x)) [
  | inl e ↦ rw e (h.0, select-All P p t h.1)
  | inr e ↦ rw e (select-All P p t h.1)
]

joined-first :
    (db : Db) (ts : List Trip)
    → HasRides db ts
    → IsNonempty ts
    → (v : DriverView) × (first_view (joined_trips current_view db ts) ≡ some v)
unfolding joined_trips
joined-first db [] rides h = absurd h
joined-first db (t ∷ ts) rides h =
    let (r, e) = exists-find (is_ride t.ride_request_id) db.rides rides.0 in
    (current_view t r, rw (e, joined_trips, first_view) refl)

-- Where each Trip has its ride, a Driver with a Trip that is assigned or in progress, whom no offer
-- and no assignment would find eligible, is answered a current Trip by GetCurrent.
pub get_current-active :
    (driver : ℕ) (db : Db)
    → HasRides db db.trips
    → has_active_trip driver db.trips ≡ true
    → (v : DriverView) × (get_current driver db ≡ ok v)
unfolding get_current
get_current-active driver db rides active =
    let mine = select (is_current_of driver) db.trips in
    let sorted = sort_by is_recent mine in
    let (v, e) =
      joined-first db sorted
        (All-sort_by is_recent (λ t. exists (is_ride t.ride_request_id) db.rides ≡ true) mine
          (select-All (λ t. exists (is_ride t.ride_request_id) db.rides ≡ true)
            (is_current_of driver) db.trips rides))
        (sort_by-IsNonempty is_recent mine (select-IsNonempty driver db.trips active)) in
    (v, rw e refl)

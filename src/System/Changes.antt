-- ===== src/System/Changes.antt =====
-- What one operation may do to the table of Trips, apart from the code.
use uber_clone.Common.{
  ℕ, ◌≡◌, ◌≢◌, refl, sym, subst, inl, inr, Bool, true, false, List, [], ◌∷◌, ◌++◌, ◌==◌, arith, All,
  All-map, All-append, Bool-cases,
}
use uber_clone.Common.Table.{update_where, change, exists-All-false}
use uber_clone.Common.Keys.{IsKeyed, update_where-IsKeyed, append-IsKeyed}
use uber_clone.Store.{Trip, trip_key}
use uber_clone.Marketplace.Expiry.{has_trip}
use uber_clone.Driver.Eligibility.{is_active_status, is_active_trip_of, has_active_trip}
use uber_clone.Trip.Lifecycle.{
  TripStep, begin, finish, collect, call_off, IsFresh, here, next, update_where-Advances,
  append-Advances,
}
use uber_clone.Trip.Validity.{IsValidTrip, Lives-IsValidTrip}

-- No Driver has two active Trips.
abbrev pub IsOneActive : List Trip → Type 0
IsOneActive [] = Unit
IsOneActive (t ∷ ts) =
    (is_active_status t.status ≡ true → All (λ u. is_active_trip_of t.driver_user_id u ≡ false) ts)
    × IsOneActive ts

-- The invariant: a ride has one Trip at most, the table's constraints hold, and no Driver has two
-- active Trips.
pub record IsConsistent (ts : List Trip) : Type 0 where
  pub keyed : IsKeyed trip_key ts
  pub valid : All IsValidTrip ts
  pub one_active : IsOneActive ts

-- Rows take a step of a Trip's life where the condition holds.
pub record IsUpdated (p : Trip → Bool) (f : Trip → Trip) (ts us : List Trip) : Type 0 where
  pub same_key : (t : Trip) → trip_key (f t) ≡ trip_key t
  pub steps : All (λ t. p t ≡ true → TripStep t (f t)) ts
  pub result : us ≡ update_where p f ts

-- A Trip is added, for a ride that has none and a Driver who is free.
pub record IsAssigned (t : Trip) (ts us : List Trip) : Type 0 where
  pub fresh : IsFresh t
  pub free_driver : has_active_trip t.driver_user_id ts ≡ false
  pub free_ride : has_trip t.ride_request_id ts ≡ false
  pub result : us ≡ ts ++ t ∷ []

pub data IsChange (ts us : List Trip) : Type 0 where
  untouched : us ≡ ts → IsChange ts us
  updated : (p : Trip → Bool) (f : Trip → Trip) → IsUpdated p f ts us → IsChange ts us
  assigned : (t : Trip) → IsAssigned t ts us → IsChange ts us

-- A step keeps the Driver and makes no Trip active that was not.
record IsQuiet (t u : Trip) : Type 0 where
  same_driver : u.driver_user_id ≡ t.driver_user_id
  was_active : is_active_status u.status ≡ true → is_active_status t.status ≡ true

TripStep-IsQuiet : (t u : Trip) → TripStep t u → IsQuiet t u
TripStep-IsQuiet t u (begin n a e) =
    rw e (record { same_driver = refl; was_active = λ h. rw a refl })
TripStep-IsQuiet t u (finish n a e) = rw e (record { same_driver = refl; was_active = λ h. cc })
TripStep-IsQuiet t u (collect n a b e) = rw e (record { same_driver = refl; was_active = λ h. h })
TripStep-IsQuiet t u (call_off n a e) = rw e (record { same_driver = refl; was_active = λ h. cc })

quiet_free :
    (driver : ℕ) (t u : Trip)
    → IsQuiet t u
    → is_active_trip_of driver t ≡ false
    → is_active_trip_of driver u ≡ false
quiet_free driver t u q free = elim (Bool-cases (is_active_status u.status)) [
  | inl e ↦ rw q.same_driver (ground (arith, q.was_active e))
  | inr e ↦ rw e (ground arith)
]

module _ (p : Trip → Bool) (f : Trip → Trip) where
  change-IsQuiet : (t : Trip) → (p t ≡ true → TripStep t (f t)) → IsQuiet t (change p f t)
  change-IsQuiet t h = elim (Bool-cases (p t)) [
    | inl e ↦ rw e (TripStep-IsQuiet t (f t) (h e))
    | inr e ↦ rw e (record { same_driver = refl; was_active = λ a. a })
  ]

  still_free :
      (driver : ℕ) (t : Trip)
      → (p t ≡ true → TripStep t (f t))
      → is_active_trip_of driver t ≡ false
      → is_active_trip_of driver (change p f t) ≡ false
  still_free driver t h free = quiet_free driver t (change p f t) (change-IsQuiet t h) free

  All-still_free :
      (driver : ℕ) (ts : List Trip)
      → All (λ t. p t ≡ true → TripStep t (f t)) ts
      → All (λ t. is_active_trip_of driver t ≡ false) ts
      → All (λ t. is_active_trip_of driver t ≡ false) (update_where p f ts)
  All-still_free driver [] h free = tt
  All-still_free driver (t ∷ ts) h free =
      (still_free driver t h.0 free.0, All-still_free driver ts h.1 free.1)

  IsOneActive-update_where :
      (ts : List Trip)
      → All (λ t. p t ≡ true → TripStep t (f t)) ts
      → IsOneActive ts
      → IsOneActive (update_where p f ts)
  IsOneActive-update_where [] h one = tt
  IsOneActive-update_where (t ∷ ts) h one =
      let q = change-IsQuiet t h.0 in
      (
        λ a. rw q.same_driver (All-still_free t.driver_user_id ts h.1 (one.0 (q.was_active a))),
        IsOneActive-update_where ts h.1 one.1,
      )

other_driver :
    (driver : ℕ) (a : Trip)
    → is_active_trip_of driver a ≡ false
    → is_active_status a.status ≡ true
    → (driver == a.driver_user_id) ≡ false
other_driver driver a h e = ground arith

IsOneActive-append :
    (t : Trip) (ts : List Trip)
    → All (λ a. is_active_trip_of t.driver_user_id a ≡ false) ts
    → IsOneActive ts
    → IsOneActive (ts ++ t ∷ [])
IsOneActive-append t [] free one = ((λ e. tt), tt)
IsOneActive-append t (a ∷ ts) free one = (
  λ e.
      All-append (λ u. is_active_trip_of a.driver_user_id u ≡ false) ts (t ∷ []) (one.0 e)
        (rw (other_driver t.driver_user_id a free.0 e) refl, tt),
  IsOneActive-append t ts free.1 one.1,
)

other_ride : (ride : ℕ) (a : Trip) → (a.ride_request_id == ride) ≡ false → a.ride_request_id ≢ ride
other_ride ride a h e = ground arith

-- Each change keeps the invariant.
pub IsChange-IsConsistent : (ts us : List Trip) → IsChange ts us → IsConsistent ts → IsConsistent us
IsChange-IsConsistent ts us (untouched e) h = subst IsConsistent (sym e) h
IsChange-IsConsistent ts us (updated p f u) h = subst IsConsistent (sym u.result) (record {
  keyed = update_where-IsKeyed trip_key p f ts u.same_key h.keyed;
  valid = Lives-IsValidTrip (next here (update_where-Advances p f ts u.steps)) h.valid;
  one_active = IsOneActive-update_where p f ts u.steps h.one_active;
})
IsChange-IsConsistent ts us (assigned t a) h = subst IsConsistent (sym a.result) (record {
  keyed =
      append-IsKeyed trip_key t ts
        (All-map (λ x. (x.ride_request_id == t.ride_request_id) ≡ false)
          (λ x. trip_key x ≢ trip_key t) ts (other_ride t.ride_request_id)
          (exists-All-false (λ x. x.ride_request_id == t.ride_request_id) ts a.free_ride))
        h.keyed;
  valid = Lives-IsValidTrip (next here (append-Advances ts t a.fresh)) h.valid;
  one_active =
      IsOneActive-append t ts
        (exists-All-false (is_active_trip_of t.driver_user_id) ts a.free_driver) h.one_active;
})

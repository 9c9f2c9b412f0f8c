-- ===== src/Driver/Presence/Selected.antt =====
-- The vehicle that a Driver chooses is the one that is then operated.
use uber_clone.Common.{
  ℕ, ◌≡◌, refl, true, ◌&&◌, some, List, [], ◌∷◌, ◌==◌, arith, ok, Bool-cases, inl, inr,
}
use uber_clone.Common.Table.{find, exists, find-update_self, find-append, exists-find}
use uber_clone.Store.{Db, Selection, Vehicle}
use uber_clone.Driver.Eligibility.{has_capability}
use uber_clone.Driver.Presence.{
  is_enrolled_somewhere, is_selectable_vehicle, upsert_selection, choose_vehicle, selection_state,
}

chosen :
    (user vehicle : ℕ) (t : List Selection)
    → (s : Selection) × (find (λ s. s.driver_user_id == user) (upsert_selection user vehicle t)
        ≡ some s)
      × (s.vehicle_id ≡ vehicle)
unfolding upsert_selection
chosen user vehicle t = elim (Bool-cases (exists (λ s. s.driver_user_id == user) t)) [
  | inl e ↦
      let (s, f) = exists-find (λ s. s.driver_user_id == user) t e in
      (
        record s { vehicle_id = vehicle },
        rw e (
            find-update_self (λ s. s.driver_user_id == user)
              (λ s. record s { vehicle_id = vehicle }) t (λ x. refl) f),
        refl,
      )
  | inr e ↦ (
    record { driver_user_id = user; vehicle_id = vehicle },
    rw
        (
          e,
          find-append (λ s. s.driver_user_id == user) t
              (record { driver_user_id = user; vehicle_id = vehicle } ∷ []) e,
        )
        (ground arith),
    refl,
  )
]

choose_vehicle-inv :
    (user vehicle : ℕ) (db : Db) {db' : Db}
    → choose_vehicle user vehicle db ≡ ok (tt, db')
    → (is_selectable_vehicle user vehicle db ≡ true)
      × (db' ≡ record db { selections = upsert_selection user vehicle db.selections })
unfolding choose_vehicle
choose_vehicle-inv user vehicle db h = (ground arith, ground arith)

-- A selectable vehicle is one whose selection is valid.
selectable_valid :
    (user vehicle : ℕ) (db : Db) (t : List Vehicle)
    → exists
        (λ v.
          (v.id == vehicle)
          && (v.driver_user_id == user)
          && is_enrolled_somewhere v.id db
          && has_capability v.driver_user_id db)
        t
      ≡ true
    → exists
        (λ v. (v.id == vehicle) && (v.driver_user_id == user) && is_enrolled_somewhere v.id db)
        t
      ≡ true
selectable_valid user vehicle db [] h = cc
selectable_valid user vehicle db (v ∷ t) h = ground (arith, selectable_valid user vehicle db t)

-- After a Driver has chosen a vehicle, the operating state shows that vehicle as a valid selection,
-- whether or not there was a selection before.
pub choose_vehicle-selects :
    (user vehicle : ℕ) (db : Db) {db' : Db}
    → choose_vehicle user vehicle db ≡ ok (tt, db')
    → selection_state user db' ≡ some (vehicle, true)
choose_vehicle-selects user vehicle db {db'} h =
    let (able, after) = choose_vehicle-inv user vehicle db h in
    let (s, f, same) = chosen user vehicle db.selections in
    let valid = selectable_valid user vehicle db db.vehicles able in
    rw (after, selection_state, f, same, after, valid) refl

-- ===== src/Driver/Location/Current.antt =====
-- A heartbeat stores the location, and does not revive a presence that has lapsed.
use uber_clone.Common.{
  ℕ, ◌≡◌, refl, true, some, List, [], ◌∷◌, ◌==◌, ==_refl, arith, ok, ◌∙◌, ap, Bool-cases,
  Option-cases, inl, inr,
}
use uber_clone.Common.Table.{
  find, exists, update_where, change, find-update_self, find-update_where, find-append, find_sound,
  exists-find,
}
use uber_clone.Store.{Db, Profile, Location, DriverLocation, Clock}
use uber_clone.Driver.Presence.{has_fresh}
use uber_clone.Driver.Location.{
  valid_place, is_lapsed, drop_offline, upsert_location, upsert_current, set_current, heartbeat,
}

stored :
    (l s : DriverLocation)
    → s.driver_user_id == l.driver_user_id ≡ true
    → s.driver_user_id ≡ l.driver_user_id
stored l s h = ground arith

upserted :
    (l : DriverLocation) (t : List DriverLocation)
    → find (λ x. x.driver_user_id == l.driver_user_id) (upsert_location l t) ≡ some l
unfolding upsert_location
upserted l t = elim (Bool-cases (exists (λ x. x.driver_user_id == l.driver_user_id) t)) [
  | inl e ↦
      let (s, f) = exists-find (λ x. x.driver_user_id == l.driver_user_id) t e in
      let m : s.driver_user_id ≡ l.driver_user_id =
        stored l s (find_sound (λ x. x.driver_user_id == l.driver_user_id) t f) in
      rw e (
        find-update_self (λ x. x.driver_user_id == l.driver_user_id)
          (λ x. record x { place = l.place; updated_at = l.updated_at }) t (λ x. refl) f
        ∙ ap some (cc m))
  | inr e ↦
      rw
        (
          e,
          find-append (λ x. x.driver_user_id == l.driver_user_id) t (l ∷ []) e,
          ==_refl l.driver_user_id,
        )
        refl
]

-- The Driver's profile before and after: online after means online before and fresh until then.
abbrev pub IsNotRevived : Clock → ℕ → Db → Db → Type 0
IsNotRevived c driver db db' =
    (p : Profile) × (p' : Profile) × (find (λ p. p.user_id == driver) db.profiles ≡ some p)
    × (find (λ p. p.user_id == driver) db'.profiles ≡ some p')
    × (p'.is_online ≡ true
        → (p.is_online ≡ true) × (has_fresh (c.at 1) p.user_id db.locations ≡ true))

not_revived :
    (now driver : ℕ) (locations : List DriverLocation) (p : Profile)
    → (p.user_id == driver) ≡ true
    → (change (is_lapsed now driver locations) drop_offline p).is_online ≡ true
    → (p.is_online ≡ true) × (has_fresh now p.user_id locations ≡ true)
not_revived now driver locations p m o = (ground arith, ground arith)

-- Where a heartbeat is accepted, its coordinates are numbers within the ranges of latitude and
-- longitude; the Driver's stored location is then the given place at NOW(); and the Driver is online
-- afterwards only if online before and with a location that was still fresh.
pub set_current-stores :
    (c : Clock) (driver : ℕ) (place : Location) (db : Db) {l : DriverLocation} {db' : Db}
    → set_current c driver place db ≡ ok (l, db')
    → (valid_place place ≡ true)
      × (l ≡ heartbeat c driver place)
      × (find (λ x. x.driver_user_id == driver) db'.locations ≡ some l)
      × IsNotRevived c driver db db'
unfolding set_current upsert_current
set_current-stores c driver place db {l} {db'} h =
    elim (Option-cases (find (λ p. p.user_id == driver) db.profiles)) [
      | inl e ↦ absurd (ground arith)
      | inr (p, e) ↦
          let m = find_sound (λ p. p.user_id == driver) db.profiles e in
          let f = is_lapsed (c.at 1) driver db.locations in
          let x = heartbeat c driver place in
          let same : l ≡ x = ground arith in
          let locations : db'.locations ≡ upsert_location x db.locations = ground arith in
          let profiles : db'.profiles ≡ update_where f drop_offline db.profiles = ground arith in
          let changed =
            find-update_where (λ p. p.user_id == driver) f drop_offline db.profiles (λ x. refl) in
          (
            ground arith,
            same,
            rw (locations, same) (upserted x db.locations),
            (
              p,
              change f drop_offline p,
              e,
              rw (profiles, changed, e) refl,
              not_revived (c.at 1) driver db.locations p m,
            ),
          )
    ]

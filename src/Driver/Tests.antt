-- ===== src/Driver/Tests.antt =====
-- Tests of the Drivers' presence on the sample store.
use uber_clone.Common.{◌≡◌, refl, true, false, [], ◌∷◌, All, length, ok, some}
use uber_clone.Common.Text.{codes, text_eq}
use uber_clone.Store.{Db, frozen}
use uber_clone.Sample.{sample, noon, a_profile}
use uber_clone.Driver.Eligibility.{has_active_trip, operates, lock_marketplace_eligible}
use uber_clone.Driver.Presence.{
  has_fresh, in_scope, online_ids, expire_presence, has_selection, change_presence, check_online,
  set_presence, choose_vehicle, upsert_selection, selection_state,
}
use uber_clone.Driver.Presence.Effects.{
  WasFresh, expire_presence-WasFresh, change_presence-eligible,
}
use uber_clone.Common.Int.{◌-ℤ◌}
use uber_clone.Common.Float.{leb_float, degrees, minus_degrees}
use uber_clone.Sample.{here}
use uber_clone.Driver.Location.{
  valid_coordinate, upsert_location, upsert_current, set_current, heartbeat,
}
use uber_clone.Driver.Presence.Selected.{choose_vehicle-selects}

expire_presence-WasFresh_example :
    All
      (λ p.
        in_scope 0 p ≡ true
        → p.is_online ≡ true
        → WasFresh (frozen noon) (length (online_ids 0 sample.profiles)) sample.locations p)
      (expire_presence (frozen noon) 0 sample).profiles
expire_presence-WasFresh_example = expire_presence-WasFresh (frozen noon) 0 sample

-- Driver 20 goes online.
abbrev gone_online : Db
gone_online = record sample {
  profiles = set_presence (frozen noon) true (a_profile 20) ∷ a_profile 23 ∷ [];
}

goes_online : change_presence (frozen noon) 20 true sample ≡ ok (tt, gone_online)
unfolding change_presence check_online text_eq
goes_online = refl

change_presence-eligible_example :
    (has_selection 20 sample ≡ true)
    × (has_fresh noon 20 sample.locations ≡ true)
    × (has_active_trip 20 sample.trips ≡ false)
    × (operates 20 (codes "car") sample ≡ true
        → lock_marketplace_eligible (frozen noon) 0 20 (codes "car") gone_online ≡ true)
change_presence-eligible_example =
    change_presence-eligible noon 0 20 (codes "car") sample goes_online

abbrev offline : Db
offline = record sample { profiles = record (a_profile 20) { is_online = false } ∷ [] }

chooses :
    choose_vehicle 20 20 offline
    ≡ ok (tt, record offline { selections = upsert_selection 20 20 offline.selections })
unfolding choose_vehicle text_eq
chooses = refl

choose_vehicle-selects_example :
    selection_state 20 (record offline { selections = upsert_selection 20 20 offline.selections })
    ≡ some (20, true)
choose_vehicle-selects_example = choose_vehicle-selects 20 20 offline chooses

heartbeats :
    set_current (frozen noon) 20 here sample
    ≡ ok (
      heartbeat (frozen noon) 20 here,
      record sample {
        locations = upsert_location (heartbeat (frozen noon) 20 here) sample.locations;
      },
    )
unfolding set_current upsert_current valid_coordinate leb_float degrees minus_degrees ◌-ℤ◌
heartbeats = refl

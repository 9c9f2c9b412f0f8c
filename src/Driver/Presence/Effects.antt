-- ===== src/Driver/Presence/Effects.antt =====
-- Who is online after the presence is brought up to date, and what going online rests on.
use uber_clone.Common.{
  ℕ, suc, ◌≤◌, length, ◌+◌, ◌≡◌, refl, ◌⊎◌, inl, inr, Bool, true, false, ◌&&◌, ◌||◌, some, List, [],
  ◌∷◌, ◌==◌, arith, All, All-map, ok, Bool-cases, Option-cases, subst, sym,
}
use uber_clone.Common.Text.{Text}
use uber_clone.Common.Table.{
  find, update_where, change, All-update_where, find_sound, find-exists_too, exists-update_made,
}
use uber_clone.Store.{Db, Profile, DriverLocation, Clock, frozen}
use uber_clone.Driver.Eligibility.{
  is_fresh, has_active_trip, has_capability, operates, is_active_driver, lock_marketplace_eligible,
  has_operation, is_available,
}
use uber_clone.Driver.Presence.{
  has_fresh, in_scope, online_ids, is_stale, set_offline, expire_one, expire_each, expire_presence,
  has_selection, check_online, set_presence, change_presence,
}

abbrev has_id : ℕ → List ℕ → Bool
has_id n [] = false
has_id n (i ∷ is) = (n == i) || has_id n is

-- The Driver sent a location that was fresh at the time of a statement of the transaction, whose last
-- one is number `n`.
abbrev pub WasFresh : Clock → ℕ → List DriverLocation → Profile → Type 0
WasFresh c n locations p = (j : ℕ) × (j ≤ n) × (has_fresh (c.at j) p.user_id locations ≡ true)

-- An online Driver in scope is still to be looked at, or was fresh.
abbrev IsPending : Clock → ℕ → ℕ → List ℕ → List DriverLocation → Profile → Type 0
IsPending c n user ids locations p =
    in_scope user p ≡ true
    → p.is_online ≡ true
    → (has_id p.user_id ids ≡ true) ⊎ WasFresh c n locations p

weaken-IsPending :
    (c : Clock) (n user i : ℕ) (ids : List ℕ) (ls : List DriverLocation) (p : Profile)
    → IsPending c n user ids ls p
    → IsPending c n user (i ∷ ids) ls p
weaken-IsPending c n user i ids ls p h s o = elim (h s o) [
  | inl m ↦ inl (ground arith)
  | inr f ↦ inr f
]

online_ids-in :
    (user : ℕ) (p : Profile) (ps : List Profile)
    → (p.is_online && in_scope user p) ≡ true
    → online_ids user (p ∷ ps) ≡ p.user_id ∷ online_ids user ps
unfolding online_ids
online_ids-in user p ps e = rw e refl

online_ids-out :
    (user : ℕ) (p : Profile) (ps : List Profile)
    → (p.is_online && in_scope user p) ≡ false
    → online_ids user (p ∷ ps) ≡ online_ids user ps
unfolding online_ids
online_ids-out user p ps e = rw e refl

online_ids-IsPending :
    (c : Clock) (n user : ℕ) (ls : List DriverLocation) (ps : List Profile)
    → All (IsPending c n user (online_ids user ps) ls) ps
online_ids-IsPending c n user ls [] = tt
online_ids-IsPending c n user ls (p ∷ ps) =
    let Goal : List ℕ → Type 0 =
      λ is. IsPending c n user is ls p × All (IsPending c n user is ls) ps in
    let rest = online_ids-IsPending c n user ls ps in
    elim (Bool-cases (p.is_online && in_scope user p)) [
      | inl e ↦ subst Goal (sym (online_ids-in user p ps e)) (
        λ s o. inl (ground arith),
        All-map (IsPending c n user (online_ids user ps) ls)
            (IsPending c n user (p.user_id ∷ online_ids user ps) ls) ps
            (weaken-IsPending c n user p.user_id (online_ids user ps) ls) rest,
      )
      | inr e ↦ subst Goal (sym (online_ids-out user p ps e)) (λ s o. absurd (ground arith), rest)
    ]

step-IsPending :
    (c : Clock) (n k user i : ℕ) (ids : List ℕ) (ls : List DriverLocation) (p : Profile)
    → k ≤ n
    → IsPending c n user (i ∷ ids) ls p
    → IsPending c n user ids ls (change (is_stale (c.at k) i ls) (set_offline (c.at k)) p)
step-IsPending c n k user i ids ls p b h = elim (Bool-cases (is_stale (c.at k) i ls p)) [
  | inl e ↦ rw e (λ s o. absurd (cc o))
  | inr e ↦ rw e (λ s o. elim (Bool-cases (p.user_id == i)) [
    | inl m ↦ inr (k, b, ground arith)
    | inr m ↦ elim (h s o) [ inl member ↦ inl (ground arith) | inr fresh ↦ inr fresh ]
  ])
]

expire_each-IsPending :
    (c : Clock) (n k user : ℕ) (ids : List ℕ) (db : Db)
    → k + length ids ≤ suc n
    → All (IsPending c n user ids db.locations) db.profiles
    → All (IsPending c n user [] db.locations) (expire_each c k ids db).profiles
unfolding expire_each expire_one
expire_each-IsPending c n k user [] db b h = h
expire_each-IsPending c n k user (i ∷ ids) db b h =
    expire_each-IsPending c n (k + 1) user ids (expire_one (c.at k) i db) (omega arith) (
      All-update_where (IsPending c n user (i ∷ ids) db.locations)
        (IsPending c n user ids db.locations) (is_stale (c.at k) i db.locations)
        (set_offline (c.at k)) db.profiles
        (λ p. step-IsPending c n k user i ids db.locations p (omega arith)) h)

-- After the presence is brought up to date, for one Driver or (with 0) for all, a Driver in scope who
-- is still online sent a location that was fresh at the time of a statement of that transaction,
-- which has one for each Driver who was online before.
pub expire_presence-WasFresh :
    (c : Clock) (user : ℕ) (db : Db)
    → All
        (λ p.
          in_scope user p ≡ true
          → p.is_online ≡ true
          → WasFresh c (length (online_ids user db.profiles)) db.locations p)
        (expire_presence c user db).profiles
unfolding expire_presence
expire_presence-WasFresh c user db =
    let ids = online_ids user db.profiles in
    All-map (IsPending c (length ids) user [] db.locations)
      (λ p. in_scope user p ≡ true → p.is_online ≡ true → WasFresh c (length ids) db.locations p)
      (expire_each c 1 ids db).profiles
      (λ p h s o. elim (h s o) [ inl e ↦ absurd (cc e) | inr f ↦ f ])
      (expire_each-IsPending c (length ids) 1 user ids db (omega arith)
        (online_ids-IsPending c (length ids) user db.locations db.profiles))

-- The profile and the location on which going online rests.
online-inv :
    (now user : ℕ) (db : Db) {db' : Db}
    → change_presence (frozen now) user true db ≡ ok (tt, db')
    → (p : Profile) × (l : DriverLocation) × (find (λ p. p.user_id == user) db.profiles ≡ some p)
      × (find (λ l. l.driver_user_id == user) db.locations ≡ some l)
      × (is_fresh now l.updated_at ≡ true)
      × (has_selection user db ≡ true)
      × (has_capability user db ≡ true)
      × (has_active_trip user db.trips ≡ false)
      × (db' ≡ record db {
        profiles =
            update_where (λ p. p.user_id == user) (set_presence (frozen now) true) db.profiles;
      })
unfolding change_presence check_online
online-inv now user db h = elim (Option-cases (find (λ p. p.user_id == user) db.profiles)) [
  | inl e ↦ absurd (ground arith)
  | inr (p, e) ↦ elim (Option-cases (find (λ l. l.driver_user_id == user) db.locations)) [
    | inl e' ↦ absurd (ground arith)
    | inr (l, e') ↦
        (p, l, e, e', ground arith, ground arith, ground arith, ground arith, ground arith)
  ]
]

-- A Driver who goes online has a valid selection, a fresh location and no active Trip, and is then
-- eligible, at that instant, for every service of the catalogue that is active and that the selected
-- vehicle is enrolled in.
pub change_presence-eligible :
    (now k user : ℕ) (service : Text) (db : Db) {db' : Db}
    → change_presence (frozen now) user true db ≡ ok (tt, db')
    → (has_selection user db ≡ true)
      × (has_fresh now user db.locations ≡ true)
      × (has_active_trip user db.trips ≡ false)
      × (operates user service db ≡ true
          → lock_marketplace_eligible (frozen now) k user service db' ≡ true)
unfolding lock_marketplace_eligible has_operation is_available
change_presence-eligible now k user service db {db'} h =
    let (p, l, the_profile, the_location, fresh, selects, able, free, after) =
      online-inv now user db h in
    let located =
      find-exists_too (λ l. l.driver_user_id == user) (λ l. l.driver_user_id == user) db.locations
        the_location (find_sound (λ l. l.driver_user_id == user) db.locations the_location) in
    let is_located =
      find-exists_too (λ l. l.driver_user_id == user)
        (λ l. (l.driver_user_id == user) && is_fresh now l.updated_at) db.locations the_location
        (rw (find_sound (λ l. l.driver_user_id == user) db.locations the_location) fresh) in
    let set = set_presence (frozen now) true in
    let known =
      exists-update_made (λ p. p.user_id == user) (λ p. p.user_id == user) set db.profiles
        (λ x m. m) the_profile in
    let online =
      exists-update_made (λ p. p.user_id == user)
        (λ p. (p.user_id == user) && is_active_driver p.status && p.is_online) set db.profiles
        (λ x m. rw m refl) the_profile in
    (
      selects,
      is_located,
      free,
      λ works. rw after (rw (known, works, able, located, online, is_located, free) refl),
    )

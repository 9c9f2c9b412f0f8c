-- ===== src/Trip/Calls.antt =====
-- What the three calls answer, read off a table of the statuses.
pub mod Advancing
pub mod Repeated
use uber_clone.Common.{
  ℕ, ◌≡◌, refl, sym, ◌⊎◌, inl, inr, true, Option, none, some, arith, All, All-map, ok, err, Result,
  subst, Option-cases, ◌∙◌,
}
use uber_clone.Common.Table.{find, update_where, find-update_self, All-find}
use uber_clone.Common.Keys.{IsKeyed, find-only}
use uber_clone.Store.{trip_key, Db, Clock, Trip, TripStatus, SettlementStatus}
use uber_clone.Trip.{
  TripError, trip_not_found, not_started, not_completed, already_completed, already_cancelled,
  is_trip_of, update_trip, set_started, set_completed, set_collected, start_by, complete_by,
  confirm_by, start, complete, confirm_cash_collected,
}
use uber_clone.Trip.Lifecycle.{
  TripStep, begin, finish, collect, Advances, Advances-refl, update_where-Advances,
}
use uber_clone.Trip.Validity.{IsValidTrip, TripStep-IsValidTrip}

-- The row that a Driver's call finds.
abbrev pub trip_for : ℕ → ℕ → Db → Option Trip
trip_for ride driver db = find (is_trip_of ride driver) db.trips

abbrev pub write_trip : (Trip → Trip) → ℕ → ℕ → Db → Db
write_trip f ride driver db = record db { trips = update_where (is_trip_of ride driver) f db.trips }

update_trip-ok :
    (f : Trip → Trip) (ride driver : ℕ) (db : Db) {t : Trip}
    → ((x : Trip) → is_trip_of ride driver (f x) ≡ is_trip_of ride driver x)
    → trip_for ride driver db ≡ some t
    → update_trip f ride driver db ≡ ok (f t, write_trip f ride driver db)
unfolding update_trip
update_trip-ok f ride driver db same h =
    rw (find-update_self (is_trip_of ride driver) f db.trips same h)

-- A Driver's call on a Trip.
pub data Call : Type 0 where
  start_call complete_call confirm_call : Call

abbrev pub run_call : Call → Clock → ℕ → ℕ → Db → Result TripError (Trip × Db)
run_call start_call = start
run_call complete_call = complete
run_call confirm_call = confirm_cash_collected

-- The change that a call makes, and when: what the calls promise, read off a table of statuses.
abbrev pub write_of : Call → Clock → Trip → Trip
write_of start_call = set_started
write_of complete_call = set_completed
write_of confirm_call = set_collected

-- A call moves the Trip on, finds the work done, or is refused.
pub data Verdict : Type 0 where
  moves repeats : Verdict
  refuses : TripError → Verdict

abbrev pub verdict : Call → TripStatus → SettlementStatus → Verdict
verdict start_call TripStatus.assigned p = moves
verdict start_call TripStatus.in_progress p = repeats
verdict complete_call TripStatus.in_progress p = moves
verdict complete_call TripStatus.completed p = repeats
verdict complete_call TripStatus.assigned p = refuses not_started
verdict confirm_call TripStatus.completed SettlementStatus.unsettled = moves
verdict confirm_call TripStatus.completed SettlementStatus.cash_collected = repeats
verdict start_call TripStatus.completed p = refuses already_completed
verdict confirm_call TripStatus.assigned p = refuses not_completed
verdict confirm_call TripStatus.in_progress p = refuses not_completed
verdict a TripStatus.cancelled p = refuses already_cancelled

abbrev pub answer : Verdict → Call → Clock → ℕ → ℕ → Trip → Db → Result TripError (Trip × Db)
answer moves a c ride driver t db = ok (write_of a c t, write_trip (write_of a c) ride driver db)
answer repeats a c ride driver t db = ok (t, db)
answer (refuses e) a c ride driver t db = err e

start_by-answer :
    (s : TripStatus) (p : SettlementStatus) (c : Clock) (ride driver : ℕ) (t : Trip) (db : Db)
    → trip_for ride driver db ≡ some t
    → start_by s c ride driver t db ≡ answer (verdict start_call s p) start_call c ride driver t db
unfolding start_by
start_by-answer TripStatus.assigned p c ride driver t db h =
    update_trip-ok (set_started c) ride driver db (λ x. refl) h
start_by-answer TripStatus.in_progress p c ride driver t db h = refl
start_by-answer TripStatus.completed p c ride driver t db h = refl
start_by-answer TripStatus.cancelled p c ride driver t db h = refl

complete_by-answer :
    (s : TripStatus) (p : SettlementStatus) (c : Clock) (ride driver : ℕ) (t : Trip) (db : Db)
    → trip_for ride driver db ≡ some t
    → complete_by s c ride driver t db
      ≡ answer (verdict complete_call s p) complete_call c ride driver t db
unfolding complete_by
complete_by-answer TripStatus.assigned p c ride driver t db h = refl
complete_by-answer TripStatus.in_progress p c ride driver t db h =
    update_trip-ok (set_completed c) ride driver db (λ x. refl) h
complete_by-answer TripStatus.completed p c ride driver t db h = refl
complete_by-answer TripStatus.cancelled p c ride driver t db h = refl

confirm_by-answer :
    (s : TripStatus) (p : SettlementStatus) (c : Clock) (ride driver : ℕ) (t : Trip) (db : Db)
    → t.settlement.status ≡ p
    → trip_for ride driver db ≡ some t
    → confirm_by s c ride driver t db
      ≡ answer (verdict confirm_call s p) confirm_call c ride driver t db
unfolding confirm_by
confirm_by-answer TripStatus.assigned p c ride driver t db e h = refl
confirm_by-answer TripStatus.in_progress p c ride driver t db e h = refl
confirm_by-answer TripStatus.completed SettlementStatus.unsettled c ride driver t db e h =
    rw e (update_trip-ok (set_collected c) ride driver db (λ x. refl) h)
confirm_by-answer TripStatus.completed SettlementStatus.cash_collected c ride driver t db e h = rw e
confirm_by-answer TripStatus.cancelled p c ride driver t db e h = refl

-- A call on a Trip that meets the table's constraints does what its status calls for: it writes the
-- change, answers a repeated call with the Trip as it is, or is refused with the error of that
-- status. (So the errors for missing data never arise.)
pub run_call-answer :
    (a : Call) (c : Clock) (ride driver : ℕ) (db : Db) {t : Trip}
    → IsValidTrip t
    → trip_for ride driver db ≡ some t
    → run_call a c ride driver db
      ≡ answer (verdict a t.status t.settlement.status) a c ride driver t db
unfolding start complete confirm_cash_collected
run_call-answer start_call c ride driver db {t} v h =
    rw (h) (start_by-answer t.status t.settlement.status c ride driver t db h)
run_call-answer complete_call c ride driver db {t} v h =
    rw (h, complete_by-answer t.status t.settlement.status c ride driver t db h) (ground arith)
run_call-answer confirm_call c ride driver db {t} v h =
    rw (h, confirm_by-answer t.status t.settlement.status c ride driver t db refl h) (ground arith)

-- A call on no Trip is refused.
run_call-none :
    (a : Call) (c : Clock) (ride driver : ℕ) (db : Db)
    → trip_for ride driver db ≡ none
    → run_call a c ride driver db ≡ err trip_not_found
unfolding start complete confirm_cash_collected
run_call-none start_call c ride driver db h = rw h
run_call-none complete_call c ride driver db h = rw h
run_call-none confirm_call c ride driver db h = rw h

-- A move is a step of the Trip's life.
pub moves-TripStep :
    (a : Call) (c : Clock) (t : Trip)
    → verdict a t.status t.settlement.status ≡ moves
    → TripStep t (write_of a c t)
moves-TripStep start_call c t h = begin c.started (ground arith) refl
moves-TripStep complete_call c t h = finish c.started (ground arith) refl
moves-TripStep confirm_call c t h = collect c.started (ground arith) (ground arith) refl

-- After a move the same call finds its work done.
-- How a successful call went.
abbrev pub Went : Call → Clock → ℕ → ℕ → Db → Trip → Db → Type 0
Went a c ride driver db t' db' =
    (t : Trip) × (trip_for ride driver db ≡ some t)
    × ((verdict a t.status t.settlement.status ≡ moves)
          × (t' ≡ write_of a c t)
          × (db' ≡ write_trip (write_of a c) ride driver db)
        ⊎ (verdict a t.status t.settlement.status ≡ repeats) × (t' ≡ t) × (db' ≡ db))

answer-cases :
    (v : Verdict) (a : Call) (c : Clock) (ride driver : ℕ) (t : Trip) (db : Db) {t' : Trip}
    {db' : Db}
    → answer v a c ride driver t db ≡ ok (t', db')
    → (v ≡ moves) × (t' ≡ write_of a c t) × (db' ≡ write_trip (write_of a c) ride driver db)
      ⊎ (v ≡ repeats) × (t' ≡ t) × (db' ≡ db)
answer-cases moves a c ride driver t db h = inl (refl, ground arith, ground arith)
answer-cases repeats a c ride driver t db h = inr (refl, ground arith, ground arith)
answer-cases (refuses e) a c ride driver t db h = cc

pub run_call-Went :
    (a : Call) (c : Clock) (ride driver : ℕ) (db : Db) {t' : Trip} {db' : Db}
    → All IsValidTrip db.trips
    → run_call a c ride driver db ≡ ok (t', db')
    → Went a c ride driver db t' db'
run_call-Went a c ride driver db valid h = elim (Option-cases (trip_for ride driver db)) [
  | inl e ↦ cc (h, run_call-none a c ride driver db e)
  | inr (t, e) ↦
      let v : IsValidTrip t = All-find IsValidTrip (is_trip_of ride driver) db.trips valid e in
      (
        t,
        e,
        answer-cases (verdict a t.status t.settlement.status) a c ride driver t db
            (sym (run_call-answer a c ride driver db v e) ∙ h),
      )
]

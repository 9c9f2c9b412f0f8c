-- ===== src/Trip/Validity.antt =====
-- The table constraints of `trips` as an invariant: trips_started_at_check, trips_completed_at_check,
-- trips_cancellation_check and trips_cash_settlement_check.
use uber_clone.Common.{
  ℕ, zero, suc, ◌≡◌, sym, subst, ◌≢◌, ◌⊎◌, some-injective, true, Option, none, some, List, [], ◌∷◌,
  arith, All, is_some,
}
use uber_clone.Store.{Trip, TripStatus, SettlementStatus}
use uber_clone.Trip.{method_cash}
use uber_clone.Trip.Lifecycle.{
  TripStep, begin, finish, collect, call_off, IsFresh, Advances, done, added, kept, stepped, Lives,
  here, next,
}

pub record IsValidTrip (t : Trip) : Type 0 where
  pub started : t.status ≡ TripStatus.in_progress → is_some t.started_at ≡ true
  pub ended_started : t.status ≡ TripStatus.completed → is_some t.started_at ≡ true
  pub completed : t.status ≡ TripStatus.completed → is_some t.completed_at ≡ true
  pub cancelled : t.status ≡ TripStatus.cancelled → is_some t.cancelled_at ≡ true
  pub not_cancelled : t.status ≢ TripStatus.cancelled → t.cancelled_at ≡ none
  pub unpaid :
      t.settlement.status ≡ SettlementStatus.unsettled
      → (t.settlement.method ≡ none)
        × (t.settlement.cash_collected_at ≡ none)
        × (t.cash_collected_by ≡ none)
  pub paid :
      t.settlement.status ≡ SettlementStatus.cash_collected
      → (t.status ≡ TripStatus.completed)
        × (t.settlement.method ≡ some method_cash)
        × (is_some t.settlement.cash_collected_at ≡ true)
        × (t.cash_collected_by ≡ some t.driver_user_id)

pub TripStep-IsValidTrip : {t u : Trip} → TripStep t u → IsValidTrip t → IsValidTrip u
TripStep-IsValidTrip (begin n a e) h = rw e (ground arith)
TripStep-IsValidTrip (finish n a e) h = rw e (ground arith)
TripStep-IsValidTrip (collect n a b e) h = rw e (ground arith)
TripStep-IsValidTrip (call_off n a e) h = rw e (ground arith)

IsFresh-IsValidTrip : (t : Trip) → IsFresh t → IsValidTrip t
IsFresh-IsValidTrip t h = ground arith

Advances-IsValidTrip :
    {ts us : List Trip} → Advances ts us → All IsValidTrip ts → All IsValidTrip us
Advances-IsValidTrip done h = tt
Advances-IsValidTrip (added t fresh) h = (IsFresh-IsValidTrip t fresh, tt)
Advances-IsValidTrip (kept t a) h = (h.0, Advances-IsValidTrip a h.1)
Advances-IsValidTrip (stepped s a) h = (TripStep-IsValidTrip s h.0, Advances-IsValidTrip a h.1)

-- Whatever calls are made, in whatever order, a table whose rows meet the constraints keeps
-- meeting them.
pub Lives-IsValidTrip : {ts us : List Trip} → Lives ts us → All IsValidTrip ts → All IsValidTrip us
Lives-IsValidTrip here h = h
Lives-IsValidTrip (next l a) h = Advances-IsValidTrip a (Lives-IsValidTrip l h)

-- A Trip that is at its end: cancelled, or completed with its cash collected.
abbrev pub IsOver : Trip → Type 0
IsOver t =
    (t.status ≡ TripStatus.cancelled)
    ⊎ (t.status ≡ TripStatus.completed) × (t.settlement.status ≡ SettlementStatus.cash_collected)

no_step_when_over : {t u : Trip} → TripStep t u → IsOver t → ⊥
no_step_when_over (begin n a e) h = ground arith
no_step_when_over (finish n a e) h = ground arith
no_step_when_over (collect n a b e) h = ground arith
no_step_when_over (call_off n a e) h = ground arith

-- The row at each place of the table.
abbrev pub get_elem? : List Trip → ℕ → Option Trip
get_elem? [] i = none
get_elem? (t ∷ ts) zero = some t
get_elem? (t ∷ ts) (suc i) = get_elem? ts i

Advances-over :
    {ts us : List Trip} {t : Trip} (i : ℕ)
    → Advances ts us
    → IsOver t
    → get_elem? ts i ≡ some t
    → get_elem? us i ≡ some t
Advances-over i done o h = h
Advances-over i (added t fresh) o h = cc
Advances-over zero (kept t a) o h = h
Advances-over (suc i) (kept t a) o h = Advances-over i a o h
Advances-over {t = r} zero (stepped {t} s a) o h =
    absurd (no_step_when_over s (subst IsOver (sym (some-injective t r h)) o))
Advances-over (suc i) (stepped s a) o h = Advances-over i a o h

-- A Trip that is cancelled, or completed and paid, is never changed again by any calls.
pub Lives-over :
    {ts us : List Trip} {t : Trip} (i : ℕ)
    → Lives ts us
    → IsOver t
    → get_elem? ts i ≡ some t
    → get_elem? us i ≡ some t
Lives-over i here o h = h
Lives-over i (next l a) o h = Advances-over i a o (Lives-over i l o h)
